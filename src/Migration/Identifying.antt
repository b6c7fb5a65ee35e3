-- ===== src/Migration/Identifying.antt =====
-- What `getTransaction` of `cmd/data-migration/0001-migration-ext-id` writes into the database.
use polkadot_worker.Base.{
  after_ok, after_ok_eq, ok_inj, wrap-eq-ok, ℕ, suc, ◌+◌, ◌≡◌, ◌⊎◌, refl, subst, Bool, Bool-cases,
  inl, inr, true, false, List, [], ◌∷◌, map, Option, none, some, Bytes, get_elem?, if◌then◌else◌,
  All, Outcome, ok, err, panic, block, >>=-eq-ok, wrap, arith,
}
use polkadot_worker.Mapper.Transaction.{TransactionEvent}
use polkadot_worker.Scale.Storage.{ScaleExtrinsic}
use polkadot_worker.Indexer.Hashes.{Lru}
use polkadot_worker.Indexer.Pairing.{extrinsic_id, with_id, if_of_module, find_extrinsic}
use polkadot_worker.Indexer.Hashes.{get_block_hashes}
use polkadot_worker.Indexer.Latest.{get_metadata, get_transactions_for_height}
use polkadot_worker.Indexer.Block.{version_of, extrinsics_of}
use polkadot_worker.Migration.{
  MigrationError, row_failed, hashes_failed, metadata_failed, extrinsics_failed, MigrationNode,
  MigrationLibraries, MigrationState, gather_two, paired_rows, ended, with_paired, with_rows,
  get_transaction,
}
use polkadot_worker.Migration.Rows.{arranged}
use polkadot_worker.Migration.Rows.{
  Row, unpaired, of_module, any_of_module, by_place, by_hash, pair_row, pair_rows, Update, Updated,
  update_of, after_exec, after_marshal, update_rows,
}

abbrev pub HasId : ℕ → ℕ → TransactionEvent → Type 0
HasId height i ev = ev.id ≡ extrinsic_id height i

-- One index of an extrinsic, in all the events or in one of them.
abbrev pub IsIdentified : ℕ → List TransactionEvent → Type 0
IsIdentified height evs =
    (i : ℕ) × (All (HasId height i) evs
      ⊎ ((j : ℕ) × (ev : TransactionEvent) × (get_elem? evs j ≡ some ev) × HasId height i ev))

all_with_id :
    (height i : ℕ) (evs : List TransactionEvent)
    → All (HasId height i) (map (with_id (extrinsic_id height i)) evs)
all_with_id height i [] = tt
all_with_id height i (ev ∷ evs) = (refl, all_with_id height i evs)

one_of_module :
    (height k : ℕ) (name : Bytes) (evs : List TransactionEvent)
    → any_of_module name evs ≡ true
    → (j : ℕ) × (ev : TransactionEvent) × (get_elem?
          (map (if_of_module (extrinsic_id height k) name) evs)
          j
        ≡ some ev)
      × HasId height k ev
one_of_module height k name [] h = cc
one_of_module height k name (ev ∷ evs) h = elim (Bool-cases (of_module name ev)) [
  | inl e ↦ (0, with_id (extrinsic_id height k) ev, rw e refl, refl)
  | inr e ↦
      let (j, v, p, q) = one_of_module height k name evs (ground (arith, e, h)) in (suc j, v, p, q)
]

abbrev pub IdentifiedRow : ℕ → Row → Type 0
IdentifiedRow height r = IsIdentified height r.events

if-ok :
    {E A : Type 0} (b : Bool) (e : E) {x y : A}
    → ◌≡◌ {A = Outcome E A} (if b then ok x else err e) (ok y)
    → (b ≡ true) × (x ≡ y)
if-ok true e h = (refl, ok_inj h)
if-ok false e h = cc

module _ (height : ℕ) (txs : List ScaleExtrinsic) where
  by_place-Identified :
      (k : ℕ) (r p : Row) (o : Option ScaleExtrinsic)
      → by_place height txs k r o ≡ ok p
      → IdentifiedRow height p
  by_place-Identified k r p none h = cc
  by_place-Identified k r p (some x) h =
      let (e, q) = if-ok (any_of_module x.call_module_name r.events) unpaired h in
      subst (IdentifiedRow height) q (k, inr (one_of_module height k x.call_module_name r.events e))

  by_hash-Identified :
      (k : ℕ) (r p : Row) (o : Option ℕ) → by_hash height txs k r o ≡ ok p → IdentifiedRow height p
  by_hash-Identified k r p (some i) h =
      subst (IdentifiedRow height) (ok_inj h) (i, inl (all_with_id height i r.events))
  by_hash-Identified k r p none h = by_place-Identified k r p (get_elem? txs k) h

  pair_rows-Identified :
      (k : ℕ) (rs ps : List Row) → pair_rows height txs k rs ≡ ok ps → All (IdentifiedRow height) ps
  unfolding pair_rows pair_row
  pair_rows-Identified k [] ps h = subst (All (IdentifiedRow height)) (ok_inj h) tt
  pair_rows-Identified k (r ∷ rs) ps h =
      let (p, e, h1) = >>=-eq-ok (pair_row height txs k r) _ h in
      let (o, e1, e2) = >>=-eq-ok (find_extrinsic r.hash 0 txs) _ e in
      let (rest, e', h2) = >>=-eq-ok (pair_rows height txs (k + 1) rs) _ h1 in
      subst (All (IdentifiedRow height)) (ok_inj h2)
        (by_hash-Identified k r p o e2, pair_rows-Identified (k + 1) rs rest e')

abbrev pub IdentifiedUpdate : ℕ → Update → Type 0
IdentifiedUpdate height u = IsIdentified height u.events

module _ {X : Type 0} (marshal exec : Update → Option X) where
  after_exec-Identified :
      (height : ℕ) (u : Update) (rest : Updated X) (o : Option X)
      → IdentifiedUpdate height u
      → All (IdentifiedUpdate height) rest.1
      → All (IdentifiedUpdate height) (after_exec marshal exec u rest o).1
  after_exec-Identified height u rest none p h = (p, h)
  after_exec-Identified height u rest (some x) p h = (p, tt)

  after_marshal-Identified :
      (height : ℕ) (u : Update) (rest : Updated X) (o : Option X)
      → IdentifiedUpdate height u
      → All (IdentifiedUpdate height) rest.1
      → All (IdentifiedUpdate height) (after_marshal marshal exec u rest o).1
  after_marshal-Identified height u rest none p h = after_exec-Identified height u rest (exec u) p h
  after_marshal-Identified height u rest (some x) p h = tt

  pub update_rows-Identified :
      (height : ℕ) (ps : List Row)
      → All (IdentifiedRow height) ps
      → All (IdentifiedUpdate height) (update_rows marshal exec ps).1
  unfolding update_rows
  update_rows-Identified height [] h = tt
  update_rows-Identified height (r ∷ rs) (p, h) =
      after_marshal-Identified height (update_of r) _ (marshal (update_of r)) p
        (update_rows-Identified height rs h)

module _ {B D E X : Type 0} (lru : Lru) (lib : MigrationLibraries B D E X) where
  ended-Identified :
      (height : ℕ) (s : MigrationState lru D) (u : Updated X)
      → All (IdentifiedUpdate height) u.1
      → All (IdentifiedUpdate height) (ended lru lib s u).1
  ended-Identified height s (none, us) h = h
  ended-Identified height s (some x, us) h = h

  pub with_paired-Identified :
      (height : ℕ) (m : Outcome (MigrationError E X) (List Row × MigrationState lru D))
      → ((p : List Row × MigrationState lru D) → m ≡ ok p → All (IdentifiedRow height) p.0)
      → All (IdentifiedUpdate height) (with_paired lru lib m).1
  with_paired-Identified height (ok (ps, s)) h =
      ended-Identified height s _
        (update_rows-Identified lib.marshal lib.exec height ps (h (ps, s) refl))
  with_paired-Identified height (err e) h = tt
  with_paired-Identified height panic h = tt
  with_paired-Identified height block h = tt

  pub paired_rows-Identified :
      (node : MigrationNode) (s : MigrationState lru D) (height : ℕ) (rs : List Row)
      (p : List Row × MigrationState lru D)
      → paired_rows lru lib node s height rs ≡ ok p
      → All (IdentifiedRow height) p.0
  unfolding paired_rows
  paired_rows-Identified node s height rs p h =
      after_ok
        (wrap hashes_failed
          (get_block_hashes lru node.send_hashes height s.cache node.hashes_replies))
        _
        (λ a h1.
          after_ok (gather_two lru lib 0 node.replies (none, none)) _
            (λ g h2.
              let v = version_of g.0 in
              let kept =
                get_metadata lib.process_metadata node.send_metadata v.spec_name v.spec_version
                  s.storage node.metadata_replies in
              after_ok (wrap metadata_failed kept.0) _
                (λ m h3.
                  after_ok
                    (wrap extrinsics_failed (
                      get_transactions_for_height lib.process_extrinsic m.decoder v.spec_version
                        (extrinsics_of lib.raw_extrinsics g.1)))
                    _
                    (λ txs h4.
                      after_ok_eq (wrap row_failed (pair_rows height txs 0 rs)) _
                        (λ ps e h5.
                          subst (λ x. All (IdentifiedRow height) x.0) (ok_inj h5)
                            (pair_rows-Identified height txs 0 rs ps (wrap-eq-ok row_failed _ e)))
                        h4)
                    h3)
                h2)
            h1)
        h

  -- At a height with two rows or more, whatever the node and the database answer: every update that
  -- is tried writes events with an identifier of this height, one for all of them or one for one
  -- of them.
  pub updates-IsIdentified :
      (node : MigrationNode) (s : MigrationState lru D) (height : ℕ) (r q : Row) (rs : List Row)
      → All
          (λ u. IsIdentified height u.events)
          (get_transaction lru lib node s height (ok (r ∷ q ∷ rs))).1
  unfolding get_transaction with_rows
  updates-IsIdentified node s height r q rs = with_paired-Identified height _ (λ p h.
      after_ok (wrap row_failed (arranged lib.sort (r ∷ q ∷ rs))) _
        (λ sorted k. paired_rows-Identified node s height sorted p k) h)
