-- ===== src/Migration/Ranging.antt =====
-- What a whole run of `getTransactions` of `cmd/data-migration/0001-migration-ext-id` writes into the
-- database.
use native.Mathlib.Nat.{mod-le}
use polkadot_worker.Base.{
  ℕ, zero, suc, ◌+◌, ◌-◌, ◌%◌, ◌^◌, ◌≤◌, ◌≡◌, inr, refl, List, [], ◌∷◌, Option, none, some, All,
  All-append, All-map, Outcome, ok, err, panic, block, arith, ok_inj, subst,
}
use polkadot_worker.Mapper.Transaction.{TransactionEvent}
use polkadot_worker.Indexer.Hashes.{Lru}
use polkadot_worker.Indexer.Pairing.{extrinsic_id, with_id}
use polkadot_worker.Migration.{
  no_rows, row_failed, query_failed, update_failed, hashes_failed, wrong_response, empty_response,
  wrong_data, timeout, metadata_failed, extrinsics_failed, MigrationNode, MigrationLibraries,
  MigrationState, Migrated, after_single, after_numbered, with_rows, get_transaction, then_next,
  heights_loop, get_transactions,
}
use polkadot_worker.Migration.Rows.{Row, RowError, Update, Updated, arranged}
use polkadot_worker.Migration.Identifying.{
  IsIdentified, IdentifiedRow, IdentifiedUpdate, with_paired-Identified, paired_rows-Identified,
  update_rows-Identified, updates-IsIdentified,
}

-- The update writes an identifier of a height from the one up to the other.
abbrev pub IsMigrated : ℕ → ℕ → Update → Type 0
IsMigrated from to u = (height : ℕ) × (from ≤ height) × (height ≤ to) × IsIdentified height u.events

numbered_events :
    (height : ℕ) (r : Row) (evs : List TransactionEvent) {p : Row}
    → ◌≡◌ {A = Outcome RowError Row}
        (elim evs [
          | [] ↦ panic
          | ev ∷ rest ↦ ok (record r { events = with_id (extrinsic_id height 0) ev ∷ rest })
        ])
        (ok p)
    → IdentifiedRow height p
numbered_events height r [] h = cc
numbered_events height r (ev ∷ rest) h =
    subst (IdentifiedRow height) (ok_inj h)
      (0, inr (0, with_id (extrinsic_id height 0) ev, refl, refl))

module _ {B D E X : Type 0} (lru : Lru) (lib : MigrationLibraries B D E X) where
  after_single-Identified :
      (height : ℕ) (rest : Migrated lru lib) (us : Updated X)
      → All (IdentifiedUpdate height) rest.1
      → All (IdentifiedUpdate height) us.1
      → All (IdentifiedUpdate height) (after_single lru lib rest us).1
  after_single-Identified height rest (none, us) h k =
      All-append (IdentifiedUpdate height) us rest.1 k h
  after_single-Identified height rest (some x, us) h k = k

  after_numbered-Identified :
      (node : MigrationNode) (s : MigrationState lru D) (height : ℕ) (o : Outcome RowError Row)
      → ((p : Row) → o ≡ ok p → IdentifiedRow height p)
      → All (IdentifiedUpdate height) (after_numbered lru lib node s height o).1
  after_numbered-Identified node s height (ok r) h =
      after_single-Identified height _ _
        (with_paired-Identified lru lib height _
          (paired_rows-Identified lru lib node s height (r ∷ [])))
        (update_rows-Identified lib.marshal lib.exec height (r ∷ []) (h r refl, tt))
  after_numbered-Identified node s height (err e) h = tt
  after_numbered-Identified node s height panic h = tt
  after_numbered-Identified node s height block h = tt

  with_rows-Identified :
      (node : MigrationNode) (s : MigrationState lru D) (height : ℕ) (rs : List Row)
      → All (IdentifiedUpdate height) (with_rows lru lib node s height rs).1
  unfolding with_rows arranged get_transaction
  with_rows-Identified node s height [] = tt
  with_rows-Identified node s height (r ∷ []) =
      after_numbered-Identified node s height _ (λ p. numbered_events height r r.events)
  with_rows-Identified node s height (r ∷ q ∷ rs) =
      updates-IsIdentified lru lib node s height r q rs

  get_transaction-Identified :
      (node : MigrationNode) (s : MigrationState lru D) (height : ℕ)
      (q : Outcome (Option X) (List Row))
      → All (IdentifiedUpdate height) (get_transaction lru lib node s height q).1
  unfolding get_transaction
  get_transaction-Identified node s height (ok rs) = with_rows-Identified node s height rs
  get_transaction-Identified node s height (err none) = tt
  get_transaction-Identified node s height (err (some x)) = tt
  get_transaction-Identified node s height panic = tt
  get_transaction-Identified node s height block = tt

  then_next-All :
      (P : Update → Type 0) (s : MigrationState lru D) (m : Migrated lru lib)
      (rest : MigrationState lru D → Migrated lru lib)
      → All P m.1
      → ((t : MigrationState lru D) → All P (rest t).1)
      → All P (then_next lru lib s m rest).1
  then_next-All P s (ok t, us) rest h k = All-append P us (rest t).1 h (k t)
  then_next-All P s (err no_rows, us) rest h k = All-append P us (rest s).1 h (k s)
  then_next-All P s (err (query_failed x), us) rest h k = h
  then_next-All P s (err (update_failed x), us) rest h k = h
  then_next-All P s (err (row_failed x), us) rest h k = h
  then_next-All P s (err (hashes_failed x), us) rest h k = h
  then_next-All P s (err (wrong_response x), us) rest h k = h
  then_next-All P s (err empty_response, us) rest h k = h
  then_next-All P s (err wrong_data, us) rest h k = h
  then_next-All P s (err timeout, us) rest h k = h
  then_next-All P s (err (metadata_failed x), us) rest h k = h
  then_next-All P s (err (extrinsics_failed x), us) rest h k = h
  then_next-All P s (panic, us) rest h k = h
  then_next-All P s (block, us) rest h k = h

  heights_loop-Migrated :
      (n i to : ℕ) (node : ℕ → MigrationNode) (query : ℕ → Outcome (Option X) (List Row))
      (s : MigrationState lru D)
      → n ≤ to + 1 - i
      → All (IsMigrated i to) (heights_loop lru lib n i node query s).1
  unfolding heights_loop
  heights_loop-Migrated zero i to node query s h = tt
  heights_loop-Migrated (suc n) i to node query s h =
      then_next-All (IsMigrated i to) s _ _
        (All-map (IdentifiedUpdate i) (IsMigrated i to)
          (λ u p. (i, omega arith, omega (arith, h), p)) _
          (get_transaction-Identified (node i) s i (query i)))
        (λ t.
          All-map (IsMigrated (i + 1) to) (IsMigrated i to)
            (λ u (height, lo, hi, p). (height, omega (arith, lo), hi, p)) _
            (heights_loop-Migrated n (i + 1) to node query t (omega (arith, h))))

  -- Whatever the node and the database answer for each height: every update that a run tries writes
  -- events with an identifier of one height between the first and the last of the run, one for all
  -- of them or one for one of them.
  pub get_transactions-Migrated :
      (from to : ℕ) (node : ℕ → MigrationNode) (query : ℕ → Outcome (Option X) (List Row))
      (s : MigrationState lru D)
      → All (IsMigrated from to) (get_transactions lru lib from to node query s).1
  unfolding get_transactions
  get_transactions-Migrated from to node query s =
      heights_loop-Migrated ((to + 1) % 2 ^ 64 - from) from to node query s
        (let h = mod-le (to + 1) (2 ^ 64) in omega (arith, h))
