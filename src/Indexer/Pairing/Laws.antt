-- ===== src/Indexer/Pairing/Laws.antt =====
-- What becomes of each transaction in the pairing of `blockAndTx`.
use polkadot_worker.Base.{
  ℕ, zero, suc, ◌+◌, ◌≤◌, ◌≡◌, ◌≢◌, refl, sym, ap, subst, Bool-cases, Option-cases, inl, inr, true,
  List, [], ◌∷◌, Option, none, some, Bytes, same, same→eq, same_refl, slice_from, length, drop,
  take, get_elem?, All, Outcome, ok, ◌>>=◌, or_panic, arith,
}
use polkadot_worker.Mapper.Transaction.{Transaction}
use polkadot_worker.Scale.Storage.{ScaleExtrinsic}
use polkadot_worker.Indexer.Pairing.{
  TransactionWithMeta, find_extrinsic, identified, located, with_meta, paired_with, pair_one,
  pair_from,
}

-- The first extrinsic of a list with a given hash, counted from the index `i` on.
pub data FirstWith (bare : Bytes) (i : ℕ) : List ScaleExtrinsic → Option ℕ → Type 0 where
  nowhere :
      {xs : List ScaleExtrinsic} → All (λ x. x.extrinsic_hash ≢ bare) xs → FirstWith bare i xs none
  stands_at :
      {xs : List ScaleExtrinsic} (j : ℕ) (x : ScaleExtrinsic)
      → get_elem? xs j ≡ some x
      → x.extrinsic_hash ≡ bare
      → All (λ y. y.extrinsic_hash ≢ bare) (take j xs)
      → FirstWith bare i xs (some (i + j))

FirstWith-cons :
    (bare : Bytes) (i : ℕ) (x : ScaleExtrinsic) (xs : List ScaleExtrinsic) (o : Option ℕ)
    → x.extrinsic_hash ≢ bare
    → FirstWith bare (i + 1) xs o
    → FirstWith bare i (x ∷ xs) o
FirstWith-cons bare i x xs none n (nowhere h) = nowhere (n, h)
FirstWith-cons bare i x xs (some _) n (stands_at j y e q h) =
    subst (λ m. FirstWith bare i (x ∷ xs) (some m)) (omega arith) (stands_at (suc j) y e q (n, h))

find_extrinsic-FirstWith :
    {E : Type 0} (hash bare : Bytes) (i : ℕ) (xs : List ScaleExtrinsic)
    → slice_from 2 hash ≡ some bare
    → (o : Option ℕ) × (◌≡◌ {A = Outcome E (Option ℕ)} (find_extrinsic hash i xs) (ok o))
      × FirstWith bare i xs o
unfolding find_extrinsic
find_extrinsic-FirstWith {E = E} hash bare i [] e = (none, refl, nowhere tt)
find_extrinsic-FirstWith {E = E} hash bare i (x ∷ xs) e =
    elim (Bool-cases (same bare x.extrinsic_hash)) [
      | inl q ↦ (
        some (i + 0),
        rw (e, or_panic, ◌>>=◌) (rw q (ap (λ n. ok (some n)) (omega arith))),
        stands_at 0 x refl (sym (same→eq bare x.extrinsic_hash q)) tt,
      )
      | inr q ↦
          let (o, f, s) = find_extrinsic-FirstWith {E = E} hash bare (i + 1) xs e in
          (
            o,
            rw (e, or_panic, ◌>>=◌) (rw q f),
            FirstWith-cons bare i x xs o
                (λ r. ground (arith, q, subst (λ y. same bare y ≡ true) (sym r) (same_refl bare)))
                s,
          )
    ]

some_inj : {A : Type 0} {x y : A} → ◌≡◌ {A = Option A} (some x) (some y) → x ≡ y
some_inj e = cc

module _ (network chain_id : Bytes) (height : ℕ) (txs : List ScaleExtrinsic) where
  -- What stands in the place `k` for the transaction `t`.
  pub data Paired (k : ℕ) (t : Transaction) : Option TransactionWithMeta → Type 0 where
    by_hash :
        (bare : Bytes) (i : ℕ) (x : ScaleExtrinsic)
        → slice_from 2 t.hash ≡ some bare
        → get_elem? txs i ≡ some x
        → x.extrinsic_hash ≡ bare
        → All (λ y. y.extrinsic_hash ≢ bare) (take i txs)
        → Paired k t (some (with_meta network chain_id height txs (identified height i t)))
    by_place :
        (bare : Bytes) (x : ScaleExtrinsic)
        → slice_from 2 t.hash ≡ some bare
        → All (λ y. y.extrinsic_hash ≢ bare) txs
        → get_elem? txs k ≡ some x
        → Paired k t (some (with_meta network chain_id height txs (located height k x t)))
    left_zero :
        (bare : Bytes)
        → slice_from 2 t.hash ≡ some bare
        → All (λ y. y.extrinsic_hash ≢ bare) txs
        → get_elem? txs k ≡ none
        → Paired k t none

  paired_with-Paired :
      (k : ℕ) (t : Transaction) (bare : Bytes) (o : Option ℕ)
      → slice_from 2 t.hash ≡ some bare
      → FirstWith bare 0 txs o
      → Paired k t (paired_with network chain_id height txs k t o)
  paired_with-Paired k t bare (some _) e (stands_at j x f q h) =
      subst (λ i. Paired k t (some (with_meta network chain_id height txs (identified height i t))))
        (omega arith) (by_hash bare j x e f q h)
  paired_with-Paired k t bare none e (nowhere h) = elim (Option-cases (get_elem? txs k)) [
    | inl f ↦ rw f (left_zero bare e h f)
    | inr (x, f) ↦ rw f (by_place bare x e h f)
  ]

  slice_from-some : (s : Bytes) → 2 ≤ length s → slice_from 2 s ≡ some (drop 2 s)
  slice_from-some s h = ground arith

  pair_one-Paired :
      {E : Type 0} (k : ℕ) (t : Transaction)
      → 2 ≤ length t.hash
      → (p : Option TransactionWithMeta) × (◌≡◌ {A = Outcome E (Option TransactionWithMeta)}
          (pair_one network chain_id height txs k t)
          (ok p))
        × Paired k t p
  unfolding pair_one
  pair_one-Paired {E = E} k t h =
      let e = slice_from-some t.hash h in
      let (o, f, s) = find_extrinsic-FirstWith {E = E} t.hash (drop 2 t.hash) 0 txs e in
      (
        paired_with network chain_id height txs k t o,
        rw (f, ◌>>=◌) refl,
        paired_with-Paired k t (drop 2 t.hash) o e s,
      )

  -- What the places from `k` on hold.
  abbrev pub PairedFrom : ℕ → List Transaction → List (Option TransactionWithMeta) → Type 0
  PairedFrom k ts ps =
      (j : ℕ) (t : Transaction)
      → get_elem? ts j ≡ some t
      → (p : Option TransactionWithMeta) × (get_elem? ps j ≡ some p) × Paired (k + j) t p

  PairedFrom-cons :
      (k : ℕ) (t : Transaction) (ts : List Transaction) (p : Option TransactionWithMeta)
      (ps : List (Option TransactionWithMeta))
      → Paired k t p
      → PairedFrom (k + 1) ts ps
      → PairedFrom k (t ∷ ts) (p ∷ ps)
  PairedFrom-cons k t ts p ps h r zero u e =
      (p, refl, subst (λ n. Paired n u p) (omega arith) (subst (λ v. Paired k v p) (some_inj e) h))
  PairedFrom-cons k t ts p ps h r (suc j) u e =
      let (q, f, g) = r j u e in (q, f, subst (λ n. Paired n u q) (omega arith) g)

  -- When every hash has its two bytes of prefix, the loop from `k` on ends without a panic and
  -- fills as many places as there are transactions. In the place of a transaction stands that
  -- transaction: with the identifier of the first extrinsic that has its hash in all its events;
  -- or else, when no extrinsic has its hash, with the one of the extrinsic in the same place, in the
  -- events of the kind "Extrinsic" and of that extrinsic's module; or else, when there is no
  -- extrinsic in that place, nothing but the zero value.
  pub pair_from-Paired :
      {E : Type 0} (k : ℕ) (ts : List Transaction)
      → All (λ t. 2 ≤ length t.hash) ts
      → (ps : List (Option TransactionWithMeta)) × (◌≡◌
          {A = Outcome E (List (Option TransactionWithMeta))}
          (pair_from network chain_id height txs k ts)
          (ok ps))
        × (length ps ≡ length ts)
        × PairedFrom k ts ps
  unfolding pair_from
  pair_from-Paired k [] h = ([], refl, refl, λ j t e. cc)
  pair_from-Paired {E = E} k (t ∷ ts) (p, h) =
      let (x, e, q) = pair_one-Paired {E = E} k t p in
      let (xs, f, l, r) = pair_from-Paired {E = E} (k + 1) ts h in
      (x ∷ xs, rw (e, ◌>>=◌) (rw f refl), ap suc l, PairedFrom-cons k t ts x xs q r)
