-- ===== src/Indexer/Block/Belonging.antt =====
-- Which block the transactions of `blockAndTx` belong to.
use polkadot_worker.Base.{
  ◌≢◌, ◌∙◌, map, Distinct, ok_inj, ℕ, suc, ◌+◌, ◌≤◌, ◌≡◌, get_elem?, Option-cases, inl, inr, refl,
  ap, subst, List, [], ◌∷◌, Option, none, some, Bytes, codes, length, All, Outcome, ok, >>=-eq-ok,
  arith, format_uint,
}
use polkadot_worker.Base.Int.{ℤ}
use polkadot_worker.Mapper.Amount.{Floats, init_exp_divider}
use polkadot_worker.Mapper.Proto.{RawBlock, Extrinsic}
use polkadot_worker.Mapper.Subset.{parse_events}
use polkadot_worker.Mapper.Transaction.{
  Transaction, to_uint64, parse_time, get_transaction_fee, to_transaction,
}
use polkadot_worker.Mapper.Transaction.Listing.{transaction_hash, MadeFrom, no_more, left_out, made}
use polkadot_worker.Scale.Storage.{ScaleExtrinsic}
use polkadot_worker.Indexer.Pairing.{
  TransactionWithMeta, find_extrinsic, identified, located, paired_with, pair_one, pair_from,
}

-- A transaction that says of itself that it stands in the block.
abbrev pub StandsIn : Bytes → RawBlock → Transaction → Type 0
StandsIn chain_id b t =
    (t.block_hash ≡ b.block_hash) × (t.height ≡ to_uint64 b.height) × (t.chain_id ≡ chain_id)

-- An entry of the result is the zero value or such a transaction under the settings of the client.
abbrev pub Belongs : Bytes → Bytes → RawBlock → Option TransactionWithMeta → Type 0
Belongs network chain_id b none = Unit
Belongs network chain_id b (some m) =
    (m.network ≡ network)
    × (m.chain_id ≡ chain_id)
    × (m.version ≡ codes "0.0.1")
    × StandsIn chain_id b m.transaction

-- The hashes of the entries that are not the zero value.
abbrev pub present_hashes : List (Option TransactionWithMeta) → List Bytes
present_hashes [] = []
present_hashes (none ∷ ps) = present_hashes ps
present_hashes (some m ∷ ps) = m.transaction.hash ∷ present_hashes ps

module _ (fl : Floats) (network chain_id currency : Bytes) (exp : ℤ) (b : RawBlock) where
  to_transaction-StandsIn :
      (t : Extrinsic) (tx : Transaction)
      → to_transaction fl exp chain_id currency b t ≡ ok tx
      → StandsIn chain_id b tx
  unfolding to_transaction
  to_transaction-StandsIn t tx h =
      let (time, h1, k1) = >>=-eq-ok (parse_time t.time) _ h in
      let (subs, h2, k2) =
        >>=-eq-ok
          (parse_events fl exp currency (init_exp_divider fl exp) time (to_uint64 b.height)
            (format_uint (to_uint64 t.nonce)) t.signer t.events)
          _ k1 in
      let (fee, h3, k3) =
        >>=-eq-ok (get_transaction_fee fl exp chain_id currency t.partial_fee t.tip) _ k2 in
      subst (StandsIn chain_id b) (ok_inj k3) (refl, refl, refl)

  pub MadeFrom-StandsIn :
      (ts : List Extrinsic) (txs : List Transaction)
      → MadeFrom fl exp chain_id currency b ts txs
      → All (StandsIn chain_id b) txs × (length txs ≤ length ts)
  MadeFrom-StandsIn [] [] no_more = (tt, omega arith)
  MadeFrom-StandsIn [] (tx ∷ txs) m = elim m [ ]
  MadeFrom-StandsIn (t ∷ ts) txs (left_out _ m) =
      let (a, l) = MadeFrom-StandsIn ts txs m in (a, omega (arith, l))
  MadeFrom-StandsIn (t ∷ ts) (tx ∷ txs) (made _ _ e m) =
      let (a, l) = MadeFrom-StandsIn ts txs m in
      ((to_transaction-StandsIn t tx e, a), omega (arith, l))

  module _ (height : ℕ) (xs : List ScaleExtrinsic) where
    paired_with-Belongs :
        (k : ℕ) (t : Transaction) (o : Option ℕ)
        → StandsIn chain_id b t
        → Belongs network chain_id b (paired_with network chain_id height xs k t o)
    paired_with-Belongs k t (some i) h = unfold identified in (refl, refl, refl, h)
    paired_with-Belongs k t none h = elim (Option-cases (get_elem? xs k)) [
      | inl e ↦ rw e tt
      | inr (x, e) ↦ rw e (unfold located in (refl, refl, refl, h))
    ]

    -- What a pairing that returned was made of.
    pub pair_from_parts :
        {E : Type 0} (k : ℕ) (t : Transaction) (ts : List Transaction)
        (ps : List (Option TransactionWithMeta))
        → ◌≡◌ {A = Outcome E (List (Option TransactionWithMeta))}
            (pair_from network chain_id height xs k (t ∷ ts))
            (ok ps)
        → (o : Option ℕ) × (rest : List (Option TransactionWithMeta)) × (◌≡◌
            {A = Outcome E (List (Option TransactionWithMeta))}
            (pair_from network chain_id height xs (k + 1) ts)
            (ok rest))
          × (paired_with network chain_id height xs k t o ∷ rest ≡ ps)
    unfolding pair_from pair_one
    pair_from_parts {E = E} k t ts ps h =
        let (p, e, h1) = >>=-eq-ok (pair_one network chain_id height xs {E = E} k t) _ h in
        let (o, e1, e2) = >>=-eq-ok (find_extrinsic {E = E} t.hash 0 xs) _ e in
        let (rest, e', h2) =
          >>=-eq-ok (pair_from network chain_id height xs {E = E} (k + 1) ts) _ h1 in
        (o, rest, e', ap (λ x. x ∷ rest) (ok_inj e2) ∙ ok_inj h2)

    pub pair_from-Belongs :
        {E : Type 0} (k : ℕ) (ts : List Transaction) (ps : List (Option TransactionWithMeta))
        → All (StandsIn chain_id b) ts
        → ◌≡◌ {A = Outcome E (List (Option TransactionWithMeta))}
            (pair_from network chain_id height xs k ts)
            (ok ps)
        → All (Belongs network chain_id b) ps × (length ps ≡ length ts)
    unfolding pair_from
    pair_from-Belongs k [] ps a h =
        subst (λ q. All (Belongs network chain_id b) q × (length q ≡ 0)) (ok_inj h) (tt, refl)
    pair_from-Belongs {E = E} k (t ∷ ts) ps (p, a) h =
        let (o, rest, e, q) = pair_from_parts {E = E} k t ts ps h in
        let (c, l) = pair_from-Belongs {E = E} (k + 1) ts rest a e in
        subst (λ r. All (Belongs network chain_id b) r × (length r ≡ suc (length ts))) q
          ((paired_with-Belongs k t o p, c), ap suc l)

    -- The hashes in a pairing are hashes of the transactions, in their order.
    paired_with-All :
        (P : Bytes → Type 0) (k : ℕ) (t : Transaction) (o : Option ℕ)
        (ps : List (Option TransactionWithMeta))
        → P t.hash
        → All P (present_hashes ps)
        → All P (present_hashes (paired_with network chain_id height xs k t o ∷ ps))
    paired_with-All P k t (some i) ps p h = unfold identified in (p, h)
    paired_with-All P k t none ps p h = elim (Option-cases (get_elem? xs k)) [
      | inl e ↦ rw e h
      | inr (x, e) ↦ rw e (unfold located in (p, h))
    ]

    pair_from-All :
        {E : Type 0} (P : Bytes → Type 0) (k : ℕ) (ts : List Transaction)
        (ps : List (Option TransactionWithMeta))
        → All P (map transaction_hash ts)
        → ◌≡◌ {A = Outcome E (List (Option TransactionWithMeta))}
            (pair_from network chain_id height xs k ts)
            (ok ps)
        → All P (present_hashes ps)
    unfolding pair_from
    pair_from-All P k [] ps a h = subst (λ q. All P (present_hashes q)) (ok_inj h) tt
    pair_from-All {E = E} P k (t ∷ ts) ps (p, a) h =
        let (o, rest, e, q) = pair_from_parts {E = E} k t ts ps h in
        subst (λ r. All P (present_hashes r)) q
          (paired_with-All P k t o rest p (pair_from-All {E = E} P (k + 1) ts rest a e))

    paired_with-Distinct :
        (k : ℕ) (t : Transaction) (o : Option ℕ) (ps : List (Option TransactionWithMeta))
        → All (λ h. h ≢ t.hash) (present_hashes ps)
        → Distinct (present_hashes ps)
        → Distinct (present_hashes (paired_with network chain_id height xs k t o ∷ ps))
    paired_with-Distinct k t (some i) ps a d = unfold identified in (a, d)
    paired_with-Distinct k t none ps a d = elim (Option-cases (get_elem? xs k)) [
      | inl e ↦ rw e d
      | inr (x, e) ↦ rw e (unfold located in (a, d))
    ]

    pub pair_from-Distinct :
        {E : Type 0} (k : ℕ) (ts : List Transaction) (ps : List (Option TransactionWithMeta))
        → Distinct (map transaction_hash ts)
        → ◌≡◌ {A = Outcome E (List (Option TransactionWithMeta))}
            (pair_from network chain_id height xs k ts)
            (ok ps)
        → Distinct (present_hashes ps)
    unfolding pair_from
    pair_from-Distinct k [] ps d h = subst (λ q. Distinct (present_hashes q)) (ok_inj h) tt
    pair_from-Distinct {E = E} k (t ∷ ts) ps (n, d) h =
        let (o, rest, e, q) = pair_from_parts {E = E} k t ts ps h in
        subst (λ r. Distinct (present_hashes r)) q
          (paired_with-Distinct k t o rest
            (pair_from-All {E = E} (λ x. x ≢ t.hash) (k + 1) ts rest n e)
            (pair_from-Distinct {E = E} (k + 1) ts rest d e))
