-- ===== src/Mapper/Transaction/Listing.antt =====
-- Which extrinsics of a block become transactions.
use polkadot_worker.Base.{
  ok_inj, ◌≡◌, ◌≢◌, sym, ap, ◌∙◌, ◌⊎◌, subst, inl, inr, true, false, List, [], ◌∷◌, map, some,
  Bytes, same, same_refl, same→eq, member, All, All-map, Distinct, Bool-cases, Outcome, ok,
  >>=-eq-ok, ◌>>=◌, arith, format_uint,
}
use polkadot_worker.Base.Int.{ℤ}
use polkadot_worker.Mapper.Amount.{MapperError, Floats, init_exp_divider}
use polkadot_worker.Mapper.Proto.{Extrinsic, RawBlock}
use polkadot_worker.Mapper.Subset.{parse_events}
use polkadot_worker.Mapper.Transaction.{
  Transaction, to_transaction, transactions_loop, transactions_mapper, parse_time, to_uint64,
  get_transaction_fee,
}

abbrev pub extrinsic_hash : Extrinsic → Bytes
extrinsic_hash t = t.hash

abbrev pub transaction_hash : Transaction → Bytes
transaction_hash tx = tx.hash

-- The hash of a transaction that was made.
abbrev made_hash : Outcome MapperError Transaction → Bytes
made_hash (ok tx) = tx.hash
made_hash _ = []

ne-member : (h s : Bytes) (seen : List Bytes) → member h (s ∷ seen) ≡ false → h ≢ s
ne-member h s seen e q = ground (arith, subst (λ x. same h x ≡ true) q (same_refl h))

member-tail :
    (h s : Bytes) (seen : List Bytes) → member h (s ∷ seen) ≡ false → member h seen ≡ false
member-tail h s seen e = ground (arith, e)

member_here : (h s : Bytes) (seen : List Bytes) → h ≡ s → member h (s ∷ seen) ≡ true
member_here h s seen e = subst (λ x. member h (x ∷ seen) ≡ true) e (rw (same_refl h))

member_there : (h s : Bytes) (seen : List Bytes) → member h seen ≡ true → member h (s ∷ seen) ≡ true
member_there h s seen e = ground (arith, e)

-- A hash that is listed is, behind one more, that one or listed before.
member_split :
    (h s : Bytes) (seen : List Bytes)
    → member h (s ∷ seen) ≡ true
    → (h ≡ s) ⊎ (member h seen ≡ true)
member_split h s seen e = elim (Bool-cases (same h s)) [
  | inl k ↦ inl (same→eq h s k)
  | inr k ↦ inr (ground (arith, e, k))
]

module _ (fl : Floats) (exp : ℤ) (chain_id currency : Bytes) where
  to_transaction-hash :
      (b : RawBlock) (t : Extrinsic) (tx : Transaction)
      → to_transaction fl exp chain_id currency b t ≡ ok tx
      → tx.hash ≡ t.hash
  unfolding to_transaction
  to_transaction-hash b t tx h =
      let (time, h1, k1) = >>=-eq-ok (parse_time t.time) _ h in
      let (subs, h2, k2) =
        >>=-eq-ok
          (parse_events fl exp currency (init_exp_divider fl exp) time (to_uint64 b.height)
            (format_uint (to_uint64 t.nonce)) t.signer t.events)
          _ k1 in
      let (fee, h3, k3) =
        >>=-eq-ok (get_transaction_fee fl exp chain_id currency t.partial_fee t.tip) _ k2 in
      sym (ap made_hash k3)

  -- The transactions come from extrinsics, each from one, in the block's order.
  pub data MadeFrom (b : RawBlock) : List Extrinsic → List Transaction → Type 0 where
    no_more : MadeFrom b [] []
    left_out :
        (t : Extrinsic) {ts : List Extrinsic} {txs : List Transaction}
        → MadeFrom b ts txs
        → MadeFrom b (t ∷ ts) txs
    made :
        (t : Extrinsic) (tx : Transaction) {ts : List Extrinsic} {txs : List Transaction}
        → to_transaction fl exp chain_id currency b t ≡ ok tx
        → MadeFrom b ts txs
        → MadeFrom b (t ∷ ts) (tx ∷ txs)

  -- What the loop has done once it has returned.
  record LoopDone (b : RawBlock) (seen : List Bytes) (ts : List Extrinsic) (txs : List Transaction)
      : Type 0 where
    made_from : MadeFrom b ts txs
    distinct : Distinct (map transaction_hash txs)
    new : All (λ h. member h seen ≡ false) (map transaction_hash txs)
    complete :
        (h : Bytes)
        → member h (map extrinsic_hash ts) ≡ true
        → (member h seen ≡ true) ⊎ (member h (map transaction_hash txs) ≡ true)

  loop_taken :
      (b : RawBlock) (seen : List Bytes) (t : Extrinsic) (ts : List Extrinsic) (tx : Transaction)
      (txs : List Transaction)
      → member t.hash seen ≡ false
      → to_transaction fl exp chain_id currency b t ≡ ok tx
      → tx.hash ≡ t.hash
      → LoopDone b (t.hash ∷ seen) ts txs
      → LoopDone b seen (t ∷ ts) (tx ∷ txs)
  loop_taken b seen t ts tx txs m e q d = record {
    made_from = made t tx e d.made_from;
    distinct = (
      rw q (
          All-map (λ h. member h (t.hash ∷ seen) ≡ false) (λ h. h ≢ t.hash)
            (λ h. ne-member h t.hash seen) _ d.new),
      d.distinct,
    );
    new = (
      rw q m,
      All-map (λ h. member h (t.hash ∷ seen) ≡ false) (λ h. member h seen ≡ false)
          (λ h. member-tail h t.hash seen) _ d.new,
    );
    complete = λ h k. elim (member_split h t.hash (map extrinsic_hash ts) k) [
      | inl p ↦ inr (member_here h tx.hash _ (p ∙ sym q))
      | inr p ↦ elim (d.complete h p) [
        | inr r ↦ inr (member_there h tx.hash _ r)
        | inl r ↦ elim (member_split h t.hash seen r) [
          | inl u ↦ inr (member_here h tx.hash _ (u ∙ sym q))
          | inr u ↦ inl u
        ]
      ]
    ];
  }

  loop_skipped :
      (b : RawBlock) (seen : List Bytes) (t : Extrinsic) (ts : List Extrinsic)
      (txs : List Transaction)
      → member t.hash seen ≡ true
      → LoopDone b seen ts txs
      → LoopDone b seen (t ∷ ts) txs
  loop_skipped b seen t ts txs m d = record {
    made_from = left_out t d.made_from;
    distinct = d.distinct;
    new = d.new;
    complete = λ h k. elim (member_split h t.hash (map extrinsic_hash ts) k) [
      | inl p ↦ inl (rw p m)
      | inr p ↦ d.complete h p
    ];
  }

  loop_took :
      (b : RawBlock) (seen : List Bytes) (t : Extrinsic) (ts : List Extrinsic)
      (txs : List Transaction)
      → member t.hash seen ≡ false
      → (do
        tx ← to_transaction fl exp chain_id currency b t
        rest ← transactions_loop fl exp chain_id currency b (t.hash ∷ seen) ts
        ok (tx ∷ rest))
        ≡ ok txs
      → ((rest : List Transaction)
          → transactions_loop fl exp chain_id currency b (t.hash ∷ seen) ts ≡ ok rest
          → LoopDone b (t.hash ∷ seen) ts rest)
      → LoopDone b seen (t ∷ ts) txs
  loop_took b seen t ts txs m h ih =
      let (tx, e, h1) = >>=-eq-ok (to_transaction fl exp chain_id currency b t) _ h in
      let (rest, e', h2) =
        >>=-eq-ok (transactions_loop fl exp chain_id currency b (t.hash ∷ seen) ts) _ h1 in
      subst (LoopDone b seen (t ∷ ts)) (ok_inj h2)
        (loop_taken b seen t ts tx rest m e (to_transaction-hash b t tx e) (ih rest e'))

  transactions_loop-LoopDone :
      (b : RawBlock) (seen : List Bytes) (ts : List Extrinsic) (txs : List Transaction)
      → transactions_loop fl exp chain_id currency b seen ts ≡ ok txs
      → LoopDone b seen ts txs
  unfolding transactions_loop
  transactions_loop-LoopDone b seen [] [] h = record {
    made_from = no_more;
    distinct = tt;
    new = tt;
    complete = λ h k. cc;
  }
  transactions_loop-LoopDone b seen [] (tx ∷ txs) h = cc
  transactions_loop-LoopDone b seen (t ∷ ts) txs h = elim (Bool-cases (member t.hash seen)) [
    | inl m ↦
        loop_skipped b seen t ts txs m
          (transactions_loop-LoopDone b seen ts txs (ground (arith, m, h)))
    | inr m ↦
        loop_took b seen t ts txs m (ground (arith, m, h))
          (transactions_loop-LoopDone b (t.hash ∷ seen) ts)
  ]

  -- When the mapper succeeds its transactions come from extrinsics of the block, each made from one
  -- and in the block's order; no two of them have the same hash, and the hash of every extrinsic is
  -- the hash of one of them.
  pub transactions_mapper_once :
      (b : RawBlock) (txs : List Transaction)
      → transactions_mapper fl exp chain_id currency (some b) ≡ ok txs
      → MadeFrom b b.extrinsics txs
        × Distinct (map transaction_hash txs)
        × ((h : Bytes)
            → member h (map extrinsic_hash b.extrinsics) ≡ true
            → member h (map transaction_hash txs) ≡ true)
  unfolding transactions_mapper
  transactions_mapper_once b txs h =
      let d = transactions_loop-LoopDone b [] b.extrinsics txs h in
      (
        d.made_from,
        d.distinct,
        (λ x k. elim (d.complete x k) [ inl p ↦ absurd (ground (arith, p)) | inr p ↦ p ]),
      )
