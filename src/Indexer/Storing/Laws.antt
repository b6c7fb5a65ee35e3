-- ===== src/Indexer/Storing/Laws.antt =====
-- When the search store of `BlockAndTx` has all of a result.
use polkadot_worker.Base.{
  ◌≡◌, ◌↔◌, refl, ap, inl, inr, List, [], ◌∷◌, ◌++◌, Option, none, All, Option-cases, ok,
}
use polkadot_worker.Indexer.Pairing.{TransactionWithMeta}
use polkadot_worker.Indexer.Block.{Fetched}
use polkadot_worker.Indexer.Storing.{
  StoreCall, store_block, storing_block, storing_transactions, store_transactions, StoreError,
  Stored, after_call, with_transactions, store_fetched,
}

-- What is to be stored: the block, and then its transactions, if there are any.
abbrev pub calls_for : Fetched → List StoreCall
calls_for f =
    store_block f.block_part
    ∷ elim f.transactions [ [] ↦ [] | t ∷ ts ↦ store_transactions (t ∷ ts) ∷ [] ]

abbrev pub Accepted : {X : Type 0} → (StoreCall → Option X) → StoreCall → Type 0
Accepted answer q = answer q ≡ none

module _ {E X S : Type 0} (answer : StoreCall → Option X) where
  -- A result that is returned, and calls that begin those of `qs`.
  abbrev pub Complete : Fetched → S → List StoreCall → Stored E X S → Type 0
  Complete f s qs r =
      ((r.0 ≡ ok (f, s)) ↔ All (Accepted answer) qs)
      × ((left : List StoreCall) × (r.1 ++ left ≡ qs))

  after_call-Complete :
      (f : Fetched) (s : S) (e : X → StoreError E X) (q : StoreCall) (qs : List StoreCall)
      (r : Stored E X S)
      → Complete f s qs r
      → Complete f s (q ∷ qs) (after_call e q r (answer q))
  after_call-Complete f s e q qs r ((b, c), (left, p)) = elim (Option-cases (answer q)) [
    | inl h ↦ rw h ((λ k. (refl, b k), λ (_, k). c k), (left, ap (λ l. q ∷ l) p))
    | inr (x, h) ↦ rw h ((λ k. cc, λ (k, _). cc), (qs, refl))
  ]

  with_transactions-Complete :
      (f : Fetched) (s : S) (ts : List (Option TransactionWithMeta))
      → Complete f s
          (elim ts [ [] ↦ [] | t ∷ ts ↦ store_transactions (t ∷ ts) ∷ [] ])
          (with_transactions answer f s ts)
  with_transactions-Complete f s [] = ((λ h. tt, λ h. refl), ([], refl))
  with_transactions-Complete f s (t ∷ ts) =
      after_call-Complete f s storing_transactions (store_transactions (t ∷ ts)) [] (ok (f, s), [])
        ((λ h. tt, λ h. refl), ([], refl))

  -- For a block that was fetched, with a session of the store: the result is returned just when the
  -- store accepts the block and, if there are any, its transactions; and in each case the calls of
  -- the store are a beginning of these two, in this order.
  pub store_fetched-Complete :
      (f : Fetched) (s : S) → Complete f s (calls_for f) (store_fetched answer none (ok (f, s)))
  unfolding store_fetched
  store_fetched-Complete f s =
      after_call-Complete f s storing_block (store_block f.block_part) _ _
        (with_transactions-Complete f s f.transactions)
