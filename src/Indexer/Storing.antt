-- ===== src/Indexer/Storing.antt =====
-- `indexer/client.go`: `BlockAndTx`, which stores what `blockAndTx` returns. The client of the store is
-- a parameter; logs are left out.
pub mod Laws
use polkadot_worker.Base.{List, [], ◌∷◌, Option, none, some, Outcome, ok, err, panic, block}
use polkadot_worker.Indexer.Pairing.{TransactionWithMeta}
use polkadot_worker.Indexer.Block.{BlockWithMeta, Fetched}

-- A call of the search store.
pub data StoreCall : Type 0 where
  store_block : BlockWithMeta → StoreCall
  store_transactions : List (Option TransactionWithMeta) → StoreCall

pub data StoreError (E X : Type 0) : Type 0 where
  fetching : E → StoreError E X
  no_session : X → StoreError E X
  storing_block : X → StoreError E X
  storing_transactions : X → StoreError E X

-- A result, with the calls that were made for it.
abbrev pub Stored : Type 0 → Type 0 → Type 0 → Type 0
Stored E X S = Outcome (StoreError E X) (Fetched × S) × List StoreCall

-- A call of the store, what it returns, and what follows when that is no error.
abbrev pub after_call :
    {E X S : Type 0} → (X → StoreError E X) → StoreCall → Stored E X S → Option X → Stored E X S
after_call f q (r, qs) none = (r, q ∷ qs)
after_call f q _ (some x) = (err (f x), q ∷ [])

-- `answer` is the error that a call of the store returns.
module _ {E X S : Type 0} (answer : StoreCall → Option X) where
  abbrev pub with_transactions : Fetched → S → List (Option TransactionWithMeta) → Stored E X S
  with_transactions f s [] = (ok (f, s), [])
  with_transactions f s (t ∷ ts) =
      after_call storing_transactions (store_transactions (t ∷ ts)) (ok (f, s), [])
        (answer (store_transactions (t ∷ ts)))

  abbrev pub in_session : Option X → Fetched → S → Stored E X S
  in_session (some x) f s = (err (no_session x), [])
  in_session none f s =
      after_call storing_block (store_block f.block_part) (with_transactions f s f.transactions)
        (answer (store_block f.block_part))

  -- `BlockAndTx`, on what `blockAndTx` has returned; `session` is the error of `GetSearchSession`.
  unfoldable pub store_fetched : Option X → Outcome E (Fetched × S) → Stored E X S
  store_fetched session (ok (f, s)) = in_session session f s
  store_fetched session (err e) = (err (fetching e), [])
  store_fetched session panic = (panic, [])
  store_fetched session block = (block, [])
