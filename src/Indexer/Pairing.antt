-- ===== src/Indexer/Pairing.antt =====
-- `indexer/getBlock.go`: the loop of `blockAndTx` that gives the transactions of the proxy the
-- identifiers of the extrinsics that the node returned.
pub mod Laws
use polkadot_worker.Base.{
  ℕ, suc, ◌+◌, ◌≡◌, Bool, true, false, ◌&&◌, List, [], ◌∷◌, ◌++◌, map, Option, none, some, Bytes,
  codes, same, slice_from, length, get_elem?, to_lower, format_uint, if◌then◌else◌, Outcome, ok,
  err, panic, block, ◌>>=◌, or_panic,
}
use polkadot_worker.Mapper.Transaction.{Transaction, TransactionEvent}
use polkadot_worker.Scale.Storage.{ScaleExtrinsic}

pub record TransactionWithMeta : Type 0 where
  pub network : Bytes
  pub chain_id : Bytes
  pub version : Bytes
  pub transaction : Transaction

-- `fmt.Sprintf("%d-%d", height, i)`
unfoldable pub extrinsic_id : ℕ → ℕ → Bytes
extrinsic_id height i = format_uint height ++ b'-' ∷ format_uint i

abbrev pub with_id : Bytes → TransactionEvent → TransactionEvent
with_id id ev = record ev { id = id }

-- The inner loop, from the index `i` on: where the first extrinsic with the hash stands. The hash
-- without its prefix is cut in each round, so an empty list is never a panic.
unfoldable pub find_extrinsic :
    {E : Type 0} → Bytes → ℕ → List ScaleExtrinsic → Outcome E (Option ℕ)
find_extrinsic hash i [] = ok none
find_extrinsic hash i (x ∷ xs) =
    let rest = find_extrinsic hash (i + 1) xs in
    do bare ← or_panic (slice_from 2 hash); if same bare x.extrinsic_hash then ok (some i) else rest

-- Every event gets the identifier.
unfoldable pub identified : ℕ → ℕ → Transaction → Transaction
identified height i t = record t { events = map (with_id (extrinsic_id height i)) t.events }

abbrev pub if_of_module : Bytes → Bytes → TransactionEvent → TransactionEvent
if_of_module id name ev =
    if same (to_lower name) ev.module_ && same ev.kind (codes "Extrinsic")
    then with_id id ev
    else ev

-- The extrinsic in the transaction's own place, with the events of its module.
unfoldable pub located : ℕ → ℕ → ScaleExtrinsic → Transaction → Transaction
located height k x t = record t {
  events = map (if_of_module (extrinsic_id height k) x.call_module_name) t.events;
}

module _ (network chain_id : Bytes) (height : ℕ) (txs : List ScaleExtrinsic) where
  abbrev pub with_meta : Transaction → TransactionWithMeta
  with_meta t = record {
    network = network;
    chain_id = chain_id;
    version = codes "0.0.1";
    transaction = t;
  }

  abbrev pub in_place : ℕ → Transaction → Option ScaleExtrinsic → Option TransactionWithMeta
  in_place k t none = none
  in_place k t (some x) = some (with_meta (located height k x t))

  abbrev pub paired_with : ℕ → Transaction → Option ℕ → Option TransactionWithMeta
  paired_with k t (some i) = some (with_meta (identified height i t))
  paired_with k t none = in_place k t (get_elem? txs k)

  -- One round; `none` is the zero value that `make` put into the place.
  unfoldable pub pair_one : {E : Type 0} → ℕ → Transaction → Outcome E (Option TransactionWithMeta)
  pair_one k t = do found ← find_extrinsic t.hash 0 txs; ok (paired_with k t found)

  -- The outer loop, from the index `k` on.
  unfoldable pub pair_from :
      {E : Type 0} → ℕ → List Transaction → Outcome E (List (Option TransactionWithMeta))
  pair_from k [] = ok []
  pair_from k (t ∷ ts) = do paired ← pair_one k t; rest ← pair_from (k + 1) ts; ok (paired ∷ rest)
