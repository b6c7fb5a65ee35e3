-- ===== src/Examples/Fetching.antt =====
-- Runs of the fetching of a block in `indexer/getBlock.go` and `indexer/client.go`.
use polkadot_worker.Base.{
  ℕ, ◌≡◌, refl, List, [], ◌∷◌, ◌++◌, Option, none, some, Bytes, codes, length, arith, Outcome, ok,
  err,
}
use polkadot_worker.Base.Maps.{find, insert, delete}
use polkadot_worker.Api.Session.{Response, request_timedout}
use polkadot_worker.Scale.Storage.{
  Decoded, decoded, made, DecodeStorage, ScaleExtrinsic, get_mdecoder, set_metadata_decoder,
}
use polkadot_worker.Mapper.Transaction.{Transaction}
use polkadot_worker.Indexer.Hashes.Chain.{quoted}
use polkadot_worker.Indexer.Latest.{get_latest_height, get_metadata}
use polkadot_worker.Indexer.Latest.Header.{format_hex, latest_height_read}
use polkadot_worker.Indexer.Latest.Fetching.{get_metadata_once}
use polkadot_worker.Indexer.Pairing.{TransactionWithMeta, pair_from}
use polkadot_worker.Indexer.Pairing.Laws.{PairedFrom, pair_from-Paired}
use polkadot_worker.Indexer.Block.{BlockWithMeta, Fetched}
use polkadot_worker.Indexer.Storing.{
  StoreCall, store_block, store_transactions, storing_transactions, store_fetched,
}
use polkadot_worker.Indexer.Storing.Laws.{calls_for, Complete, store_fetched-Complete}
use polkadot_worker.Examples.Hashing.{full_cache}
use polkadot_worker.Examples.Mapping.{mapped}

-- Headers whose result is the number itself.
latest_height_read_example :
    get_latest_height full_cache
      (λ s. 0)
      some
      (λ m. none)
      []
      (record { id = 1; error = none; type = []; result = quoted (codes "0xaa") }
        ∷ record { id = 2; error = none; type = []; result = codes "0x" ++ format_hex 300 }
        ∷ [])
    ≡ ok (300, (300, codes "0xaa") ∷ [])
latest_height_read_example =
    latest_height_read full_cache (λ s. 0) some [] 300 1 2 (codes "0xaa")
      (codes "0x" ++ format_hex 300) [] [] [] (omega arith) refl

abbrev keeps : Bytes → Decoded ℕ Bytes
keeps s = decoded s

abbrev fresh_storage : DecodeStorage Bytes
fresh_storage = record { spec_name = codes "polkadot"; decoders = [] }

abbrev filled_storage : DecodeStorage Bytes
filled_storage = record {
  spec_name = codes "polkadot";
  decoders = (7, made 7 (codes "m") (codes "m")) ∷ [];
}

abbrev metadata_reply : Response
metadata_reply = record {
  id = 12;
  error = none;
  type = codes "state_getMetadata";
  result = quoted (codes "m");
}

asked_once :
    get_metadata keeps none (codes "polkadot") 7 fresh_storage (metadata_reply ∷ [])
    ≡ (ok (made 7 (codes "m") (codes "m")), filled_storage)
unfolding get_metadata get_mdecoder set_metadata_decoder find insert delete
asked_once = refl

get_metadata_once_example :
    get_metadata keeps (some request_timedout) (codes "polkadot") 7 filled_storage []
    ≡ (ok (made 7 (codes "m") (codes "m")), filled_storage)
get_metadata_once_example =
    get_metadata_once keeps (codes "polkadot") 7 none (some request_timedout) fresh_storage
      filled_storage (metadata_reply ∷ []) [] (made 7 (codes "m") (codes "m")) asked_once

abbrev extrinsic : Bytes → Bytes → ScaleExtrinsic
extrinsic hash name = record { extrinsic_hash = hash; call_module_name = name }

-- The first has the hash of the second extrinsic, the second none but a place, the third neither.
abbrev two_extrinsics : List ScaleExtrinsic
two_extrinsics =
    extrinsic (codes "5") (codes "Staking") ∷ extrinsic (codes "1") (codes "Timestamp") ∷ []

abbrev three_mapped : List Transaction
three_mapped = mapped (codes "0x1") ∷ mapped (codes "0x2") ∷ mapped (codes "0x3") ∷ []

pair_from-Paired_example :
    (ps : List (Option TransactionWithMeta)) × (◌≡◌
      {A = Outcome ℕ (List (Option TransactionWithMeta))}
      (pair_from (codes "n") (codes "d") 8 two_extrinsics 0 three_mapped)
      (ok ps))
    × (length ps ≡ 3)
    × PairedFrom (codes "n") (codes "d") 8 two_extrinsics 0 three_mapped ps
pair_from-Paired_example =
    pair_from-Paired (codes "n") (codes "d") 8 two_extrinsics {E = ℕ} 0 three_mapped
      (omega arith, (omega arith, (omega arith, tt)))

abbrev block_eight : BlockWithMeta
block_eight = record {
  network = codes "n";
  chain_id = codes "d";
  version = codes "0.0.1";
  block_part = record {
    chain_id = codes "d";
    epoch = codes "1";
    hash = codes "0xb";
    height = 8;
    number_of_transactions = 1;
    time = 12;
  };
}

abbrev fetched_eight : Fetched
fetched_eight = record { block_part = block_eight; transactions = none ∷ [] }

-- A store that refuses transactions.
abbrev blocks_only : StoreCall → Option ℕ
blocks_only (store_block b) = none
blocks_only (store_transactions ts) = some 3

blocks_only_stored :
    store_fetched {E = ℕ} {S = ℕ} blocks_only none (ok (fetched_eight, 0))
    ≡ (err (storing_transactions 3), store_block block_eight ∷ store_transactions (none ∷ []) ∷ [])
unfolding store_fetched
blocks_only_stored = refl

store_fetched-Complete_example :
    Complete {E = ℕ} {S = ℕ} blocks_only fetched_eight 0
      (calls_for fetched_eight)
      (store_fetched blocks_only none (ok (fetched_eight, 0)))
store_fetched-Complete_example = store_fetched-Complete {E = ℕ} {S = ℕ} blocks_only fetched_eight 0
