-- ===== src/Examples/Whole.antt =====
-- A whole `blockAndTx` of `indexer/getBlock.go`, with nothing in the cache and the replies out of order.
use polkadot_worker.Base.{◌==◌, ℕ, ◌≡◌, refl, List, [], ◌∷◌, map, none, Bytes, codes, arith, ok}
use polkadot_worker.Base.Maps.{find}
use polkadot_worker.Api.Session.{Response}
use polkadot_worker.Scale.Storage.{DecodeStorage, made, get_mdecoder, get_extrinsic}
use polkadot_worker.Proxy.Conns.{inc}
use polkadot_worker.Indexer.Hashes.Chain.{
  Sound, Answers, missing, hash_reply, of_block, of_parent, of_grandparent,
}
use polkadot_worker.Indexer.Latest.{get_metadata, get_transactions_for_height}
use polkadot_worker.Indexer.Others.Filling.{Results}
use polkadot_worker.Indexer.Others.Filling
use polkadot_worker.Indexer.Block.{Shared, block_and_tx}
use polkadot_worker.Indexer.Block.Fetching.{replying, block_and_tx_fetched}
use polkadot_worker.Examples.Hashing.{full_cache, chain, three_ids}
use polkadot_worker.Examples.Mapping.{int_floats}
use polkadot_worker.Examples.Proxying.{two_conns, two_conns-Valid, two_conns_next}
use polkadot_worker.Examples.Gathering.{seven_parts, seven_parts-Occurs}
use polkadot_worker.Examples.Blocks.{libraries, settings, whole_node, fetched, mapped_eight}

abbrev quoted_p : Results libraries.unmarshal_block libraries.unmarshal_version
quoted_p = record {
  result = λ p. codes "\"P\"";
  inside = λ p. codes "P";
  cut = λ p. refl;
  block_part = tt;
  block_read = refl;
  version = record { spec_name = codes "polkadot"; spec_version = 7 };
  version_read = refl;
}

abbrev hashes_of_eight : List Response
hashes_of_eight =
    hash_reply 6 [] (chain 6) ∷ hash_reply 1 [] (chain 8) ∷ hash_reply 5 [] (chain 7) ∷ []

hashes_of_eight-Answers :
    Answers full_cache chain 8 (missing full_cache chain 8 none none) hashes_of_eight
hashes_of_eight-Answers = record {
  truthful = (of_grandparent [], (of_block [], (of_parent [], tt)));
  as_many = refl;
  same_ids = λ id. three_ids (id == 5) (id == 1) (id == 6);
}

abbrev storage : DecodeStorage Bytes
storage = record {
  spec_name = codes "polkadot";
  decoders = (7, made 7 (codes "m") (codes "m")) ∷ [];
}

abbrev nothing_cached : Shared full_cache Bytes
nothing_cached = record { cache = []; storage = storage; conns = two_conns }

metadata_there :
    get_metadata libraries.process_metadata none (codes "polkadot") 7 storage []
    ≡ (ok (made 7 (codes "m") (codes "m")), storage)
unfolding get_metadata get_mdecoder find
metadata_there = refl

one_extrinsic :
    get_transactions_for_height libraries.process_extrinsic (codes "m") 7 (codes "1" ∷ [])
    ≡ ok (record { extrinsic_hash = codes "1"; call_module_name = codes "Timestamp" } ∷ [])
unfolding get_transactions_for_height get_extrinsic
one_extrinsic = refl

block_and_tx_fetched_example :
    (c' : List (ℕ × Bytes)) × Sound full_cache chain 8 c'
    × (block_and_tx full_cache int_floats libraries settings
          (replying whole_node hashes_of_eight (
            map
              (Filling.reply libraries.unmarshal_block libraries.unmarshal_version quoted_p)
              seven_parts))
          nothing_cached
          8
        ≡ ok (fetched, record nothing_cached { cache = c'; conns = inc two_conns }))
block_and_tx_fetched_example =
    block_and_tx_fetched full_cache int_floats libraries settings whole_node chain 8 quoted_p
      seven_parts hashes_of_eight nothing_cached storage (made 7 (codes "m") (codes "m"))
      (omega arith) (λ k v h. cc) hashes_of_eight-Answers refl seven_parts-Occurs metadata_there
      one_extrinsic two_conns-Valid two_conns_next (λ ac. refl) mapped_eight
