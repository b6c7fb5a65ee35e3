-- ===== src/Examples/Blocks.antt =====
-- A run of `blockAndTx` of `indexer/getBlock.go`, through all of its components.
use polkadot_worker.Base.{
  ◌≢◌, sym, ◌∙◌, block, Outcome, arith, ℕ, ◌≡◌, refl, [], ◌∷◌, none, some, Bytes, codes, ok, wrap,
  ◌>>=◌,
}
use polkadot_worker.Base.Int.{pos}
use polkadot_worker.Base.Maps.{find}
use polkadot_worker.Api.Session.{Response}
use polkadot_worker.Scale.Storage.{decoded, made, get_mdecoder, get_extrinsic}
use polkadot_worker.Proxy.Conns.{GrpConnections, get_next, inc, add}
use polkadot_worker.Proxy.Client.{reply, decode_data, call}
use polkadot_worker.Mapper.Transaction.{block_mapper, to_uint64}
use polkadot_worker.Indexer.Hashes.{get_block_hashes, ask_hashes, look_up, await_hashes}
use polkadot_worker.Indexer.Others.{
  get_others, other_requests, send_all, gather, on_result, on_storage,
}
use polkadot_worker.Indexer.Latest.{get_metadata, get_transactions_for_height}
use polkadot_worker.Indexer.Pairing.{pair_from, pair_one, find_extrinsic, identified}
use polkadot_worker.Indexer.Block.{
  Libraries, Settings, Node, Shared, Fetched, height_asked, mapped, with_decoder, with_gathered,
  block_and_tx, pooled_block_and_tx,
}
use polkadot_worker.Indexer.Pool.{Pool, new, get_block_kind}
use polkadot_worker.Indexer.Pool.Ownership.{World}
use polkadot_worker.Indexer.Pool.Service.{Reach, Reach-Inv}
use polkadot_worker.Indexer.Block.Pooling.{Returned, pooled_block_and_tx-Returned}
use polkadot_worker.Indexer.Block.Shape.{FromProxy, block_and_tx-Shaped}
use polkadot_worker.Examples.Hashing.{full_cache, chain}
use polkadot_worker.Examples.Mapping.{int_floats, dot, small_block}
use polkadot_worker.Examples.Mapping
use polkadot_worker.Examples.Proxying.{two_conns}

-- The node has one extrinsic, with the hash of the first transaction; the proxy always sends one block.
abbrev pub libraries : Libraries (Unit {0}) Bytes ℕ ℕ
libraries = record {
  undefined = λ s. 0;
  header_number = λ s. none;
  unmarshal_block = λ s. some tt;
  raw_extrinsics = λ b. codes "1" ∷ [];
  unmarshal_version = λ s. some (record { spec_name = codes "polkadot"; spec_version = 7 });
  process_metadata = λ s. decoded s;
  process_extrinsic =
      λ s d v. decoded (record { extrinsic_hash = s; call_module_name = codes "Timestamp" });
  serve = λ ac q. reply (record { raw_block = some small_block; epoch = codes "1" });
}

abbrev pub settings : Settings
settings = record { network = codes "n"; chain_id = codes "d"; currency = dot; exp = pos 10 }

abbrev answer : ℕ → Bytes → Response
answer id type = record { id = id; error = none; type = type; result = codes "\"P\"" }

abbrev pub whole_node : Node
whole_node = record {
  send_latest = λ m. none;
  latest_replies = [];
  send_hashes = λ q. none;
  hashes_replies = [];
  send_others = λ q. none;
  others_replies =
      answer 2 (codes "system_chain")
      ∷ answer 7 (codes "chain_getBlock")
      ∷ answer 8 (codes "state_getStorage")
      ∷ answer 9 (codes "state_getStorage")
      ∷ answer 10 (codes "state_getStorage")
      ∷ answer 11 (codes "state_getStorage")
      ∷ answer 13 (codes "state_getRuntimeVersion")
      ∷ [];
  send_metadata = none;
  metadata_replies = [];
}

abbrev with_conns : GrpConnections → Shared full_cache Bytes
with_conns c = record {
  cache = (8, chain 8) ∷ (7, chain 7) ∷ [];
  storage = record {
    spec_name = codes "polkadot";
    decoders = (7, made 7 (codes "m") (codes "m")) ∷ [];
  };
  conns = c;
}

-- The first transaction is paired by its hash; for the second there is no extrinsic, and its place
-- keeps the zero value.
abbrev pub fetched : Fetched
fetched = record {
  block_part = record {
    network = codes "n";
    chain_id = codes "d";
    version = codes "0.0.1";
    block_part = record {
      chain_id = codes "d";
      epoch = codes "1";
      hash = codes "0xb";
      height = 8;
      number_of_transactions = 3;
      time = 12;
    };
  };
  transactions =
      some (record {
        network = codes "n";
        chain_id = codes "d";
        version = codes "0.0.1";
        transaction = identified 8 0 (Mapping.mapped (codes "0x1"));
      })
      ∷ none
      ∷ [];
}

pub mapped_eight :
    mapped full_cache int_floats libraries settings
      (record { raw_block = some small_block; epoch = codes "1" })
      (record { extrinsic_hash = codes "1"; call_module_name = codes "Timestamp" } ∷ [])
    ≡ ok fetched
unfolding mapped block_mapper pair_from pair_one find_extrinsic to_uint64
mapped_eight = rw (Mapping.small_block_maps, wrap, ◌>>=◌) refl

block_eight :
    block_and_tx full_cache int_floats libraries settings whole_node (with_conns two_conns) 8
    ≡ ok (fetched, with_conns (inc two_conns))
unfolding block_and_tx height_asked get_block_hashes ask_hashes look_up await_hashes get_others
    send_all other_requests gather on_result on_storage with_gathered get_metadata get_mdecoder find
    with_decoder get_transactions_for_height get_extrinsic decode_data call get_next add
block_eight = rw mapped_eight refl

block_and_tx-Shaped_example : FromProxy full_cache int_floats libraries settings two_conns fetched
block_and_tx-Shaped_example =
    block_and_tx-Shaped full_cache int_floats libraries settings whole_node (with_conns two_conns) 8
      (fetched, with_conns (inc two_conns)) block_eight

-- A pool of three channels that is empty at the beginning.
abbrev idle : World Response
idle = record { pool = new [] 3; held = [] }

ended_not_block : {E A : Type 0} {a : A} → ◌≡◌ {A = Outcome E A} (ok a) block → ⊥
ended_not_block e = cc

eight_ends :
    block_and_tx full_cache int_floats libraries settings whole_node (with_conns two_conns) 8
    ≢ block
eight_ends e = ended_not_block (sym block_eight ∙ e)

pooled_block_and_tx-Returned_example :
    (q : Pool Response) × (pooled_block_and_tx full_cache int_floats libraries settings idle.pool
        whole_node
        (with_conns two_conns)
        8
      ≡ ok (
        block_and_tx full_cache int_floats libraries settings whole_node (with_conns two_conns) 8,
        q,
      ))
    × Returned idle q
pooled_block_and_tx-Returned_example =
    pooled_block_and_tx-Returned full_cache int_floats libraries settings idle whole_node
      (with_conns two_conns) 8 (Reach-Inv {k = get_block_kind} Reach.start) (omega arith) eight_ends
