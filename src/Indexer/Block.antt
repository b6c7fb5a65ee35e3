-- ===== src/Indexer/Block.antt =====
-- `indexer/getBlock.go`: `blockAndTx`. The components that it calls are
-- those of the other modules; logs and the clock are left out.
pub mod Belonging
pub mod Shape
pub mod Pooling
pub mod Fetching
use polkadot_worker.Base.{
  ℕ, ◌≡◌, Bool, List, [], ◌∷◌, ◌++◌, Option, none, some, Bytes, codes, ◌==◌, if◌then◌else◌, Outcome,
  ok, err, panic, block, ◌>>=◌, wrap, length,
}
use polkadot_worker.Base.Int.{ℤ}
use polkadot_worker.Api.Session.{ConnError, Response}
use polkadot_worker.Scale.Storage.{Decoded, ScaleError, MDecoder, DecodeStorage, ScaleExtrinsic}
use polkadot_worker.Proxy.Conns.{ServiceClient, GrpConnections}
use polkadot_worker.Proxy.Client.{DecodeDataRequest, Request, ClientError, Answer, decode_data}
use polkadot_worker.Mapper.Amount.{MapperError, Floats}
use polkadot_worker.Mapper.Proto.{RawBlock, Extrinsic}
use polkadot_worker.Mapper.Transaction
use polkadot_worker.Mapper.Transaction.{block_mapper, transactions_mapper}
use polkadot_worker.Indexer.Pool.{Pool, get_block_kind, get, put}
use polkadot_worker.Indexer.Hashes.{Lru, HashRequest, HashesError, get_block_hashes}
use polkadot_worker.Indexer.Others.{OtherRequest, OthersError, Gathered, get_others}
use polkadot_worker.Indexer.Latest.{
  LatestError, MetadataError, get_latest_height, get_metadata, get_transactions_for_height,
}
use polkadot_worker.Indexer.Pairing.{TransactionWithMeta, pair_from}

-- The fields of `scale.PolkaRuntimeVersion` that the indexer reads.
pub record RuntimeVersion : Type 0 where
  pub spec_name : Bytes
  pub spec_version : ℕ

-- `decodepb.DecodeResponse`; `none` is a nil block.
pub record DecodeResponse : Type 0 where
  pub raw_block : Option RawBlock
  pub epoch : Bytes

pub record BlockWithMeta : Type 0 where
  pub network : Bytes
  pub chain_id : Bytes
  pub version : Bytes
  pub block_part : Transaction.Block

-- What the libraries do with their texts: `encoding/json`, `math/big` after a failed `SetString`, the
-- SCALE decoder, and the services behind gRPC.
pub record Libraries (B D E F : Type 0) : Type 0 where
  pub undefined : Bytes → ℕ
  pub header_number : Bytes → Option Bytes
  pub unmarshal_block : Bytes → Option B
  pub raw_extrinsics : B → List Bytes
  pub unmarshal_version : Bytes → Option RuntimeVersion
  pub process_metadata : Bytes → Decoded E D
  pub process_extrinsic : Bytes → D → ℕ → Decoded E ScaleExtrinsic
  pub serve : ServiceClient → Request → Answer F DecodeResponse

pub record Settings : Type 0 where
  pub network : Bytes
  pub chain_id : Bytes
  pub currency : Bytes
  pub exp : ℤ

-- The node, for one call: what `Send` returns for the requests of each function, and what arrives on
-- the channel from the beginning of the function on.
pub record Node : Type 0 where
  pub send_latest : Bytes → Option ConnError
  pub latest_replies : List Response
  pub send_hashes : HashRequest → Option ConnError
  pub hashes_replies : List Response
  pub send_others : OtherRequest → Option ConnError
  pub others_replies : List Response
  pub send_metadata : Option ConnError
  pub metadata_replies : List Response

pub data FetchError (E F : Type 0) : Type 0 where
  latest_height : LatestError → FetchError E F
  block_data : HashesError → FetchError E F
  other_data : OthersError → FetchError E F
  getting_metadata : MetadataError E → FetchError E F
  transactions_for_height : ScaleError E → FetchError E F
  decoding_data : ClientError F → FetchError E F
  mapping_block : MapperError → FetchError E F
  mapping_transactions : MapperError → FetchError E F

abbrev pub version_of : Option RuntimeVersion → RuntimeVersion
version_of none = record { spec_name = []; spec_version = 0 }
version_of (some v) = v

abbrev pub extrinsics_of : {B : Type 0} → (B → List Bytes) → Option B → List Bytes
extrinsics_of f none = []
extrinsics_of f (some b) = f b

-- What the calls of one client share.
pub record Shared (lru : Lru) (D : Type 0) : Type 0 where
  pub cache : lru.Cache
  pub storage : DecodeStorage D
  pub conns : GrpConnections

-- What `blockAndTx` returns; `none` among the transactions is the zero value.
pub record Fetched : Type 0 where
  pub block_part : BlockWithMeta
  pub transactions : List (Option TransactionWithMeta)

-- What is sent to the proxy: the gathered data, the block's hash, and a copy of the metadata.
abbrev pub decode_request : DecodeDataRequest → Bytes → Bytes → DecodeDataRequest
decode_request ddr block_hash metadata = record ddr {
  block_hash = block_hash;
  metadata_parent = metadata;
}

module _ {B D E F : Type 0} (lru : Lru) (fl : Floats) (lib : Libraries B D E F)
    (set : Settings) where
  unfoldable pub height_asked : Node → ℕ → lru.Cache → Outcome (FetchError E F) (ℕ × lru.Cache)
  height_asked node height c =
      let latest =
        get_latest_height lru lib.undefined lib.header_number node.send_latest c
          node.latest_replies in
      if height == 0 then wrap latest_height latest else ok (height, c)

  abbrev pub block_with_meta : Transaction.Block → BlockWithMeta
  block_with_meta b = record {
    network = set.network;
    chain_id = set.chain_id;
    version = codes "0.0.1";
    block_part = b;
  }

  -- The mapping and the pairing, which a block with no extrinsics returns before.
  abbrev pub paired :
      RawBlock
      → ℕ
      → List ScaleExtrinsic
      → List Extrinsic
      → Outcome (FetchError E F) (List (Option TransactionWithMeta))
  paired raw height txs [] = ok []
  paired raw height txs (_ ∷ _) = do
    trs ←
        wrap mapping_transactions
          (transactions_mapper fl set.exp set.chain_id set.currency (some raw))
    pair_from set.network set.chain_id height txs 0 trs

  abbrev pub paired_if :
      Option RawBlock
      → ℕ
      → List ScaleExtrinsic
      → Outcome (FetchError E F) (List (Option TransactionWithMeta))
  paired_if none height txs = panic
  paired_if (some raw) height txs = paired raw height txs raw.extrinsics

  -- From the answer of the proxy on. `paired_if` finds a block, since `block_mapper` has.
  unfoldable pub mapped : DecodeResponse → List ScaleExtrinsic → Outcome (FetchError E F) Fetched
  mapped resp txs = do
    b ← wrap mapping_block (block_mapper resp.raw_block set.chain_id resp.epoch)
    transactions ← paired_if resp.raw_block b.height txs
    ok (record { block_part = block_with_meta b; transactions = transactions })

  -- From the metadata on, with the cache and the storage as the call leaves them.
  unfoldable pub with_decoder :
      Gathered lib.unmarshal_block lib.unmarshal_version
      → Bytes
      → ℕ
      → MDecoder D
      → Shared lru D
      → Outcome (FetchError E F) (Fetched × Shared lru D)
  with_decoder g block_hash height meta s = do
    txs ← wrap transactions_for_height (
        get_transactions_for_height lib.process_extrinsic meta.decoder
          (version_of g.version).spec_version (extrinsics_of lib.raw_extrinsics g.block_part))
    let (reply, conns) =
        decode_data lib.serve (decode_request g.ddr block_hash meta.bytes) height s.conns
    resp ← wrap decoding_data reply
    fetched ← mapped resp txs
    ok (fetched, record s { conns = conns })

  -- From the gathered data on.
  unfoldable pub with_gathered :
      Node
      → Gathered lib.unmarshal_block lib.unmarshal_version
      → Bytes
      → ℕ
      → Shared lru D
      → Outcome (FetchError E F) (Fetched × Shared lru D)
  with_gathered node g block_hash height s = do
    let v = version_of g.version
    let (found, storage) =
        get_metadata lib.process_metadata node.send_metadata v.spec_name v.spec_version s.storage
          node.metadata_replies
    meta ← wrap getting_metadata found
    with_decoder g block_hash height meta (record s { storage = storage })

  unfoldable pub block_and_tx :
      Node → Shared lru D → ℕ → Outcome (FetchError E F) (Fetched × Shared lru D)
  block_and_tx node s height = do
    (h, c1) ← height_asked node height s.cache
    ((block_hash, parent_hash, grandparent_hash), c2) ←
        wrap block_data (get_block_hashes lru node.send_hashes h c1 node.hashes_replies)
    g ← wrap other_data (
        get_others lib.unmarshal_block lib.unmarshal_version node.send_others block_hash parent_hash
          grandparent_hash node.others_replies)
    with_gathered node g block_hash h (record s { cache = c2 })

-- `gbPool.Get` and the deferred `gbPool.Put` around a call, which a panic leaves by as well.
unfoldable pub with_channel :
    {E A : Type 0} → Pool Response → Outcome E A → Outcome (Unit {0}) (Outcome E A × Pool Response)
with_channel p block = do (ch, p1) ← get get_block_kind p; block
with_channel p r = do (ch, p1) ← get get_block_kind p; p2 ← put ch p1; ok (r, p2)

-- `blockAndTx` with the pool that its channel is from.
abbrev pub pooled_block_and_tx :
    {B D E F : Type 0} (lru : Lru) (fl : Floats) (lib : Libraries B D E F) (set : Settings)
    → Pool Response
    → Node
    → Shared lru D
    → ℕ
    → Outcome (Unit {0}) (Outcome (FetchError E F) (Fetched × Shared lru D) × Pool Response)
pooled_block_and_tx lru fl lib set p node s height =
    with_channel p (block_and_tx lru fl lib set node s height)
