-- ===== src/Indexer/Block/Shape.antt =====
-- How the block and the transactions of `blockAndTx` fit together.
use polkadot_worker.Base.{
  get_elem?, Distinct, after_ok, after_ok_eq, ok_inj, wrap-eq-ok, ℕ, ◌≤◌, ◌≡◌, refl, ap, subst,
  List, [], ◌∷◌, Option, none, some, Bytes, length, All, ok, >>=-eq-ok, wrap, arith,
}
use polkadot_worker.Mapper.Amount.{Floats}
use polkadot_worker.Mapper.Proto.{RawBlock, Extrinsic}
use polkadot_worker.Mapper.Transaction.{to_uint64, transactions_mapper, block_mapper}
use polkadot_worker.Mapper.Transaction.Listing.{transactions_mapper_once}
use polkadot_worker.Scale.Storage.{ScaleExtrinsic, MDecoder}
use polkadot_worker.Proxy.Client.{DecodeRequest, decode, reply, calling_decode, decode_data}
use polkadot_worker.Proxy.Client.Calls.{call_ok}
use polkadot_worker.Proxy.Conns.{ServiceClient, GrpConnections, decode_service, clients}
use polkadot_worker.Indexer.Others.{Gathered, get_others}
use polkadot_worker.Indexer.Latest.{get_metadata, get_transactions_for_height}
use polkadot_worker.Indexer.Hashes.{Lru, get_block_hashes}
use polkadot_worker.Indexer.Pairing.{TransactionWithMeta}
use polkadot_worker.Indexer.Block.Belonging.{
  present_hashes, pair_from-Distinct, Belongs, MadeFrom-StandsIn, pair_from-Belongs,
}
use polkadot_worker.Indexer.Block.{
  Libraries, DecodeResponse, Settings, Node, FetchError, mapping_transactions, Shared, Fetched,
  block_data, other_data, getting_metadata, transactions_for_height, decoding_data, height_asked,
  version_of, extrinsics_of, decode_request, paired, mapped, with_decoder, with_gathered,
  block_and_tx,
}

-- The transactions of a result, over those of the proxy's block.
abbrev Listed :
    Bytes → Bytes → RawBlock → List Extrinsic → List (Option TransactionWithMeta) → Type 0
Listed network chain_id b ts ps =
    All (Belongs network chain_id b) ps × (length ps ≤ length ts) × Distinct (present_hashes ps)

-- What the block of a result has of the proxy's answer with the block `b`, and its transactions.
pub record Shaped (set : Settings) (resp : DecodeResponse) (b : RawBlock) (f : Fetched)
    : Type 0 where
  pub sent : resp.raw_block ≡ some b
  pub network : f.block_part.network ≡ set.network
  pub chain_id : f.block_part.chain_id ≡ set.chain_id
  pub epoch : f.block_part.block_part.epoch ≡ resp.epoch
  pub hash : f.block_part.block_part.hash ≡ b.block_hash
  pub height : f.block_part.block_part.height ≡ to_uint64 b.height
  pub number : f.block_part.block_part.number_of_transactions ≡ length b.extrinsics
  pub bounded : length f.transactions ≤ f.block_part.block_part.number_of_transactions
  pub distinct : Distinct (present_hashes f.transactions)
  pub belong : All (Belongs set.network set.chain_id b) f.transactions

module _ {B D E F : Type 0} (lru : Lru) (fl : Floats) (lib : Libraries B D E F)
    (set : Settings) where
  paired-Listed :
      (b : RawBlock) (height : ℕ) (xs : List ScaleExtrinsic) (ts : List Extrinsic)
      (ps : List (Option TransactionWithMeta))
      → b.extrinsics ≡ ts
      → paired lru fl lib set b height xs ts ≡ ok ps
      → Listed set.network set.chain_id b ts ps
  paired-Listed b height xs [] ps q h =
      subst (Listed set.network set.chain_id b []) (ok_inj h) (tt, omega arith, tt)
  paired-Listed b height xs (t ∷ ts) ps q h =
      let (trs, e, k) =
        >>=-eq-ok
          (wrap {F = FetchError E F} mapping_transactions
            (transactions_mapper fl set.exp set.chain_id set.currency (some b)))
          _ h in
      let (m, d, _) =
        transactions_mapper_once fl set.exp set.chain_id set.currency b trs
          (wrap-eq-ok mapping_transactions _ e) in
      let (a, l) =
        MadeFrom-StandsIn fl set.network set.chain_id set.currency set.exp b b.extrinsics trs m in
      let (c, n) =
        pair_from-Belongs fl set.network set.chain_id set.currency set.exp b height xs
          {E = FetchError E F} 0 trs ps a k in
      let u =
        pair_from-Distinct fl set.network set.chain_id set.currency set.exp b height xs
          {E = FetchError E F} 0 trs ps d k in
      (c, omega (arith, l, n, ap length q), u)

  mapped-Shaped :
      (o : Option RawBlock) (epoch : Bytes) (xs : List ScaleExtrinsic) (f : Fetched)
      → mapped lru fl lib set (record { raw_block = o; epoch = epoch }) xs ≡ ok f
      → (b : RawBlock) × Shaped set (record { raw_block = o; epoch = epoch }) b f
  unfolding mapped block_mapper
  mapped-Shaped none epoch xs f h = cc
  mapped-Shaped (some b) epoch xs f h =
      let (ps, e, k) =
        >>=-eq-ok (paired lru fl lib set b (to_uint64 b.height) xs b.extrinsics) _ h in
      let (a, l, u) = paired-Listed b (to_uint64 b.height) xs b.extrinsics ps refl e in
      (
        b,
        subst (Shaped set (record { raw_block = some b; epoch = epoch }) b) (ok_inj k) (record {
          sent = refl;
          epoch = refl;
          network = refl;
          chain_id = refl;
          hash = refl;
          height = refl;
          number = refl;
          bounded = l;
          distinct = u;
          belong = a;
        }),
      )

  -- A result comes from an answer that the decoding service on the connection in turn gave to a
  -- request to decode.
  abbrev pub FromProxy : GrpConnections → Fetched → Type 0
  FromProxy c f =
      (ac : ServiceClient) × (q : DecodeRequest) × (resp : DecodeResponse) × (b : RawBlock)
      × (get_elem? (clients decode_service c) c.next ≡ some ac)
      × (lib.serve ac (decode q) ≡ reply resp)
      × Shaped set resp b f

  with_decoder-Shaped :
      (g : Gathered lib.unmarshal_block lib.unmarshal_version) (block_hash : Bytes) (height : ℕ)
      (m : MDecoder D) (s : Shared lru D) (p : Fetched × Shared lru D)
      → with_decoder lru fl lib set g block_hash height m s ≡ ok p
      → FromProxy s.conns p.0
  unfolding with_decoder decode_data
  with_decoder-Shaped g block_hash height m s p h =
      after_ok
        (wrap transactions_for_height (
          get_transactions_for_height lib.process_extrinsic m.decoder
            (version_of g.version).spec_version (extrinsics_of lib.raw_extrinsics g.block_part)))
        _
        (λ xs h1.
          after_ok_eq
            (wrap decoding_data
              (decode_data lib.serve (decode_request g.ddr block_hash m.bytes) height s.conns).0)
            _
            (λ r d h2.
              after_ok_eq (mapped lru fl lib set r xs) _
                (λ q e h3.
                  let (b, shape) = mapped-Shaped r.raw_block r.epoch xs q e in
                  let (ac, turn, served) =
                    call_ok lib.serve decode_service _ calling_decode s.conns
                      (wrap-eq-ok decoding_data _ d) in
                  (
                    ac,
                    _,
                    r,
                    b,
                    turn,
                    served,
                    subst (Shaped set r b) (ap (λ x. x.0) (ok_inj h3)) shape,
                  ))
                h2)
            h1)
        h

  with_gathered-Shaped :
      (node : Node) (g : Gathered lib.unmarshal_block lib.unmarshal_version) (block_hash : Bytes)
      (height : ℕ) (s : Shared lru D) (p : Fetched × Shared lru D)
      → with_gathered lru fl lib set node g block_hash height s ≡ ok p
      → FromProxy s.conns p.0
  unfolding with_gathered
  with_gathered-Shaped node g block_hash height s p h =
      let v = version_of g.version in
      let kept =
        get_metadata lib.process_metadata node.send_metadata v.spec_name v.spec_version s.storage
          node.metadata_replies in
      after_ok (wrap getting_metadata kept.0) _
        (λ m h1. with_decoder-Shaped g block_hash height m (record s { storage = kept.1 }) p h1) h

  -- When the call returns, the decoding service on the connection in turn has answered a request
  -- to decode with a block. The block of the result is that one: it has its hash, its height as 64
  -- bits, the number of its extrinsics, the answer's epoch and the client's settings; the
  -- transactions are not more than that number. Of those that are not the zero value no two have
  -- the same hash, and each has the hash and the height of the block and the client's settings.
  pub block_and_tx-Shaped :
      (node : Node) (s : Shared lru D) (height : ℕ) (p : Fetched × Shared lru D)
      → block_and_tx lru fl lib set node s height ≡ ok p
      → FromProxy s.conns p.0
  unfolding block_and_tx
  block_and_tx-Shaped node s height p h =
      after_ok (height_asked lru fl lib set node height s.cache) _
        (λ a h1.
          after_ok
            (wrap block_data (get_block_hashes lru node.send_hashes a.0 a.1 node.hashes_replies)) _
            (λ hs h2.
              after_ok
                (wrap other_data (
                  get_others lib.unmarshal_block lib.unmarshal_version node.send_others hs.0.0
                    hs.0.1 hs.0.2 node.others_replies))
                _ (λ g h3. with_gathered-Shaped node g hs.0.0 a.0 (record s { cache = hs.1 }) p h3)
                h2)
            h1)
        h
