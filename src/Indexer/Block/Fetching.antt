-- ===== src/Indexer/Block/Fetching.antt =====
-- When `blockAndTx` of `indexer/getBlock.go` returns a block.
use polkadot_worker.Base.{
  ℕ, ◌≡◌, ◌≤◌, ◌<◌, ◌-◌, refl, ◌∙◌, false, List, map, none, Bytes, length, ◌==◌, arith, ok, ◌>>=◌,
}
use polkadot_worker.Api.Session.{Response}
use polkadot_worker.Scale.Storage.{MDecoder, DecodeStorage, ScaleExtrinsic}
use polkadot_worker.Proxy.Conns.{ServiceClient, GrpConnections, decode_service, inc}
use polkadot_worker.Proxy.Conns.RoundRobin.{Valid, client_of}
use polkadot_worker.Proxy.Client.{
  DecodeDataRequest, Request, Answer, reply, calling_decode, decode, decode_data,
}
use polkadot_worker.Proxy.Client.Calls.{call_lem}
use polkadot_worker.Mapper.Amount.{Floats}
use polkadot_worker.Indexer.Hashes.{Lru}
use polkadot_worker.Indexer.Latest.{get_metadata, get_transactions_for_height}
use polkadot_worker.Indexer.Hashes.Chain.{Sound, Answers, missing, third_hash, hashes_of_chain}
use polkadot_worker.Indexer.Others.Filling
use polkadot_worker.Indexer.Others.Filling.{
  Part, Results, Occurs, Sendable, complete, none_fails, gathered, get_others_complete,
}
use polkadot_worker.Indexer.Others.{Gathered}
use polkadot_worker.Indexer.Block.{
  Libraries, Settings, Node, Shared, Fetched, DecodeResponse, mapped, decode_request, with_decoder,
  with_gathered, extrinsics_of, version_of, block_and_tx, height_asked,
}

-- What goes over the wire for a request of data.
abbrev pub wired : DecodeDataRequest → Request
wired ddr = decode (record {
  metadata_parent = ddr.metadata_parent;
  block = ddr.block;
  block_hash = ddr.block_hash;
  events = ddr.events;
  timestamp = ddr.timestamp;
  runtime_parent = ddr.runtime_parent;
  current_era_parent = ddr.current_era;
  next_fee_multiplier_parent = ddr.next_fee_multipier;
  chain = ddr.chain;
})

decode_data_served :
    {E R : Type 0} (serve : ServiceClient → Request → Answer E R) (ddr : DecodeDataRequest)
    (height : ℕ) (c : GrpConnections) {r : R}
    → Valid c
    → c.next < c.len
    → ((ac : ServiceClient) → serve ac (wired ddr) ≡ reply r)
    → decode_data serve ddr height c ≡ (ok r, inc c)
unfolding decode_data
decode_data_served serve ddr height c v h f =
    let (n, a, e) = call_lem serve decode_service (wired ddr) calling_decode c v h in
    e ∙ rw (f (client_of decode_service n)) refl

-- All requests for hashes and for the block's data are sent, and these replies come.
abbrev pub replying : Node → List Response → List Response → Node
replying node hashes others = record node {
  send_hashes = λ q. none;
  hashes_replies = hashes;
  send_others = λ q. none;
  others_replies = others;
}

module _ {B D E F : Type 0} (lru : Lru) (fl : Floats) (lib : Libraries B D E F)
    (set : Settings) where
  with_decoder_fetched :
      (g : Gathered lib.unmarshal_block lib.unmarshal_version) (block_hash : Bytes) (height : ℕ)
      (m : MDecoder D) (s : Shared lru D) {txs : List ScaleExtrinsic} {resp : DecodeResponse}
      {f : Fetched}
      → get_transactions_for_height lib.process_extrinsic m.decoder
          (version_of g.version).spec_version
          (extrinsics_of lib.raw_extrinsics g.block_part)
        ≡ ok txs
      → Valid s.conns
      → s.conns.next < s.conns.len
      → ((ac : ServiceClient)
          → lib.serve ac (wired (decode_request g.ddr block_hash m.bytes)) ≡ reply resp)
      → mapped lru fl lib set resp txs ≡ ok f
      → with_decoder lru fl lib set g block_hash height m s
        ≡ ok (f, record s { conns = inc s.conns })
  unfolding with_decoder
  with_decoder_fetched g block_hash height m s e v h r k =
      rw (e, ◌>>=◌)
        (rw
          (
            decode_data_served lib.serve (decode_request g.ddr block_hash m.bytes) height s.conns v
                h r,
            ◌>>=◌,
          )
          (rw (k, ◌>>=◌) refl))

  with_gathered_fetched :
      (node : Node) (g : Gathered lib.unmarshal_block lib.unmarshal_version) (block_hash : Bytes)
      (height : ℕ) (s : Shared lru D) (ds : DecodeStorage D) (m : MDecoder D)
      {r : Fetched × Shared lru D}
      → get_metadata lib.process_metadata node.send_metadata
          (version_of g.version).spec_name
          (version_of g.version).spec_version
          s.storage
          node.metadata_replies
        ≡ (ok m, ds)
      → with_decoder lru fl lib set g block_hash height m (record s { storage = ds }) ≡ ok r
      → with_gathered lru fl lib set node g block_hash height s ≡ ok r
  unfolding with_gathered
  with_gathered_fetched node g block_hash height s ds m e h = rw e h

  -- The request with the seven results, the hash of the block and the metadata.
  abbrev pub whole_request :
      Results lib.unmarshal_block lib.unmarshal_version → Bytes → Bytes → DecodeDataRequest
  whole_request t block_hash metadata =
      record (complete lib.unmarshal_block lib.unmarshal_version t) {
        block_hash = block_hash;
        metadata_parent = metadata;
      }

  -- Above height one, with connections in step and one at hand and a cache of the chain's hashes:
  -- when the node answers the requests for hashes with those of the chain, in any order, and the
  -- seven others with good results, in any order, the metadata is there or got, the extrinsics are
  -- decoded, and the proxy answers the request with these results, the hash of the block and the
  -- metadata, and the answer is mapped, the call returns what it is mapped to. The cache then has the
  -- chain's hashes only, the storage is as the metadata left it and the round robin has moved on by
  -- one.
  pub block_and_tx_fetched :
      (node : Node) (chain : ℕ → Bytes) (height : ℕ)
      (t : Results lib.unmarshal_block lib.unmarshal_version) (ps : List Part)
      (hashes : List Response) (s : Shared lru D) (ds : DecodeStorage D) (m : MDecoder D)
      {txs : List ScaleExtrinsic} {resp : DecodeResponse} {f : Fetched}
      → 2 ≤ height
      → Sound lru chain height s.cache
      → Answers lru chain height
          (missing lru chain height (lru.look s.cache height) (lru.look s.cache (height - 1)))
          hashes
      → length ps ≡ 7
      → ((p : Part) → Occurs p ps)
      → get_metadata lib.process_metadata node.send_metadata t.version.spec_name
          t.version.spec_version s.storage node.metadata_replies
        ≡ (ok m, ds)
      → get_transactions_for_height lib.process_extrinsic m.decoder t.version.spec_version
          (lib.raw_extrinsics t.block_part)
        ≡ ok txs
      → Valid s.conns
      → s.conns.next < s.conns.len
      → ((ac : ServiceClient)
          → lib.serve ac (wired (whole_request t (chain height) m.bytes)) ≡ Answer.reply resp)
      → mapped lru fl lib set resp txs ≡ ok f
      → (c' : lru.Cache) × Sound lru chain height c'
        × (block_and_tx lru fl lib set
              (replying node hashes
                (map (Filling.reply lib.unmarshal_block lib.unmarshal_version t) ps))
              s
              height
            ≡ ok (f, record s { cache = c'; storage = ds; conns = inc s.conns }))
  unfolding block_and_tx height_asked
  block_and_tx_fetched node chain height t ps hashes s ds m l c a n o e x v h r k =
      let asked : (height == 0) ≡ false = ground (arith, l) in
      let (c', c1, e1) = hashes_of_chain lru chain height s.cache hashes l c a in
      let third = third_hash lru chain height (lru.look s.cache (height - 1)) in
      let e2 =
        get_others_complete lib.unmarshal_block lib.unmarshal_version (λ q. none) (chain height)
          (chain (height - 1)) third t ps (none_fails (chain height) (chain (height - 1)) third) n
          o in
      let s1 : Shared lru D = record s { cache = c' } in
      let g = gathered lib.unmarshal_block lib.unmarshal_version t in
      let last =
        with_gathered_fetched
          (replying node hashes
            (map (Filling.reply lib.unmarshal_block lib.unmarshal_version t) ps))
          g (chain height) height s1 ds m e
          (with_decoder_fetched g (chain height) height m (record s1 { storage = ds }) x v h r k) in
      (c', c1, rw asked (rw (e1, ◌>>=◌) (rw (e2, ◌>>=◌) last)))
