-- ===== src/Programs/Worker/Starting.antt =====
-- What a worker of `cmd/polkadot-worker/main.go` is when its servers start.
use polkadot_worker.Base.{◌≡◌, refl, List, [], some, Bytes, ok, wrap, >>=-eq-ok, ok_inj, subst}
use polkadot_worker.Stdlib.Strings.{split}
use polkadot_worker.Scale.Storage.{DecodeStorage}
use polkadot_worker.Proxy.Conns.{GrpConnections, new_grp_connections}
use polkadot_worker.Indexer.Hashes.{Lru}
use polkadot_worker.Indexer.Client.{Client}
use polkadot_worker.Programs.Configuration.{Config, get_worker_config}
use polkadot_worker.Programs.Start.{no_config, spec_name, start_storage, listeners}
use polkadot_worker.Programs.Worker.{
  WorkerOutside, ProxyClient, Worker, dial_all, start_logs, create_indexer_client, start_worker,
}
use polkadot_worker.Programs.Worker.Dialling.{Dialled, new-Dialled, dial_all-Dialled}
use polkadot_worker.Programs.Start.Started.{Decodes, start_storage-Decodes, New, new_client-New}
use polkadot_worker.Indexer.Block.{Settings}

abbrev pub settings_of : {F : Type 0} → Config F → Settings
settings_of cfg = record {
  network = cfg.network;
  chain_id = cfg.chain_id;
  currency = cfg.currency;
  exp = cfg.exp;
}

module _ {E F D V : Type 0} (lru : Lru) (out : WorkerOutside E F lru) where
  -- The parts of the worker are set up from its configuration.
  pub record Ready (w : Worker lru D F V) : Type 0 where
    pub conns : GrpConnections
    pub ds : DecodeStorage D
    pub dialled : Dialled out.dial (split b',' w.config.polkadot_proxy_addr) conns
    pub decodes : Decodes (spec_name w.config.chain_id) ds
    pub client_new :
        New lru
          (some (record { req_per_second = w.config.req_per_second; conns = conns }))
          ds
          (settings_of w.config)
          w.client
    pub listening : w.listeners ≡ listeners 60 w.config.polkadot_node_addrs

  create_indexer_client-New :
      (cfg : Config F) (conns : GrpConnections) (ds : DecodeStorage D)
      {client : Client lru D ProxyClient (List Bytes) V}
      → create_indexer_client lru out cfg conns ds ≡ ok client
      → New lru
          (some (record { req_per_second = cfg.req_per_second; conns = conns }))
          ds
          (settings_of cfg)
          client
  unfolding create_indexer_client
  create_indexer_client-New cfg conns ds h =
      new_client-New lru out.new_lru _ ds _ (settings_of cfg) _ h

  -- When a worker has started, its connections are those dialled for the addresses of the proxy,
  -- one for each in order, in step with the round robin, which is at the first; its storage decodes
  -- for the network of its chain, with no decoder yet; its pool is new and its nodes are those of
  -- the configuration.
  pub start_worker-Ready :
      (path : Bytes) {w : Worker lru D F V} → start_worker lru out path ≡ ok w → Ready w
  unfolding start_worker
  start_worker-Ready path h =
      let (cfg0, e0, h0) =
        >>=-eq-ok (wrap no_config (get_worker_config out.config out.zero path)) _ h in
      let (r, e1, h1) = >>=-eq-ok (start_logs lru out _) _ h0 in
      let (conns, e2, h2) = >>=-eq-ok (dial_all out.dial _ new_grp_connections) _ h1 in
      let (ds, e3, h3) = >>=-eq-ok (start_storage out.shared _) _ h2 in
      let (client, e4, h4) = >>=-eq-ok (create_indexer_client lru out _ conns ds) _ h3 in
      subst (λ w. Ready w) (ok_inj h4)
        (record {
          conns = conns;
          ds = ds;
          dialled = dial_all-Dialled out.dial [] _ new_grp_connections (new-Dialled out.dial) e2;
          decodes = start_storage-Decodes out.shared _ e3;
          client_new = create_indexer_client-New _ conns ds e4;
          listening = refl;
        })
