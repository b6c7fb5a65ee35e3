-- ===== src/Programs/Live/Starting.antt =====
-- What `cmd/polkadot-live/main.go` is when its server starts.
use polkadot_worker.Base.{◌≡◌, refl, subst, none, Bytes, ok, wrap, >>=-eq-ok, ok_inj}
use polkadot_worker.Indexer.Hashes.{Lru}
use polkadot_worker.Scale.Storage.{DecodeStorage}
use polkadot_worker.Indexer.Client.{new_client}
use polkadot_worker.Programs.Configuration.{get_live_config}
use polkadot_worker.Programs.Start.{no_config, listeners, spec_name, start_storage}
use polkadot_worker.Programs.Start.Started.{Decodes, start_storage-Decodes, New, new_client-New}
use polkadot_worker.Programs.Live.{
  LiveOutside, LiveProgram, start_live, start_live_logs, no_settings,
}

module _ {E D P S V : Type 0} (lru : Lru) (out : LiveOutside E lru) where
  -- The parts of the program are set up from its configuration; its client has no proxy.
  pub record LiveReady (p : LiveProgram lru D P S V) : Type 0 where
    pub ds : DecodeStorage D
    pub decodes : Decodes (spec_name p.config.chain_id) ds
    pub client_new : New lru none ds no_settings p.client
    pub listening : p.listeners ≡ listeners 30 p.config.polkadot_node_addrs

  -- When the program has started its storage decodes for the network of its chain, and its client
  -- has no proxy, no settings and a new pool.
  pub start_live-LiveReady :
      (path : Bytes) {p : LiveProgram lru D P S V} → start_live lru out path ≡ ok p → LiveReady p
  unfolding start_live
  start_live-LiveReady path h =
      let (cfg0, e0, h0) = >>=-eq-ok (wrap no_config (get_live_config out.config path)) _ h in
      let (s, e1, h1) = >>=-eq-ok (start_live_logs lru out _) _ h0 in
      let (ds, e2, h2) = >>=-eq-ok (start_storage out.shared _) _ h1 in
      let (client, e3, h3) =
        >>=-eq-ok (new_client lru out.new_lru none ds none no_settings 0) _ h2 in
      subst (λ p. LiveReady p) (ok_inj h3)
        (record {
          ds = ds;
          decodes = start_storage-Decodes out.shared _ e2;
          client_new = new_client-New lru out.new_lru none ds none no_settings 0 e3;
          listening = refl;
        })
