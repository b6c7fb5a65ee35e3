-- ===== src/Programs/Live.antt =====
-- `cmd/polkadot-live/main.go`: the client has no proxy and no store, and its settings are empty. Its
-- server answers the requests of `transport/http/http.go`.
pub mod Starting
use polkadot_worker.Base.{
  ℕ, ◌≡◌, List, [], ◌∷◌, Option, none, some, Bytes, Outcome, ok, ◌>>=◌, wrap,
}
use polkadot_worker.Base.Int.{ℤ, pos}
use polkadot_worker.Indexer.Hashes.{Lru}
use polkadot_worker.Indexer.Block.{Settings}
use polkadot_worker.Indexer.Client.{Client, new_client}
use polkadot_worker.Programs.Logging.{Logging, RollbarConfig, no_logging, log_at, info_level}
use polkadot_worker.Programs.Configuration.{LiveConfig, ConfigSources, get_live_config}
use polkadot_worker.Programs.Version.{Build, identity_string}
use polkadot_worker.Programs.Start.{
  Stop, no_config, Listener, Outside, or_server_root, listeners, start_logging, start_metrics,
  start_storage, handle_http,
}

pub record LiveOutside (E : Type 0) (lru : Lru) : Type 0 where
  pub shared : Outside E
  pub config : ConfigSources E LiveConfig
  pub unix_string : ℤ → Bytes
  pub build_info : Build
  pub new_lru : ℕ → Option lru.Cache

-- The program when its server starts.
pub record LiveProgram (lru : Lru) (D P S V : Type 0) : Type 0 where
  pub config : LiveConfig
  pub logging : Logging
  pub listeners : List Listener
  pub client : Client lru D P S V

abbrev pub no_settings : Settings
no_settings = record { network = []; chain_id = []; currency = []; exp = pos 0 }

abbrev pub live_rollbar_config : Bytes → LiveConfig → RollbarConfig
live_rollbar_config git_sha cfg = record {
  rollbar_access_token = cfg.rollbar_access_token;
  rollbar_server_root = cfg.rollbar_server_root;
  app_env = cfg.app_env;
  version = git_sha;
  chain_ids = cfg.chain_id ∷ [];
}

module _ {E : Type 0} (lru : Lru) (out : LiveOutside E lru) where
  -- From the configuration on, up to the metrics.
  unfoldable pub start_live_logs : LiveConfig → Outcome (Stop E) Logging
  start_live_logs cfg = do
    s1 ←
        start_logging out.shared cfg.app_env (live_rollbar_config out.build_info.git_sha cfg)
          no_logging
    s2 ← log_at info_level (identity_string out.unix_string out.build_info) [] s1
    start_metrics out.shared s2

  unfoldable pub start_live :
      {D P S V : Type 0} → Bytes → Outcome (Stop E) (LiveProgram lru D P S V)
  start_live path = do
    cfg0 ← wrap no_config (get_live_config out.config path)
    let cfg = record cfg0 { rollbar_server_root = or_server_root cfg0.rollbar_server_root }
    s ← start_live_logs cfg
    ds ← start_storage out.shared cfg.chain_id
    client ← new_client lru out.new_lru none ds none no_settings 0
    ok (record {
      config = cfg;
      logging = s;
      listeners = listeners 30 cfg.polkadot_node_addrs;
      client = client;
    })

  -- The whole of `main`: it returns when its HTTP server has ended.
  unfoldable pub live_main : {D P S V : Type 0} → Bytes → Outcome (Stop E) (LiveProgram lru D P S V)
  live_main {D} {P} {S} {V} path = do
    p ← start_live {D = D} {P = P} {S = S} {V = V} path
    s ← handle_http out.shared p.config.address p.config.http_port p.logging
    ok (record p { logging = s })
