-- ===== src/Programs/Worker.antt =====
-- `cmd/polkadot-worker/main.go`. The flags, the deferred calls of `main` and its contexts are left out.
pub mod Dialling
pub mod Starting
pub mod Serving
pub mod Progress
use polkadot_worker.Base.{
  ℕ, suc, ◌+◌, ◌≡◌, Bool, true, false, ◌⊎◌, inl, inr, List, [], ◌∷◌, ◌++◌, map, Option, none, some,
  Bytes, codes, is_empty, if◌then◌else◌, Outcome, ok, err, panic, block, ◌>>=◌, wrap,
}
use polkadot_worker.Base.Int.{ℤ}
use polkadot_worker.Stdlib.Strings.{split, join}
use polkadot_worker.Scale.Storage.{DecodeStorage}
use polkadot_worker.Proxy.Conns.{GrpConnections, new_grp_connections, add}
use polkadot_worker.Indexer.Hashes.{Lru}
use polkadot_worker.Indexer.Block.{Settings}
use polkadot_worker.Indexer.Client.{Client, new_client}
use polkadot_worker.Programs.Logging.{
  Logging, RollbarConfig, no_logging, log_at, info_level, error_level,
}
use polkadot_worker.Programs.Configuration.{Config, ConfigSources, get_worker_config}
use polkadot_worker.Programs.Version.{Build, identity_string}
use polkadot_worker.Programs.Start.{
  Stop, no_config, no_connection, Listener, Outside, or_server_root, listeners, start_logging,
  start_metrics, start_storage, handle_http,
}

-- What the worker asks of the libraries beside what both programs do. `to_uint64` converts a
-- `float64`; `dial` gives the number of a connection; `run_id` is `uuid.NewRandom`.
pub record WorkerOutside (E F : Type 0) (lru : Lru) : Type 0 where
  pub shared : Outside E
  pub config : ConfigSources E (Config F)
  pub zero : F
  pub to_uint64 : F → ℕ
  pub unix_string : ℤ → Bytes
  pub build_info : Build
  pub run_id : Bytes ⊎ E
  pub dial : Bytes → ℕ ⊎ E
  pub new_lru : ℕ → Option lru.Cache
  pub listen : Bytes → Option E
  pub serve_grpc : Option E

-- `connectivity.NewWorkerConnections` with its managers, and the interval of its `Run`.
pub record Registration : Type 0 where
  pub run_id : Bytes
  pub address : Bytes
  pub network : Bytes
  pub chain_id : Bytes
  pub version : Bytes
  pub managers : List Bytes
  pub interval : ℤ

-- The client of the proxy: its rate limiter, both rate and burst, and the connections.
pub record ProxyClient : Type 0 where
  pub req_per_second : ℤ
  pub conns : GrpConnections

-- The worker when its servers start. `V` is the type of a stream.
pub record Worker (lru : Lru) (D F V : Type 0) : Type 0 where
  pub config : Config F
  pub logging : Logging
  pub registration : Option Registration
  pub listeners : List Listener
  pub client : Client lru D ProxyClient (List Bytes) V

abbrev pub hostname_of : Bytes → Bytes → Bytes
hostname_of hostname address = if is_empty hostname then address else hostname

abbrev pub client_ping : Bytes → Bytes
client_ping m = m ++ codes "/client_ping"

module _ {F : Type 0} where
  abbrev pub rollbar_config : Bytes → Config F → RollbarConfig
  rollbar_config git_sha cfg = record {
    rollbar_access_token = cfg.rollbar_access_token;
    rollbar_server_root = cfg.rollbar_server_root;
    app_env = cfg.app_env;
    version = git_sha;
    chain_ids = cfg.chain_id ∷ [];
  }

  abbrev pub registration_of : Config F → Bytes → Registration
  registration_of cfg run_id = record {
    run_id = run_id;
    address = hostname_of cfg.hostname cfg.address ++ codes ":" ++ cfg.port;
    network = cfg.network;
    chain_id = cfg.chain_id;
    version = codes "0.0.1";
    managers = map client_ping (split b',' cfg.managers);
    interval = cfg.manager_interval;
  }

module _ {E F : Type 0} where
  -- `registerWorker`; without an identifier the worker goes on unregistered.
  unfoldable pub register_worker :
      (E → Bytes)
      → Bytes ⊎ E
      → Config F
      → Logging
      → Outcome (Stop E) (Option Registration × Logging)
  register_worker text (inr e) cfg s = do
    s1 ←
        log_at error_level (codes "Error while creating new random id for polkadot-worker")
          ((codes "error", text e) ∷ []) s
    ok (none, s1)
  register_worker text (inl run_id) cfg s = do
    s1 ←
        log_at info_level
          (codes "Self-hostname ("
            ++ run_id
            ++ codes ") is "
            ++ hostname_of cfg.hostname cfg.address
            ++ codes ":"
            ++ cfg.port
            ++ codes " ")
          [] s
    s2 ←
        log_at info_level
          (codes "Connecting to managers (" ++ join b',' (split b',' cfg.managers) ++ codes ")") []
          s1
    ok (some (registration_of cfg run_id), s2)

module _ {E : Type 0} where
  abbrev pub connected : ℕ ⊎ E → Outcome (Stop E) ℕ
  connected (inl n) = ok n
  connected (inr e) = err (no_connection e)

  unfoldable pub dial_all :
      (Bytes → ℕ ⊎ E) → List Bytes → GrpConnections → Outcome (Stop E) GrpConnections
  dial_all dial [] ngc = ok ngc
  dial_all dial (pp ∷ pps) ngc = do n ← connected (dial pp); dial_all dial pps (add n ngc)

module _ {E F : Type 0} (lru : Lru) (out : WorkerOutside E F lru) where
  unfoldable pub create_indexer_client :
      {D V : Type 0}
      → Config F
      → GrpConnections
      → DecodeStorage D
      → Outcome (Stop E) (Client lru D ProxyClient (List Bytes) V)
  create_indexer_client cfg conns ds =
      new_client lru out.new_lru
        (some (record { req_per_second = cfg.req_per_second; conns = conns })) ds
        (some (split b',' cfg.store_http_endpoints))
        (record {
          network = cfg.network;
          chain_id = cfg.chain_id;
          currency = cfg.currency;
          exp = cfg.exp;
        })
        (out.to_uint64 cfg.maximum_heights_to_get)

  -- From the configuration on up to the registration.
  unfoldable pub start_logs : Config F → Outcome (Stop E) (Option Registration × Logging)
  start_logs cfg = do
    s1 ← start_logging out.shared cfg.app_env (rollbar_config out.build_info.git_sha cfg) no_logging
    s2 ← log_at info_level (identity_string out.unix_string out.build_info) [] s1
    s3 ← start_metrics out.shared s2
    register_worker out.shared.error_text out.run_id cfg s3

  unfoldable pub start_worker : {D V : Type 0} → Bytes → Outcome (Stop E) (Worker lru D F V)
  start_worker path = do
    cfg0 ← wrap no_config (get_worker_config out.config out.zero path)
    let cfg = record cfg0 { rollbar_server_root = or_server_root cfg0.rollbar_server_root }
    (registration, s) ← start_logs cfg
    conns ← dial_all out.dial (split b',' cfg.polkadot_proxy_addr) new_grp_connections
    ds ← start_storage out.shared cfg.chain_id
    client ← create_indexer_client cfg conns ds
    ok (record {
      config = cfg;
      logging = s;
      registration = registration;
      listeners = listeners 60 cfg.polkadot_node_addrs;
      client = client;
    })

  -- The goroutine `serveGRPC`, up to its end.
  unfoldable pub serve_grpc : Config F → Logging → Outcome (Stop E) Logging
  serve_grpc cfg s = do
    let fields = (codes "address", cfg.address) ∷ (codes "port", cfg.port) ∷ []
    s1 ← log_at info_level (codes "[GRPC] Listening on") fields s
    elim (out.listen (cfg.address ++ codes ":" ++ cfg.port)) [
      | some e ↦
          log_at error_level (codes "[GRPC] Error while listening ")
            (fields ++ (codes "error", out.shared.error_text e) ∷ []) s1
      | none ↦ elim out.serve_grpc [
        | none ↦ ok s1
        | some e ↦
            log_at error_level (codes "[GRPC] Error while serving ")
              (fields ++ (codes "error", out.shared.error_text e) ∷ []) s1
      ]
    ]

  -- The whole of `main`: it returns when its HTTP server has ended.
  unfoldable pub main : {D V : Type 0} → Bytes → Outcome (Stop E) (Worker lru D F V)
  main {D} {V} path = do
    w ← start_worker {D = D} {V = V} path
    s ← handle_http out.shared w.config.address w.config.http_port w.logging
    ok (record w { logging = s })
