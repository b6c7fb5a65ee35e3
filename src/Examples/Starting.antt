-- ===== src/Examples/Starting.antt =====
-- Starts of the programs under `cmd`.
use polkadot_worker.Base.{
  to_lower, false, ℕ, ◌≡◌, refl, inl, List, [], ◌∷◌, Option, none, some, Bytes, codes, length, ok,
  panic,
}
use polkadot_worker.Base.Int.{pos}
use polkadot_worker.Scale.Storage
use polkadot_worker.Stdlib.Numbers.{atoi, set_string, in_int}
use polkadot_worker.Proxy.Conns.{
  Service, ServiceClient, GrpConnections, new_grp_connections, add, block_service, account_service,
  chain_service,
}
use polkadot_worker.Proxy.Conns.RoundRobin.{calls}
use polkadot_worker.Programs.Logging.{
  Level, Entry, debug_level, info_level, error_level, log_at, write, RollbarConfig, ZapConfig,
  no_logging, get_level, first_five, init,
}
use polkadot_worker.Programs.Logging.Levels.{Initialised, init-Initialised}
use polkadot_worker.Programs.Configuration.{
  Config, empty_config, server_root, LiveConfig, empty_live_config, ConfigSources, get_config,
  get_worker_config, from_file, from_env,
}
use polkadot_worker.Stdlib.Strings.{split, join}
use polkadot_worker.Indexer.Client.{with_cache, new_client}
use polkadot_worker.Programs.Start.{
  Outside, spec_name, listeners, start_logging, start_metrics, start_storage,
}
use polkadot_worker.Programs.Version.{identity_string}
use polkadot_worker.Programs.Worker.{
  WorkerOutside, ProxyClient, Worker, start_worker, start_logs, register_worker, dial_all,
  create_indexer_client,
}
use polkadot_worker.Programs.Worker.Serving.{Balanced, start_worker-Balanced}
use polkadot_worker.Programs.Worker.Progress.{Startable, start_worker_starts}
use polkadot_worker.Examples.Hashing.{full_cache}

abbrev rollbar : Bytes → RollbarConfig
rollbar token = record {
  rollbar_access_token = token;
  rollbar_server_root = [];
  app_env = codes "local";
  version = [];
  chain_ids = [];
}

-- Zap builds every logger.
abbrev builds : ZapConfig → Option ℕ
builds z = none

init-Initialised_example :
    Initialised {E = ℕ}
      (get_level (codes "WARN"))
      (codes "abcdef")
      no_logging
      none
      (init builds (codes "console") (codes "WARN") [] (some (rollbar (codes "abcdef"))) no_logging)
init-Initialised_example =
    init-Initialised builds (codes "console") (codes "WARN") [] (some (rollbar (codes "abcdef")))
      no_logging

-- A token of four bytes.
short_token :
    (init builds [] (codes "info") [] (some (rollbar (codes "abcd"))) no_logging).0 ≡ panic
unfolding init first_five get_level
short_token = refl

-- What the environment gives when no variable is set.
abbrev from_unset : LiveConfig → LiveConfig
from_unset c = record c {
  app_env = codes "development";
  address = codes "0.0.0.0";
  http_port = codes "8097";
  chain_id = codes "mainnet";
  rollbar_server_root = codes "github.com/figment-networks/polkadot-worker";
}

-- A file with a chain and no node.
abbrev chain_only : LiveConfig
chain_only = record empty_live_config { chain_id = codes "westend" }

abbrev live_sources : ConfigSources ℕ LiveConfig
live_sources = record {
  read_file = λ path. ok path;
  unmarshal = λ file c. (chain_only, none);
  process = λ c. (from_unset c, none);
}

-- The chain of the file is lost to the default.
chain_lost :
    get_config live_sources (λ c. c.polkadot_node_addrs) empty_live_config (codes "c.json")
    ≡ ok (from_unset chain_only)
unfolding get_config from_file from_env
chain_lost = refl

abbrev outside : Outside ℕ
outside = record {
  build = builds;
  add_engine = none;
  hotload = some 3;
  network_file = λ name. some name;
  listen_and_serve = λ address. some 5;
  error_text = λ e. e ∷ [];
}

abbrev worker_config : Config ℕ
worker_config = record (empty_config 0) {
  app_env = codes "local";
  polkadot_proxy_addr = codes "a,bb";
  polkadot_node_addrs = codes "n";
  chain_id = codes "mainnet";
  managers = codes "m";
}

abbrev worker_sources : ConfigSources ℕ (Config ℕ)
worker_sources = record {
  read_file = λ path. ok path;
  unmarshal = λ file c. (worker_config, none);
  process = λ c. (c, none);
}

-- The number of a connection is the length of its address.
abbrev worker_outside : WorkerOutside ℕ ℕ full_cache
worker_outside = record {
  shared = outside;
  config = worker_sources;
  zero = 0;
  to_uint64 = λ x. x;
  unix_string = λ t. [];
  build_info = record {
    name = codes "w";
    version = codes "1";
    git_sha = codes "c0";
    timestamp = [];
  };
  run_id = inl (codes "r");
  dial = λ a. inl (length a);
  new_lru = λ n. some [];
  listen = λ address. none;
  serve_grpc = none;
}

configured : get_worker_config worker_sources 0 (codes "c.json") ≡ ok worker_config
unfolding get_config from_file
configured = refl

worker_config-Startable : Startable full_cache worker_outside worker_config
unfolding split spec_name
worker_config-Startable = record {
  builds = refl;
  cuttable = inl refl;
  engine = refl;
  reachable = ((1, refl), ((2, refl), tt));
  network = codes "networks/polkadot.json";
  network_known = refl;
  cache = [];
  cache_made = refl;
}

start_worker_starts_example :
    (w : Worker full_cache ℕ ℕ ℕ) × (start_worker full_cache worker_outside (codes "c.json") ≡ ok w)
start_worker_starts_example =
    start_worker_starts full_cache worker_outside (codes "c.json") worker_config configured
      worker_config-Startable

abbrev entry : Level → Bytes → Entry
entry level message = record { level = level; message = message; fields = [] }

-- The worker that starts.
abbrev one_worker : Worker full_cache ℕ ℕ ℕ
one_worker = record {
  config = record worker_config { rollbar_server_root = server_root };
  logging = record no_logging {
    log = some (record { level = debug_level; reports = false });
    entries =
        entry info_level (codes "w 1 (git: c0) - built at ")
        ∷ entry error_level (3 ∷ [])
        ∷ entry info_level (codes "Self-hostname (r) is : ")
        ∷ entry info_level (codes "Connecting to managers (m)")
        ∷ [];
  };
  registration = some (record {
    run_id = codes "r";
    address = codes ":";
    network = [];
    chain_id = codes "mainnet";
    version = codes "0.0.1";
    managers = codes "m/client_ping" ∷ [];
    interval = pos 0;
  });
  listeners = record { address = codes "n"; timeout = 60 } ∷ [];
  client =
      with_cache full_cache
        (some (record { req_per_second = pos 0; conns = add 2 (add 1 new_grp_connections) }))
        (record { spec_name = codes "polkadot"; decoders = [] }) (some ([] ∷ []))
        (record { network = []; chain_id = codes "mainnet"; currency = []; exp = pos 0 }) 0 [];
}

started : start_worker full_cache worker_outside (codes "c.json") ≡ ok one_worker
unfolding start_worker split get_config from_file start_logs start_logging init log_at start_metrics
    write register_worker dial_all start_storage Storage.init create_indexer_client new_client add
    spec_name listeners identity_string join get_level atoi set_string in_int to_lower
started = refl

abbrev three_calls : List Service
three_calls = block_service ∷ account_service ∷ chain_service ∷ []

start_worker-Balanced_example :
    (p : ProxyClient) × (acs : List ServiceClient) × (d : GrpConnections) × (one_worker.client.proxy
      ≡ some p)
    × (calls three_calls p.conns ≡ ok (acs, d))
    × (length acs ≡ 3)
    × Balanced worker_outside.dial (split b',' (codes "a,bb")) three_calls acs
start_worker-Balanced_example =
    start_worker-Balanced full_cache worker_outside (codes "c.json") started three_calls
