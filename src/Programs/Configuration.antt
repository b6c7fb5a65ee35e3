-- ===== src/Programs/Configuration.antt =====
-- `config/config.go` of both programs, and `getConfig` of their `main.go`. Files, `encoding/json` and
-- `envconfig` are arguments.
use polkadot_worker.Base.{
  Bool, [], Option, none, some, Bytes, codes, is_empty, if◌then◌else◌, Outcome, ok, err, ◌>>=◌,
}
use polkadot_worker.Base.Int.{ℤ, pos}

-- A `float64` is of the type `F`, a duration is in nanoseconds.
pub record Config (F : Type 0) : Type 0 where
  pub app_env : Bytes
  pub address : Bytes
  pub port : Bytes
  pub http_port : Bytes
  pub polkadot_proxy_addr : Bytes
  pub polkadot_node_addrs : Bytes
  pub network : Bytes
  pub chain_id : Bytes
  pub managers : Bytes
  pub manager_interval : ℤ
  pub hostname : Bytes
  pub grpc_max_recv_size : ℤ
  pub grpc_max_send_size : ℤ
  pub maximum_heights_to_get : F
  pub req_per_second : ℤ
  pub rollbar_access_token : Bytes
  pub rollbar_server_root : Bytes
  pub health_check_interval : ℤ
  pub currency : Bytes
  pub exp : ℤ
  pub store_http_endpoints : Bytes

-- `Config{}`, with the zero of `float64`.
abbrev pub empty_config : {F : Type 0} → F → Config F
empty_config zero = record {
  app_env = [];
  address = [];
  port = [];
  http_port = [];
  polkadot_proxy_addr = [];
  polkadot_node_addrs = [];
  network = [];
  chain_id = [];
  managers = [];
  manager_interval = pos 0;
  hostname = [];
  grpc_max_recv_size = pos 0;
  grpc_max_send_size = pos 0;
  maximum_heights_to_get = zero;
  req_per_second = pos 0;
  rollbar_access_token = [];
  rollbar_server_root = [];
  health_check_interval = pos 0;
  currency = [];
  exp = pos 0;
  store_http_endpoints = [];
}

-- The configuration of `polkadot-live`.
pub record LiveConfig : Type 0 where
  pub app_env : Bytes
  pub address : Bytes
  pub http_port : Bytes
  pub chain_id : Bytes
  pub polkadot_node_addrs : Bytes
  pub rollbar_access_token : Bytes
  pub rollbar_server_root : Bytes
  pub health_check_interval : ℤ

abbrev pub empty_live_config : LiveConfig
empty_live_config = record {
  app_env = [];
  address = [];
  http_port = [];
  chain_id = [];
  polkadot_node_addrs = [];
  rollbar_access_token = [];
  rollbar_server_root = [];
  health_check_interval = pos 0;
}

-- The default of `ROLLBAR_SERVER_ROOT`; what the other tags say is the business of `envconfig`.
abbrev pub server_root : Bytes
server_root = codes "github.com/figment-networks/polkadot-worker"

-- `ioutil.ReadFile`; and `json.Unmarshal` and `envconfig.Process` with the value that they leave
-- behind the pointer and the error.
pub record ConfigSources (E C : Type 0) : Type 0 where
  pub read_file : Bytes → Outcome E Bytes
  pub unmarshal : Bytes → C → C × Option E
  pub process : C → C × Option E

abbrev pub unless_failed : {E C : Type 0} → C × Option E → Outcome E C
unless_failed (c, none) = ok c
unless_failed (c, some e) = err e

module _ {E C : Type 0} (src : ConfigSources E C) where
  -- `FromFile` and `FromEnv`, whose callers drop the value at an error.
  unfoldable pub from_file : Bytes → C → Outcome E C
  from_file path c = do file ← src.read_file path; unless_failed (src.unmarshal file c)

  unfoldable pub from_env : C → Outcome E C
  from_env c = unless_failed (src.process c)

  abbrev pub from_path : Bytes → C → Outcome E C
  from_path path c = if is_empty path then ok c else from_file path c

  abbrev pub completed : Bool → C → Outcome E C
  completed asks c = if asks then from_env c else ok c

  -- `getConfig`, from the configuration that has no values, with the field that it tests.
  unfoldable pub get_config : (C → Bytes) → C → Bytes → Outcome E C
  get_config needed zero path = do c ← from_path path zero; completed (is_empty (needed c)) c

module _ {E F : Type 0} (src : ConfigSources E (Config F)) where
  abbrev pub get_worker_config : F → Bytes → Outcome E (Config F)
  get_worker_config zero path = get_config src (λ c. c.polkadot_proxy_addr) (empty_config zero) path

abbrev pub get_live_config :
    {E : Type 0} → ConfigSources E LiveConfig → Bytes → Outcome E LiveConfig
get_live_config src path = get_config src (λ c. c.polkadot_node_addrs) empty_live_config path
