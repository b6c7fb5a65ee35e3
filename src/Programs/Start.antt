-- ===== src/Programs/Start.antt =====
-- What the `main` functions of `cmd` share: the logger, the metrics, the nodes, the storage of
-- decoders and the HTTP server. The context and the goroutines' own runs are left out.
pub mod Unfailing
pub mod Started
use polkadot_worker.Base.{
  ℕ, ◌≡◌, Bool, true, false, ◌||◌, List, [], ◌∷◌, ◌++◌, map, Option, none, some, Bytes, codes, same,
  is_empty, if◌then◌else◌, Outcome, ok, err, panic, block, ◌>>=◌, wrap,
}
use polkadot_worker.Stdlib.Strings.{split}
use polkadot_worker.Scale.Storage.{ScaleError, DecodeStorage, init, new_decode_storage}
use polkadot_worker.Programs.Logging
use polkadot_worker.Programs.Logging.{
  Logging, Logged, RollbarConfig, ZapConfig, log_at, info_level, error_level,
}
use polkadot_worker.Programs.Configuration.{server_root}

-- How a program ends by itself: `log.Fatal` of the standard library, or a `return` of `main`.
pub data Stop (E : Type 0) : Type 0 where
  no_config : E → Stop E
  no_connection : E → Stop E
  no_storage : ScaleError E → Stop E
  returned : Logging → Stop E

-- A goroutine `connApi.Run` with its address and the seconds of its timeout.
pub record Listener : Type 0 where
  pub address : Bytes
  pub timeout : ℕ

-- What the libraries do; `none` is a nil error.
pub record Outside (E : Type 0) : Type 0 where
  pub build : ZapConfig → Option E
  pub add_engine : Option E
  pub hotload : Option E
  pub network_file : Bytes → Option Bytes
  pub listen_and_serve : Bytes → Option E
  pub error_text : E → Bytes

abbrev pub or_server_root : Bytes → Bytes
or_server_root root = if is_empty root then server_root else root

unfoldable pub spec_name : Bytes → Bytes
spec_name chain = if same chain (codes "mainnet") then codes "polkadot" else chain

unfoldable pub listeners : ℕ → Bytes → List Listener
listeners timeout addrs = map (λ a. record { address = a; timeout = timeout }) (split b',' addrs)

abbrev pub is_local : Bytes → Bool
is_local app_env = same app_env (codes "development") || same app_env (codes "local")

module _ {E : Type 0} where
  -- The programs drop the error of `logger.Init`.
  abbrev pub despite_error : Logged E → Outcome (Stop E) Logging
  despite_error (ok _, s) = ok s
  despite_error (err _, s) = ok s
  despite_error (panic, s) = panic
  despite_error (block, s) = block

  -- `if err != nil { logger.Error(err) }`
  abbrev pub log_error : (E → Bytes) → Option E → Logging → Outcome (Stop E) Logging
  log_error text none s = ok s
  log_error text (some e) s = log_at error_level (text e) [] s

  -- `if err != nil { logger.Error(err); return }`
  abbrev pub or_return : (E → Bytes) → Option E → Logging → Outcome (Stop E) Logging
  or_return text none s = ok s
  or_return text (some e) s = do s1 ← log_at error_level (text e) [] s; err (returned s1)

  abbrev pub stored :
      {D : Type 0}
      → Outcome (ScaleError E) (Unit {0}) × DecodeStorage D
      → Outcome (Stop E) (DecodeStorage D)
  stored (ok _, ds) = ok ds
  stored (err e, ds) = err (no_storage e)
  stored (panic, ds) = panic
  stored (block, ds) = block

module _ {E : Type 0} (out : Outside E) where
  unfoldable pub start_logging : Bytes → RollbarConfig → Logging → Outcome (Stop E) Logging
  start_logging app_env rc s =
      if is_local app_env
      then despite_error (
          Logging.init out.build (codes "console") (codes "debug") (codes "stderr" ∷ []) (some rc)
            s)
      else despite_error
          (Logging.init out.build (codes "json") (codes "info") (codes "stderr" ∷ []) (some rc) s)

  unfoldable pub start_metrics : Logging → Outcome (Stop E) Logging
  start_metrics s = do
    s1 ← or_return out.error_text out.add_engine s
    log_error out.error_text out.hotload s1

  unfoldable pub start_storage : {D : Type 0} → Bytes → Outcome (Stop E) (DecodeStorage D)
  start_storage chain = stored (init out.network_file (spec_name chain) new_decode_storage)

  -- `handleHTTP`, up to the end of its server.
  unfoldable pub handle_http : Bytes → Bytes → Logging → Outcome (Stop E) Logging
  handle_http address http_port s = do
    let fields = (codes "address", address) ∷ (codes "port", http_port) ∷ []
    s1 ← log_at info_level (codes "[HTTP] Listening on") fields s
    elim (out.listen_and_serve (address ++ codes ":" ++ http_port)) [
      | none ↦ ok s1
      | some e ↦
          log_at error_level (codes "[GRPC] Error while listening ")
            (fields ++ (codes "error", out.error_text e) ∷ []) s1
    ]
