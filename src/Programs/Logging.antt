-- ===== src/Programs/Logging.antt =====
-- `cmd/polkadot-worker/logger/logger.go`; `cmd/polkadot-live/logger/logger.go` has the same text. Of
-- zap the model has what its documentation says: a core writes the entries at its level and above,
-- and a method of a nil `*zap.Logger` is a nil dereference.
pub mod Levels
use polkadot_worker.Base.{
  ℕ, ◌≡◌, Bool, true, false, ◌&&◌, List, [], ◌∷◌, ◌++◌, Option, none, some, Bytes, codes, same,
  is_empty, to_lower, leb, length, take, if◌then◌else◌, Outcome, ok, err, panic, block,
}

pub data Level : Type 0 where
  debug_level info_level warn_level error_level panic_level fatal_level : Level

-- The order of zap's levels.
abbrev pub severity : Level → ℕ
severity debug_level = 0
severity info_level = 1
severity warn_level = 2
severity error_level = 3
severity panic_level = 4
severity fatal_level = 5

abbrev pub enabled : Level → Level → Bool
enabled at level = leb (severity at) (severity level)

unfoldable pub get_level : Bytes → Level
get_level level =
    let l = to_lower level in
    if same l (codes "panic")
    then panic_level
    else if same l (codes "fatal")
    then fatal_level
    else if same l (codes "error")
    then error_level
    else if same l (codes "warn")
    then warn_level
    else if same l (codes "warning")
    then warn_level
    else if same l (codes "info")
    then info_level
    else if same l (codes "debug")
    then debug_level
    else info_level

pub record RollbarConfig : Type 0 where
  pub rollbar_access_token : Bytes
  pub rollbar_server_root : Bytes
  pub app_env : Bytes
  pub version : Bytes
  pub chain_ids : List Bytes

-- What `Init` asks zap for, beside the keys of its entries.
pub record ZapConfig : Type 0 where
  pub output_paths : List Bytes
  pub encoding : Bytes
  pub level : Level

pub record Entry : Type 0 where
  pub level : Level
  pub message : Bytes
  pub fields : List (Bytes × Bytes)

-- `Log`: the level is shared with the core; `reports` says whether the core is teed with rollbar's.
pub record Logger : Type 0 where
  pub level : Level
  pub reports : Bool

-- `Log` is `none` until `Init` has set it. `rollbar` is what the rollbar client has been told.
pub record Logging : Type 0 where
  pub log : Option Logger
  pub rollbar : Option RollbarConfig
  pub entries : List Entry
  pub reported : List Entry
  pub exited : Bool

abbrev pub no_logging : Logging
no_logging = record { log = none; rollbar = none; entries = []; reported = []; exited = false }

-- The core at the level, and the core of rollbar from errors on.
unfoldable pub write : Logger → Entry → Logging → Logging
write l e s = record s {
  entries = if enabled l.level e.level then s.entries ++ e ∷ [] else s.entries;
  reported = if l.reports && enabled error_level e.level then s.reported ++ e ∷ [] else s.reported;
}

-- `s[0:5]`
unfoldable pub first_five : Bytes → Option Bytes
first_five s = if leb 5 (length s) then some (take 5 s) else none

abbrev pub enabling : RollbarConfig → Bytes → Entry
enabling rc token = record {
  level = info_level;
  message = codes "Enabling rollbar integration";
  fields =
      (codes "env", rc.app_env)
      ∷ (codes "server_root", rc.rollbar_server_root)
      ∷ (codes "access_token", token)
      ∷ [];
}

-- What `Init` returns, and the state it leaves.
abbrev pub Logged : Type 0 → Type 0
Logged E = Outcome E (Unit {0}) × Logging

module _ {E : Type 0} where
  abbrev pub installed : Level → Bool → Logging → Logged E
  installed level reports s =
      (ok tt, record s { log = some (record { level = level; reports = reports }) })

  -- The entry is written before the core is teed.
  abbrev pub integrated : Level → RollbarConfig → Option Bytes → Logging → Logged E
  integrated level rc none s = (panic, s)
  integrated level rc (some token) s =
      installed level true (write (record { level = level; reports = false }) (enabling rc token) s)

  abbrev pub with_rollbar : Level → Option RollbarConfig → Logging → Logged E
  with_rollbar level none s = installed level false s
  with_rollbar level (some rc) s =
      if is_empty rc.rollbar_access_token
      then installed level false s
      else integrated level rc (first_five rc.rollbar_access_token) (record s { rollbar = some rc })

  abbrev pub built : Level → Option RollbarConfig → Logging → Option E → Logged E
  built level rc s none = with_rollbar level rc s
  built level rc s (some e) = (err e, s)

  -- `Init`; `build` is `zap.Config.Build`. The argument `encoding` is not used.
  unfoldable pub init :
      (ZapConfig → Option E)
      → Bytes
      → Bytes
      → List Bytes
      → Option RollbarConfig
      → Logging
      → Logged E
  init build encoding log_level log_outputs rc s =
      let level = get_level log_level in
      built level rc s
        (build (record { output_paths = log_outputs; encoding = codes "json"; level = level }))

-- The methods of `Log`, on a logger that is there.
abbrev pub on_log : {E : Type 0} → (Logger → Logging) → Option Logger → Outcome E Logging
on_log f none = panic
on_log f (some l) = ok (f l)

module _ {E : Type 0} where
  unfoldable pub set_level : Bytes → Logging → Outcome E Logging
  set_level log_level s =
      on_log (λ l. record s { log = some (record l { level = get_level log_level }) }) s.log

  -- `Debug`, `Info`, `Warn` and `Error`, which takes the text of its error.
  unfoldable pub log_at : Level → Bytes → List (Bytes × Bytes) → Logging → Outcome E Logging
  log_at level message fields s =
      on_log (λ l. write l (record { level = level; message = message; fields = fields }) s) s.log

  -- `Fatal` ends the process, also where the entry is not written.
  unfoldable pub fatal : Bytes → List (Bytes × Bytes) → Logging → Outcome E Logging
  fatal message fields s =
      on_log
        (λ l.
          record (write l (record { level = fatal_level; message = message; fields = fields }) s) {
            exited = true;
          })
        s.log

  unfoldable pub sync : Logging → Outcome E Logging
  sync s = on_log (λ l. s) s.log
