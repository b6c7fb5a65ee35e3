-- ===== src/Programs/Start/Unfailing.antt =====
-- When the steps that the programs of `cmd` share go through: the logger, the metrics and the storage.
use polkadot_worker.Base.{
  ◌≤◌, ◌≡◌, ◌⊎◌, inl, inr, refl, subst, Bool, Bool-cases, List, [], ◌∷◌, ◌++◌, Option, none, some,
  Bytes, codes, length, arith, is_empty, not, if◌then◌else◌, Outcome, ok, err, ◌>>=◌,
}
use polkadot_worker.Programs.Logging.{
  Level, Logger, Logging, Logged, RollbarConfig, ZapConfig, on_log, log_at, write, get_level,
  error_level, info_level, no_logging,
}
use polkadot_worker.Scale.Storage.{DecodeStorage, init, no_network}
use polkadot_worker.Programs.Logging
use polkadot_worker.Programs.Logging.Levels.{zap_config, Logs, Initialised, init-Initialised}
use polkadot_worker.Programs.Start.{
  stored, Stop, Outside, is_local, despite_error, log_error, start_logging, start_metrics,
  start_storage, spec_name,
}

-- `Log` is set.
abbrev pub Live : Logging → Type 0
Live s = (g : Logger) × (s.log ≡ some g)

-- The token of rollbar can be cut for the log.
abbrev pub Cuttable : Bytes → Type 0
Cuttable t = (t ≡ []) ⊎ (5 ≤ length t)

on_log-some :
    (f : Logger → Logging) (o : Option Logger) {t : Logging}
    → on_log {E = Unit {0}} f o ≡ ok t
    → (g : Logger) × (o ≡ some g)
on_log-some f none h = cc
on_log-some f (some g) h = (g, refl)

Logs-Live : (at : Level) (reports : Bool) (s : Logging) → Logs at reports s → Live s
unfolding log_at
Logs-Live at reports s h = on_log-some _ s.log (h info_level [] []).1

module _ {E : Type 0} where
  pub log_at-Live :
      (l : Level) (m : Bytes) (fs : List (Bytes × Bytes)) (s : Logging)
      → Live s
      → (t : Logging) × (log_at {E = E} l m fs s ≡ ok t) × Live t
  unfolding log_at write
  log_at-Live l m fs s (g, e) =
      (write g (record { level = l; message = m; fields = fs }) s, rw e refl, (g, e))

  pub then_ok :
      {A B : Type 0} (m : Outcome E A) (k : A → Outcome E B) {a : A}
      → m ≡ ok a
      → (b : B) × (k a ≡ ok b)
      → (b : B) × (m >>= k ≡ ok b)
  then_ok m k e (b, h) = (b, rw (e, ◌>>=◌) h)

  pub then_Live :
      {A : Type 0} (m : Outcome E Logging) (k : Logging → Outcome E A)
      → (t : Logging) × (m ≡ ok t) × Live t
      → ((t : Logging) → Live t → (a : A) × (k t ≡ ok a))
      → (a : A) × (m >>= k ≡ ok a)
  then_Live m k (t, e, v) f = then_ok m k e (f t v)

  after_init :
      (at : Level) (t : Bytes) (s : Logging) (r : Logged E)
      → Initialised at t s none r
      → Cuttable t
      → (s' : Logging) × (despite_error r ≡ ok s') × Live s'
  after_init at t s (o, s1) (inl (n, b, _, _)) (inl e) = absurd (n e)
  after_init at t s (o, s1) (inl (n, b, _, _)) (inr l) = absurd (omega arith)
  after_init at t s (o, s1) (inr (_, e, h)) c =
      (s1, rw e refl, Logs-Live at (not (is_empty t)) s1 h)

-- The level that a program asks for.
abbrev pub level_of : Bool → Bytes
level_of local = if local then codes "debug" else codes "info"

abbrev pub level_name : Bytes → Bytes
level_name app_env = level_of (is_local app_env)

module _ {E : Type 0} (out : Outside E) where
  init-Live :
      (encoding level : Bytes) (rc : RollbarConfig)
      → out.build (zap_config level (codes "stderr" ∷ [])) ≡ none
      → Cuttable rc.rollbar_access_token
      → (s : Logging) × (despite_error
            (Logging.init out.build encoding level (codes "stderr" ∷ []) (some rc) no_logging)
          ≡ ok s)
        × Live s
  init-Live encoding level rc b c =
      let outputs : List Bytes = codes "stderr" ∷ [] in
      let r = Logging.init out.build encoding level outputs (some rc) no_logging in
      after_init (get_level level) rc.rollbar_access_token no_logging r
        (subst (λ e. Initialised (get_level level) rc.rollbar_access_token no_logging e r) b
          (init-Initialised out.build encoding level outputs (some rc) no_logging))
        c

  pub start_logging-Live :
      (app_env : Bytes) (rc : RollbarConfig)
      → out.build (zap_config (level_name app_env) (codes "stderr" ∷ [])) ≡ none
      → Cuttable rc.rollbar_access_token
      → (s : Logging) × (start_logging out app_env rc no_logging ≡ ok s) × Live s
  unfolding start_logging
  start_logging-Live app_env rc b c = elim (Bool-cases (is_local app_env)) [
    | inl e ↦ rw e (
        init-Live (codes "console") (codes "debug") rc
          (subst (λ l. out.build (zap_config (level_of l) (codes "stderr" ∷ [])) ≡ none) e b) c)
    | inr e ↦ rw e (
        init-Live (codes "json") (codes "info") rc
          (subst (λ l. out.build (zap_config (level_of l) (codes "stderr" ∷ [])) ≡ none) e b) c)
  ]

  hotload-Live :
      (o : Option E) (s : Logging)
      → Live s
      → (t : Logging) × (log_error out.error_text o s ≡ ok t) × Live t
  hotload-Live none s v = (s, refl, v)
  hotload-Live (some e) s v = log_at-Live error_level (out.error_text e) [] s v

  pub start_metrics-Live :
      (s : Logging)
      → out.add_engine ≡ none
      → Live s
      → (t : Logging) × (start_metrics out s ≡ ok t) × Live t
  unfolding start_metrics
  start_metrics-Live s e v = rw e (hotload-Live out.hotload s v)

stored_known :
    {E D : Type 0} (file : Option Bytes) (name : Bytes) {f : Bytes}
    → file ≡ some f
    → (ds : DecodeStorage D) × ◌≡◌ {A = Outcome (Stop E) (DecodeStorage D)}
        (stored (elim file [
          | none ↦ (err (no_network name), record { spec_name = name; decoders = [] })
          | some f ↦ (ok tt, record { spec_name = name; decoders = [] })
        ]))
        (ok ds)
stored_known none name e = cc
stored_known (some f) name e = (record { spec_name = name; decoders = [] }, refl)

pub start_storage-ready :
    {E D : Type 0} (out : Outside E) (chain : Bytes) {f : Bytes}
    → out.network_file (codes "networks/" ++ (spec_name chain ++ codes ".json")) ≡ some f
    → (ds : DecodeStorage D) × (start_storage out chain ≡ ok ds)
unfolding start_storage init
start_storage-ready out chain e = stored_known (out.network_file _) (spec_name chain) e
