-- ===== src/Programs/Logging/Levels.antt =====
-- What a logger that `Init` has set up writes, and where `Init` fails.
use polkadot_worker.Base.{
  ℕ, ◌<◌, ◌≤◌, ◌≡◌, ◌≢◌, ◌⊎◌, inl, inr, refl, Bool, true, false, not, ◌&&◌, List, [], ◌∷◌, ◌++◌,
  Option, none, some, Bytes, codes, is_empty, length, leb, if◌then◌else◌, ok, err, panic, arith,
  suc, Bool-cases,
}
use polkadot_worker.Programs.Logging.{
  Level, ZapConfig, RollbarConfig, Logging, Logged, enabled, error_level, get_level, first_five,
  init, write, log_at, with_rollbar, integrated, built,
}

abbrev pub token : Option RollbarConfig → Bytes
token none = []
token (some rc) = rc.rollbar_access_token

abbrev pub zap_config : Bytes → List Bytes → ZapConfig
zap_config log_level log_outputs = record {
  output_paths = log_outputs;
  encoding = codes "json";
  level = get_level log_level;
}

abbrev pub kept_if : {A : Type 0} → Bool → List A → A → List A
kept_if b l x = if b then l ++ x ∷ [] else l

-- Every message is written from the level on, and reported, if at all, from errors on.
abbrev pub Logs : Level → Bool → Logging → Type 0
Logs at reports s =
    (l : Level) (message : Bytes) (fields : List (Bytes × Bytes))
    → (t : Logging) × (log_at {E = Unit {0}} l message fields s ≡ ok t)
      × (t.entries
          ≡ kept_if (enabled at l) s.entries
              (record { level = l; message = message; fields = fields }))
      × (t.reported
          ≡ kept_if (reports && enabled error_level l) s.reported
              (record { level = l; message = message; fields = fields }))

-- What becomes of a call of `Init` in the state `s`, by the error of zap.
abbrev pub Initialised : {E : Type 0} → Level → Bytes → Logging → Option E → Logged E → Type 0
Initialised at t s (some e) r = r ≡ (err e, s)
Initialised at t s none r =
    ((t ≢ []) × (length t < 5) × (r.0 ≡ panic) × (r.1.log ≡ s.log))
    ⊎ (((t ≡ []) ⊎ (5 ≤ length t)) × (r.0 ≡ ok tt) × Logs at (not (is_empty t)) r.1)

installed-Logs :
    (at : Level) (reports : Bool) (s : Logging)
    → s.log ≡ some (record { level = at; reports = reports })
    → Logs at reports s
unfolding log_at write
installed-Logs at reports s h l message fields = (
  write (record { level = at; reports = reports })
      (record { level = l; message = message; fields = fields }) s,
  rw h refl,
  refl,
  refl,
)

integrated_lem :
    (E : Type 0) (at : Level) (rc : RollbarConfig) (x : ℕ) (t : Bytes) (s : Logging)
    → Initialised {E = E} at
        (x ∷ t)
        s
        none
        (integrated at rc (first_five (x ∷ t)) (record s { rollbar = some rc }))
unfolding first_five
integrated_lem E at rc x t s = elim (Bool-cases (leb 5 (suc (length t)))) [
  | inl h ↦ rw h (inr (inr (ground arith), refl, installed-Logs at true _ refl))
  | inr h ↦ rw h (inl (cc, ground arith, refl, refl))
]

Bytes-cases : (s : Bytes) → (s ≡ []) ⊎ ((x : ℕ) × (t : Bytes) × (s ≡ x ∷ t))
Bytes-cases [] = inl refl
Bytes-cases (x ∷ t) = inr (x, t, refl)

with_rollbar_lem :
    (E : Type 0) (at : Level) (rc : Option RollbarConfig) (s : Logging)
    → Initialised {E = E} at (token rc) s none (with_rollbar at rc s)
with_rollbar_lem E at none s = inr (inl refl, refl, installed-Logs at false _ refl)
with_rollbar_lem E at (some rc) s = elim (Bytes-cases rc.rollbar_access_token) [
  | inl e ↦ rw e (inr (inl refl, refl, installed-Logs at false _ refl))
  | inr (x, t, e) ↦ rw e (integrated_lem E at (record rc { rollbar_access_token = x ∷ t }) x t s)
]

built_lem :
    (E : Type 0) (at : Level) (rc : Option RollbarConfig) (s : Logging) (e : Option E)
    → Initialised at (token rc) s e (built at rc s e)
built_lem E at rc s none = with_rollbar_lem E at rc s
built_lem E at rc s (some e) = refl

-- `Init` returns the error of zap and changes nothing; without one it panics, before `Log` is set,
-- on a token of one to four bytes; on any other token, and without one, it returns, and then every
-- message is written from the named level on, whatever the encoding, and reported, just when there
-- is a token, from errors on, and none panics.
pub init-Initialised :
    {E : Type 0} (build : ZapConfig → Option E) (encoding log_level : Bytes)
    (log_outputs : List Bytes) (rc : Option RollbarConfig) (s : Logging)
    → Initialised
        (get_level log_level)
        (token rc)
        s
        (build (zap_config log_level log_outputs))
        (init build encoding log_level log_outputs rc s)
unfolding init
init-Initialised {E = E} build encoding log_level log_outputs rc s =
    built_lem E (get_level log_level) rc s (build (zap_config log_level log_outputs))
