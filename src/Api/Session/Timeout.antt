-- ===== src/Api/Session/Timeout.antt =====
-- What a tick of `timeoutChecker` of `api/api.go` does to a session.
use mathlib.Core.List.{Mem, mem-cons_self, mem-cons_of_mem}
use polkadot_worker.Base.{
  if◌then◌else◌, length, ◌<◌, ◌+◌, All-map, ◌⊎◌, ℕ, ◌-◌, ◌≤◌, ◌≡◌, inl, inr, refl, Bool, true,
  false, List, [], ◌∷◌, ◌++◌, some, ltb, All, Bool-cases, arith,
}
use polkadot_worker.Api.Session.{
  Session, Response, ResponseStore, ticked, find, request_timedout, expired, live, on_tick,
  step_when, step,
}
use polkadot_worker.Api.Session.Accounting.{Entry}

-- The pending requests that a tick at `now` leaves, and those that it answers.
live_young : (t now : ℕ) (m : List Entry) → All (λ p. now - p.1.time ≤ t) (live t now m)
unfolding live
live_young t now [] = tt
live_young t now ((k, v) ∷ m) = elim (Bool-cases (ltb t (now - v.time))) [
  | inl e ↦ rw e (live_young t now m)
  | inr e ↦ rw e (ground (arith, e), live_young t now m)
]

pub find-live_young :
    (t now k : ℕ) (m : List Entry) (st : ResponseStore)
    → find k m ≡ some st
    → now - st.time ≤ t
    → find k (live t now m) ≡ some st
unfolding find live
find-live_young t now k [] st e h = cc
find-live_young t now k ((j, v) ∷ m) st e h = ground (arith, find-live_young t now k m st)

step-ticked :
    (b : Bool) (t : ℕ) (s : Session) (now : ℕ) → step_when b t s (ticked now) ≡ on_tick t now s
unfolding step_when
step-ticked true t s now = refl
step-ticked false t s now = refl

-- The answer to a request that has timed out.
abbrev pub timeout_answer : ResponseStore → ℕ × Response
timeout_answer st =
    (st.resp_ch, record { id = st.id; error = some request_timedout; type = st.type; result = [] })

-- The delivery answers a request of `m` that is older than the timeout.
abbrev pub TimedOut : ℕ → ℕ → List Entry → ℕ × Response → Type 0
TimedOut t now m d = (p : Entry) × Mem p m × (t < now - p.1.time) × (d ≡ timeout_answer p.1)

-- A request is older than the timeout and answered, or not and still there.
abbrev pub Settled : ℕ → ℕ → List (ℕ × Response) → List Entry → Entry → Type 0
Settled t now new left p =
    ((t < now - p.1.time) × Mem (timeout_answer p.1) new) ⊎ ((now - p.1.time ≤ t) × Mem p left)

TimedOut-cons :
    (t now : ℕ) (p : Entry) (m : List Entry) (d : ℕ × Response)
    → TimedOut t now m d
    → TimedOut t now (p ∷ m) d
TimedOut-cons t now p m d (q, i, h, e) = (q, mem-cons_of_mem p i, h, e)

expired-TimedOut : (t now : ℕ) (m : List Entry) → All (TimedOut t now m) (expired t now m)
unfolding expired
expired-TimedOut t now [] = tt
expired-TimedOut t now ((k, v) ∷ m) =
    let rest =
      All-map (TimedOut t now m) (TimedOut t now ((k, v) ∷ m)) (TimedOut-cons t now (k, v) m) _
        (expired-TimedOut t now m) in
    elim (Bool-cases (ltb t (now - v.time))) [
      | inl e ↦
          let late : t < now - v.time = ground (arith, e) in
          rw e (((k, v), mem-cons_self, late, refl), rest)
      | inr e ↦ rw e rest
    ]

Settled-more :
    (t now : ℕ) (d : ℕ × Response) (new : List (ℕ × Response)) (left : List Entry) (p : Entry)
    → Settled t now new left p
    → Settled t now (d ∷ new) left p
Settled-more t now d new left p (inl (h, i)) = inl (h, mem-cons_of_mem d i)
Settled-more t now d new left p (inr h) = inr h

Settled-left :
    (t now : ℕ) (q : Entry) (new : List (ℕ × Response)) (left : List Entry) (p : Entry)
    → Settled t now new left p
    → Settled t now new (q ∷ left) p
Settled-left t now q new left p (inl h) = inl h
Settled-left t now q new left p (inr (h, i)) = inr (h, mem-cons_of_mem q i)

Settled-cons :
    (t now : ℕ) (p : Entry) (m : List Entry) (new : List (ℕ × Response)) (left : List Entry)
    (b : Bool)
    → ltb t (now - p.1.time) ≡ b
    → All (Settled t now new left) m
    → All
        (Settled t now (if b then timeout_answer p.1 ∷ new else new) (if b then left else p ∷ left))
        (p ∷ m)
Settled-cons t now p m new left true e h = (
  inl ((ground (arith, e)), mem-cons_self),
  All-map (Settled t now new left) (Settled t now (timeout_answer p.1 ∷ new) left)
      (Settled-more t now (timeout_answer p.1) new left) m h,
)
Settled-cons t now p m new left false e h = (
  inr ((ground (arith, e)), mem-cons_self),
  All-map (Settled t now new left) (Settled t now new (p ∷ left)) (Settled-left t now p new left) m
      h,
)

all-Settled : (t now : ℕ) (m : List Entry) → All (Settled t now (expired t now m) (live t now m)) m
unfolding expired live
all-Settled t now [] = tt
all-Settled t now (p ∷ m) =
    Settled-cons t now p m (expired t now m) (live t now m) (ltb t (now - p.1.time)) refl
      (all-Settled t now m)

expired-live :
    (t now : ℕ) (m : List Entry) → length (expired t now m) + length (live t now m) ≡ length m
unfolding expired live
expired-live t now [] = refl
expired-live t now ((k, v) ∷ m) = ground (arith, expired-live t now m)

-- A tick answers by timeout errors and by nothing else: each pending request that is older than the
-- timeout gets its own on its channel, and each answer is for such a request. Each other one is
-- still pending under its identifier, nothing older than the timeout is, and the answers and the
-- requests that are still pending are together as many as were pending before.
pub ticked_timeout :
    (t : ℕ) (s : Session) (now : ℕ)
    → let u = step t s (ticked now) in
      (new : List (ℕ × Response)) × (u.delivered ≡ new ++ s.delivered)
      × All (TimedOut t now s.response_map) new
      × All (Settled t now new u.response_map) s.response_map
      × (length new + length u.response_map ≡ length s.response_map)
      × All (λ p. now - p.1.time ≤ t) u.response_map
      × ((k : ℕ) (st : ResponseStore)
          → find k s.response_map ≡ some st
          → now - st.time ≤ t
          → find k u.response_map ≡ some st)
unfolding step on_tick
ticked_timeout t s now = rw (step-ticked s.running t s now) (
  expired t now s.response_map,
  refl,
  expired-TimedOut t now s.response_map,
  all-Settled t now s.response_map,
  expired-live t now s.response_map,
  live_young t now s.response_map,
  λ k st e h. find-live_young t now k s.response_map st e h,
)
