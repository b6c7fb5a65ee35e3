-- ===== src/Api/Health/Counting.antt =====
-- When `HealthCheck` of `api/api.go` resets the connections and when it ends the process.
use polkadot_worker.Base.{
  ℕ, suc, ◌+◌, ◌≤◌, ◌<◌, ◌≡◌, inl, inr, refl, sym, subst, Bool, true, false, List, [], ◌∷◌, ltb,
  leb, ◌==◌, if◌then◌else◌, arith, All, length, Bool-cases,
}
use polkadot_worker.Api.Health.{
  Health, Round, not_online, unsendable, timed_out, answered, round, advance, rounds,
  handle_ws_healthcheck_response,
}

-- A round that counts against the node.
abbrev pub is_bad : Round → Bool
is_bad not_online = false
is_bad unsendable = false
is_bad timed_out = true
is_bad (answered r) = if handle_ws_healthcheck_response r then false else true

-- The counter of a running check is 20 at most, so it never wraps around its 8 bits.
abbrev pub Bounded : Health → Type 0
Bounded h = h.exited ≡ false → h.un_healthy_requests ≤ 20

round-Bounded : (h : Health) (r : Round) → h.exited ≡ false → Bounded h → Bounded (round h r)
unfolding round
round-Bounded h not_online e b = b
round-Bounded h unsendable e b = ground arith
round-Bounded h timed_out e b = ground arith
round-Bounded h (answered r) e b = ground arith

advance-Bounded :
    (b : Bool) (h : Health) (r : Round) → h.exited ≡ b → Bounded h → Bounded (advance b h r)
unfolding advance
advance-Bounded true h r e b = b
advance-Bounded false h r e b = round-Bounded h r e b

-- Whatever the rounds meet, while the process runs the counter is 20 at most.
pub rounds-Bounded : (h : Health) (rs : List Round) → Bounded h → Bounded (rounds h rs)
unfolding rounds
rounds-Bounded h [] b = b
rounds-Bounded h (r ∷ rs) b =
    rounds-Bounded (advance h.exited h r) rs (advance-Bounded h.exited h r refl b)

-- A bad round of a running check.
bad_round :
    (h : Health) (r : Round)
    → is_bad r ≡ true
    → h.un_healthy_requests ≤ 20
    → ((round h r).un_healthy_requests ≡ h.un_healthy_requests + 1)
      × ((round h r).resets ≡ h.resets + (if h.un_healthy_requests == 9 then 1 else 0))
      × ((round h r).exited ≡ (if ltb h.un_healthy_requests 20 then h.exited else true))
unfolding round
bad_round h not_online e b = cc
bad_round h unsendable e b = cc
bad_round h timed_out e b = ground arith
bad_round h (answered r) e b = ground arith

-- How often a row of `n` bad rounds from counter `u` passes the value ten.
abbrev pub passes_ten : ℕ → ℕ → ℕ
passes_ten u n = if ltb u 10 then if leb 10 (u + n) then 1 else 0 else 0

rounds_exited : (h : Health) (rs : List Round) → h.exited ≡ true → (rounds h rs).exited ≡ true
unfolding rounds
rounds_exited h [] e = e
rounds_exited h (r ∷ rs) e =
    rounds_exited (advance h.exited h r) rs (unfold advance in ground (arith, e))

advance_running : (h : Health) (r : Round) → h.exited ≡ false → advance h.exited h r ≡ round h r
unfolding advance
advance_running h r e = ground (arith, e)

-- What `n` bad rounds in a row make of `h`.
abbrev pub Streak : Health → ℕ → Health → Type 0
Streak h n h' =
    (h.un_healthy_requests + n ≤ 20
      → (h'.exited ≡ false)
        × (h'.un_healthy_requests ≡ h.un_healthy_requests + n)
        × (h'.resets ≡ h.resets + passes_ten h.un_healthy_requests n))
    × (20 < h.un_healthy_requests + n → h'.exited ≡ true)

-- A row of bad rounds, with no other between, that begins at a counter of 20 at most: as long as
-- the counter comes to 20 at most the process runs on, the counter has gone up by one for each
-- round, and the connections are reset once, when it gets to ten; with the round behind that the
-- process exits.
pub rounds-Streak :
    (h : Health) (rs : List Round)
    → All (λ r. is_bad r ≡ true) rs
    → h.exited ≡ false
    → h.un_healthy_requests ≤ 20
    → Streak h (length rs) (rounds h rs)
unfolding rounds
rounds-Streak h [] bad e b = (λ l. (e, omega arith, ground arith), λ l. absurd (omega arith))
rounds-Streak h (r ∷ rs) (bad, rest) e b =
    let (counter, resets, exited) = bad_round h r bad b in
    subst (λ g. Streak h (suc (length rs)) (rounds g rs)) (sym (advance_running h r e))
      (elim (Bool-cases (ltb h.un_healthy_requests 20)) [
        | inl low ↦
            let (runs, exits) =
              rounds-Streak (round h r) rs rest (ground (arith, exited, low, e))
                (ground (arith, counter, low)) in
            (
              λ l.
                  (let (x, y, z) = runs (omega (arith, counter)) in
                    (x, omega (arith, y, counter), ground (arith, z, counter, resets))),
              λ l. exits (omega (arith, counter)),
            )
        | inr high ↦ (
          λ l. absurd (ground (arith, high)),
          λ l. rounds_exited (round h r) rs (ground (arith, exited, high)),
        )
      ])
