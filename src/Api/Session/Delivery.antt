-- ===== src/Api/Session/Delivery.antt =====
-- What a whole session of `api/api.go` promises to those who send requests.
use polkadot_worker.Base.{
  ℕ, ◌+◌, ◌^◌, ◌≤◌, ◌<◌, ◌≡◌, ap, false, List, [], ◌∷◌, length, total, total-append, arith,
}
use polkadot_worker.Api.Session.{
  Session, Event, start, finish, register, on_request, on_entry, on_message, on_tick, step_when,
  step, run, next_id,
}
use polkadot_worker.Api.Session.Accounting.{
  Ticket, asks, asked, Valid, start-Valid, pending, answers, drops, books,
}
use polkadot_worker.Api.Session.Steps.{Room, step-books, step-Valid}

next_id-le : (n : ℕ) → next_id n ≤ n + 1
next_id-le n = omega arith

-- A step uses up one identifier at most.
pub step-next_id :
    (t : ℕ) (s : Session) (e : Event) → (step t s e).next_message_id ≤ s.next_message_id + 1
unfolding step step_when on_request on_message on_entry on_tick finish register
step-next_id t s e = ground arith

pub run-Valid :
    (t : ℕ) (s : Session) (es : List Event) → Room (length es) s → Valid s → Valid (run t s es)
unfolding run
run-Valid t s [] room v = v
run-Valid t s (e ∷ es) room v =
    run-Valid t (step t s e) es (omega (arith, step-next_id t s e))
      (step-Valid t s e (omega arith) v)

run-books :
    (w : Ticket → ℕ) (t : ℕ) (s : Session) (es : List Event)
    → Room (length es) s
    → Valid s
    → books w (run t s es) ≡ books w s + total w (asked t s es)
unfolding run asked
run-books w t s [] room v = omega arith
run-books w t s (e ∷ es) room v = omega (
  arith,
  step-books w t s e v,
  run-books w t (step t s e) es (omega (arith, step-next_id t s e))
      (step-Valid t s e (omega arith) v),
  total-append w (asks s.running e) (asked t (step t s e) es),
)

start-Room : (es : List Event) → length es < 2 ^ 64 → Room (length es) start
start-Room es h = omega arith

-- In a session of less than 2^64 events the requests that were read are, as a multiset, those that
-- were answered, those that the reader dropped and those that are pending. A request is known by
-- its channel, its sender's identifier and its method.
pub session_books :
    (w : Ticket → ℕ) (t : ℕ) (es : List Event)
    → length es < 2 ^ 64
    → books w (run t start es) ≡ total w (asked t start es)
session_books w t es h = omega (arith, run-books w t start es (start-Room es h) start-Valid)

-- Once such a session has ended nothing is pending: each request that was read has been answered
-- on its channel or dropped by the reader, exactly once.
pub ended_settles :
    (w : Ticket → ℕ) (t : ℕ) (es : List Event)
    → length es < 2 ^ 64
    → (run t start es).running ≡ false
    → answers w (run t start es).delivered + drops w (run t start es).dropped
      ≡ total w (asked t start es)
ended_settles w t es h e =
    let v = run-Valid t start es (start-Room es h) start-Valid in
    omega (arith, session_books w t es h, ap (pending w) (v.settled e))
