-- ===== src/Api/Session/Routing.antt =====
-- Whom an answer of the node goes to in a session of `api/api.go`.
use polkadot_worker.Base.{
  ℕ, suc, ◌≡◌, ◌⊎◌, inl, inr, refl, ap, ◌∙◌, Bool, true, List, ◌∷◌, none, some, Bytes, length,
  arith,
}
use polkadot_worker.Api.Session.{
  Session, Send, Response, ResponseStore, JsonRpcResponse, Event, sent, requested, received, find,
  insert, register, on_request, on_entry, on_message, step_when, step, run, next_id,
}
use polkadot_worker.Api.Session.Accounting.{Valid}
use polkadot_worker.Api.Session.Steps.{Room, step-Valid}
use polkadot_worker.Api.Session.Pending.{run-Stays, Taken, on_entry_gone}

-- The response that the sender of `r` waits for.
abbrev pub reply_to : Send → Bytes → ℕ × Response
reply_to r result = (
  r.resp_ch,
  record { id = r.request.id; error = none; type = r.request.method; result = result },
)

abbrev pub store_of : Send → ℕ → ResponseStore
store_of r now = record {
  id = r.request.id;
  type = r.request.method;
  time = now;
  resp_ch = r.resp_ch;
}

received_lem :
    (t : ℕ) (s : Session) (m : JsonRpcResponse) (taken : Bool)
    → step t s (received (some m) taken) ≡ on_entry m taken (find m.id s.response_map) s
unfolding step step_when on_message
received_lem t s m taken = ground arith

requested_lem :
    (t : ℕ) (s : Session) (r : Send) (now : ℕ)
    → s.running ≡ true
    → (find s.next_message_id (step t s (requested r now sent)).response_map
        ≡ some (store_of r now))
      × ((step t s (requested r now sent)).next_message_id ≡ next_id s.next_message_id)
unfolding step step_when on_request register insert find
requested_lem t s r now h = ground (arith, h)

-- A request that is pending is answered; without one nothing changes.
on_entry-answers :
    (r : Send) (now : ℕ) (m : JsonRpcResponse) (s : Session)
    → find m.id s.response_map ≡ some (store_of r now)
    → let u = on_entry m true (find m.id s.response_map) s in
      (u.delivered ≡ reply_to r m.result ∷ s.delivered) × (find m.id u.response_map ≡ none)
unfolding on_entry
on_entry-answers r now m s e = (rw e refl, on_entry_gone m true (find m.id s.response_map) s refl)

on_entry-absent :
    (m : JsonRpcResponse) (s : Session)
    → find m.id s.response_map ≡ none
    → on_entry m true (find m.id s.response_map) s ≡ s
unfolding on_entry
on_entry-absent m s e = rw e refl

-- In a running session that is well formed and whose identifiers do not wrap around, however many
-- events come in between: a request that was written is still pending when the node's message with
-- the identifier that it went out with arrives, and then, if its receiver takes it in time, the
-- result is delivered to the sender of that request, on its channel, with the sender's own
-- identifier and the request's method, and the request is no longer pending. Or one of the events
-- in between has taken it (a message with that identifier, a tick beyond the timeout, a request
-- that could not be written, or the end of the session); then it is not pending, and the message
-- changes nothing.
pub answer_to_sender :
    (t : ℕ) (s : Session) (r : Send) (now : ℕ) (es : List Event) (m : JsonRpcResponse)
    → Valid s
    → s.running ≡ true
    → Room (suc (length es)) s
    → m.id ≡ s.next_message_id
    → let u = run t (step t s (requested r now sent)) es in
      let u' = step t u (received (some m) true) in
      ((find m.id u.response_map ≡ some (store_of r now))
        × (u'.delivered ≡ reply_to r m.result ∷ u.delivered)
        × (find m.id u'.response_map ≡ none))
      ⊎ ((find m.id u.response_map ≡ none) × Taken t m.id now es × (u' ≡ u))
answer_to_sender t s r now es m v h room e =
    let s' = step t s (requested r now sent) in
    let u = run t s' es in
    let (found, next) = requested_lem t s r now h in
    let stays =
      run-Stays t es m.id s' (store_of r now) (omega (arith, next, e)) (omega (arith, next))
        (step-Valid t s (requested r now sent) (omega arith) v) (rw e found) in
    rw (received_lem t u m true) (elim stays [
      | inl f ↦ let (d, g) = on_entry-answers r now m u f in inl (f, d, g)
      | inr (f, q) ↦ inr (f, q, on_entry-absent m u f)
    ])

-- A second message with the same identifier changes nothing: no request is answered twice, whether
-- the first answer was taken or given up.
pub answered_once :
    (t : ℕ) (s : Session) (m m' : JsonRpcResponse) (taken taken' : Bool)
    → m'.id ≡ m.id
    → let u = step t s (received (some m) taken) in step t u (received (some m') taken') ≡ u
unfolding on_entry
answered_once t s m m' taken taken' e =
    let u = step t s (received (some m) taken) in
    let gone : find m'.id u.response_map ≡ none =
      rw (e, received_lem t s m taken) (on_entry_gone m taken (find m.id s.response_map) s refl) in
    received_lem t u m' taken' ∙ ap (λ o. on_entry m' taken' o u) gone
