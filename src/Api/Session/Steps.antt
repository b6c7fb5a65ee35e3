-- ===== src/Api/Session/Steps.antt =====
-- One step of a session of `api/api.go`: what it does to the books and to the map.
use polkadot_worker.Base.{
  ℕ, ◌+◌, ◌^◌, ◌<◌, ◌≡◌, refl, ap, ◌∙◌, Bool, true, false, List, [], ◌∷◌, Option, none, some, total,
  total-append, arith,
}
use polkadot_worker.Api.Session.{
  Session, Send, Sent, ResponseStore, JsonRpcResponse, Event, sent, not_encoded, not_written,
  requested, received, ticked, ended, find, delete, insert, answer_all, finish, connection_closed,
  register, on_request, on_entry, on_message, expired, live, on_tick, step_when, step, next_id,
}
use polkadot_worker.Api.Session.Accounting.{
  Ticket, Entry, of_delivery, of_send, asks, Below, Valid, delete_fresh, delete-All, delete-Keys,
  live-All, live-Keys, Below-mono, Below-FreshKey, books, answer_all-answers, expired-live,
  find-delete,
}

insert_fresh :
    (n : ℕ) (st : ResponseStore) (m : List Entry) → Below n m → insert n st m ≡ (n, st) ∷ m
unfolding insert
insert_fresh n st m h = ap (◌∷◌ (n, st)) (delete_fresh n m (Below-FreshKey n m h))

module _ (w : Ticket → ℕ) where
  finish-books : (s : Session) → books w (finish s) ≡ books w s
  unfolding finish
  finish-books s = omega (
    arith,
    answer_all-answers w connection_closed s.response_map,
    total-append (λ d. w (of_delivery d)) (answer_all connection_closed s.response_map) s.delivered,
  )

  on_tick-books : (t now : ℕ) (s : Session) → books w (on_tick t now s) ≡ books w s
  unfolding on_tick
  on_tick-books t now s = omega (
    arith,
    expired-live w t now s.response_map,
    total-append (λ d. w (of_delivery d)) (expired t now s.response_map) s.delivered,
  )

  on_entry-books :
      (m : JsonRpcResponse) (taken : Bool) (o : Option ResponseStore) (s : Session)
      → Valid s
      → find m.id s.response_map ≡ o
      → books w (on_entry m taken o s) ≡ books w s
  unfolding on_entry
  on_entry-books m taken none s v e = refl
  on_entry-books m true (some st) s v e =
      omega (arith, find-delete w m.id s.response_map st v.keys e)
  on_entry-books m false (some st) s v e =
      omega (arith, find-delete w m.id s.response_map st v.keys e)

  on_message-books :
      (m : Option JsonRpcResponse) (taken : Bool) (s : Session)
      → Valid s
      → books w (on_message m taken s) ≡ books w s
  unfolding on_message
  on_message-books none taken s v = refl
  on_message-books (some m) taken s v = on_entry-books m taken (find m.id s.response_map) s v refl

  register-books :
      (r : Send) (now : ℕ) (s : Session)
      → Valid s
      → books w (register r now s) ≡ books w s + w (of_send r)
  unfolding register
  register-books r now s v =
      rw (insert_fresh s.next_message_id _ s.response_map v.below) (omega arith)

  on_request-books :
      (r : Send) (now : ℕ) (x : Sent) (s : Session)
      → Valid s
      → books w (on_request r now x s) ≡ books w s + w (of_send r)
  unfolding on_request
  on_request-books r now not_encoded s v = omega arith
  on_request-books r now sent s v = register-books r now s v
  on_request-books r now not_written s v =
      finish-books (register r now s) ∙ register-books r now s v

  step_when-books :
      (b : Bool) (t : ℕ) (s : Session) (e : Event)
      → Valid s
      → books w (step_when b t s e) ≡ books w s + total w (asks b e)
  unfolding step_when
  step_when-books true t s (requested r now x) v = omega (arith, on_request-books r now x s v)
  step_when-books true t s (received m taken) v = omega (arith, on_message-books m taken s v)
  step_when-books true t s (ticked now) v = omega (arith, on_tick-books t now s)
  step_when-books true t s ended v = omega (arith, finish-books s)
  step_when-books false t s (requested r now x) v = omega arith
  step_when-books false t s (received m taken) v = omega (arith, on_message-books m taken s v)
  step_when-books false t s (ticked now) v = omega (arith, on_tick-books t now s)
  step_when-books false t s ended v = omega arith

  -- A step enters the request that it reads, and no other, into the books.
  pub step-books :
      (t : ℕ) (s : Session) (e : Event)
      → Valid s
      → books w (step t s e) ≡ books w s + total w (asks s.running e)
  unfolding step
  step-books t s e v = step_when-books s.running t s e v

-- The loop has room for one more identifier.
abbrev pub Room : ℕ → Session → Type 0
Room k s = s.next_message_id + k < 2 ^ 64

Below-next_id : (n : ℕ) (m : List Entry) → n + 1 < 2 ^ 64 → Below n m → Below (next_id n) m
Below-next_id n m room h = Below-mono n (next_id n) m (omega arith) h

delete-nil : (k : ℕ) (m : List Entry) → m ≡ [] → delete k m ≡ []
unfolding delete
delete-nil k m e = rw e

live-nil : (t now : ℕ) (m : List Entry) → m ≡ [] → live t now m ≡ []
unfolding live
live-nil t now m e = rw e

register-Valid :
    (r : Send) (now : ℕ) (s : Session)
    → Room 1 s
    → s.running ≡ true
    → Valid s
    → Valid (register r now s)
unfolding register
register-Valid r now s room h v = record {
  keys =
      rw (insert_fresh s.next_message_id _ s.response_map v.below)
        (Below-FreshKey s.next_message_id s.response_map v.below, v.keys);
  below =
      rw (insert_fresh s.next_message_id _ s.response_map v.below)
        (omega arith, Below-next_id s.next_message_id s.response_map room v.below);
  settled = λ e. cc;
}

finish-Valid : (s : Session) → Valid (finish s)
unfolding finish
finish-Valid s = record { keys = tt; below = tt; settled = λ e. refl }

on_request-Valid :
    (r : Send) (now : ℕ) (x : Sent) (s : Session)
    → Room 1 s
    → s.running ≡ true
    → Valid s
    → Valid (on_request r now x s)
unfolding on_request
on_request-Valid r now not_encoded s room h v = record {
  keys = v.keys;
  below = Below-next_id s.next_message_id s.response_map room v.below;
  settled = v.settled;
}
on_request-Valid r now sent s room h v =
    let u = register-Valid r now s room h v in
    record { keys = u.keys; below = u.below; settled = u.settled }
on_request-Valid r now not_written s room h v = finish-Valid (register r now s)

removed-Valid :
    (k : ℕ) (s : Session) → Valid s → Valid (record s { response_map = delete k s.response_map })
removed-Valid k s v = record {
  keys = delete-Keys k s.response_map v.keys;
  below = delete-All (λ p. p.0 < s.next_message_id) k s.response_map v.below;
  settled = λ e. delete-nil k s.response_map (v.settled e);
}

on_entry-Valid :
    (m : JsonRpcResponse) (taken : Bool) (o : Option ResponseStore) (s : Session)
    → Valid s
    → Valid (on_entry m taken o s)
unfolding on_entry
on_entry-Valid m taken none s v = v
on_entry-Valid m true (some st) s v =
    let u = removed-Valid m.id s v in record { keys = u.keys; below = u.below; settled = u.settled }
on_entry-Valid m false (some st) s v =
    let u = removed-Valid m.id s v in record { keys = u.keys; below = u.below; settled = u.settled }

on_message-Valid :
    (m : Option JsonRpcResponse) (taken : Bool) (s : Session)
    → Valid s
    → Valid (on_message m taken s)
unfolding on_message
on_message-Valid none taken s v = v
on_message-Valid (some m) taken s v = on_entry-Valid m taken (find m.id s.response_map) s v

on_tick-Valid : (t now : ℕ) (s : Session) → Valid s → Valid (on_tick t now s)
unfolding on_tick
on_tick-Valid t now s v = record {
  keys = live-Keys t now s.response_map v.keys;
  below = live-All (λ p. p.0 < s.next_message_id) t now s.response_map v.below;
  settled = λ e. live-nil t now s.response_map (v.settled e);
}

step_when-Valid :
    (b : Bool) (t : ℕ) (s : Session) (e : Event)
    → s.running ≡ b
    → Room 1 s
    → Valid s
    → Valid (step_when b t s e)
unfolding step_when
step_when-Valid true t s (requested r now x) h room v = on_request-Valid r now x s room h v
step_when-Valid true t s (received m taken) h room v = on_message-Valid m taken s v
step_when-Valid true t s (ticked now) h room v = on_tick-Valid t now s v
step_when-Valid true t s ended h room v = finish-Valid s
step_when-Valid false t s (requested r now x) h room v = v
step_when-Valid false t s (received m taken) h room v = on_message-Valid m taken s v
step_when-Valid false t s (ticked now) h room v = on_tick-Valid t now s v
step_when-Valid false t s ended h room v = v

pub step-Valid : (t : ℕ) (s : Session) (e : Event) → Room 1 s → Valid s → Valid (step t s e)
unfolding step
step-Valid t s e room v = step_when-Valid s.running t s e refl room v
