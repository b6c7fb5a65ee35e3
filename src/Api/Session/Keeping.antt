-- ===== src/Api/Session/Keeping.antt =====
-- What the steps of a session of `api/api.go` do to an entry of its map: they keep it or delete it.
use polkadot_worker.Base.{
  ℕ, ◌≤◌, ◌<◌, ◌≡◌, ◌≢◌, ◌⊎◌, inl, inr, refl, Bool, true, false, List, [], ◌∷◌, Option, none, some,
  ◌==◌, All, length, Bool-cases, subst, arith, ==_iff,
}
use polkadot_worker.Api.Session.{
  Session, Send, Sent, ResponseStore, JsonRpcResponse, Event, sent, not_encoded, not_written,
  requested, received, ticked, ended, find, delete, insert, finish, register, on_request, on_entry,
  on_message, live, on_tick, step_when, step, run,
}
use polkadot_worker.Api.Session.Accounting.{Entry, Valid, Keys, FreshKey, live-All}
use polkadot_worker.Api.Session.Steps.{Room, step-Valid}
use polkadot_worker.Api.Session.Delivery.{step-next_id}

pub find-delete_self : (k : ℕ) (m : List Entry) → find k (delete k m) ≡ none
unfolding find delete
find-delete_self k [] = refl
find-delete_self k ((j, v) ∷ m) = ground (arith, find-delete_self k m)

pub find-delete_ne : (k j : ℕ) (m : List Entry) → k ≢ j → find k (delete j m) ≡ find k m
unfolding find delete
find-delete_ne k j [] n = refl
find-delete_ne k j ((i, v) ∷ m) n = ground (arith, find-delete_ne k j m n)

pub find_fresh : (k : ℕ) (m : List Entry) → All (λ p. p.0 ≢ k) m → find k m ≡ none
unfolding find
find_fresh k [] f = refl
find_fresh k ((i, v) ∷ m) (n, f) = ground (arith, find_fresh k m f)

-- An entry is what it was, or gone.
abbrev pub Kept : Option ResponseStore → Option ResponseStore → Type 0
Kept o o' = (o' ≡ o) ⊎ (o' ≡ none)

find-delete-Kept : (k j : ℕ) (m : List Entry) → Kept (find k m) (find k (delete j m))
find-delete-Kept k j m = elim (Bool-cases (k == j)) [
  | inl e ↦ inr (rw (← (==_iff k j).0 e) (find-delete_self k m))
  | inr e ↦ inl (find-delete_ne k j m (ground (arith, e)))
]

find-live-Kept : (t now k : ℕ) (m : List Entry) → Keys m → Kept (find k m) (find k (live t now m))
unfolding find live
find-live-Kept t now k [] h = inl refl
find-live-Kept t now k ((j, v) ∷ m) (f, h) = elim (Bool-cases (j == k)) [
  | inl e ↦
      let gone =
        find_fresh k (live t now m)
          (live-All (λ p. p.0 ≢ k) t now m (subst (λ i. FreshKey i m) ((==_iff j k).0 e) f)) in
      ground (arith, e, gone)
  | inr e ↦ ground (arith, e, find-live-Kept t now k m h)
]

Kept-trans : (o p q : Option ResponseStore) → Kept o p → Kept p q → Kept o q
Kept-trans o p q a b = ground arith

finish-Kept : (k : ℕ) (s : Session) → Kept (find k s.response_map) (find k (finish s).response_map)
unfolding finish find
finish-Kept k s = inr refl

register-Kept :
    (r : Send) (now k : ℕ) (s : Session)
    → k < s.next_message_id
    → Kept (find k s.response_map) (find k (register r now s).response_map)
unfolding register insert find
register-Kept r now k s h =
    ground (arith, find-delete_ne k s.next_message_id s.response_map (omega arith))

on_request-Kept :
    (r : Send) (now : ℕ) (x : Sent) (k : ℕ) (s : Session)
    → k < s.next_message_id
    → Kept (find k s.response_map) (find k (on_request r now x s).response_map)
unfolding on_request
on_request-Kept r now sent k s h = register-Kept r now k s h
on_request-Kept r now not_encoded k s h = inl refl
on_request-Kept r now not_written k s h =
    Kept-trans (find k s.response_map) (find k (register r now s).response_map) _
      (register-Kept r now k s h) (finish-Kept k (register r now s))

on_entry-Kept :
    (m : JsonRpcResponse) (taken : Bool) (o : Option ResponseStore) (k : ℕ) (s : Session)
    → Kept (find k s.response_map) (find k (on_entry m taken o s).response_map)
unfolding on_entry
on_entry-Kept m taken none k s = inl refl
on_entry-Kept m true (some st) k s = find-delete-Kept k m.id s.response_map
on_entry-Kept m false (some st) k s = find-delete-Kept k m.id s.response_map

on_message-Kept :
    (m : Option JsonRpcResponse) (taken : Bool) (k : ℕ) (s : Session)
    → Kept (find k s.response_map) (find k (on_message m taken s).response_map)
unfolding on_message
on_message-Kept none taken k s = inl refl
on_message-Kept (some m) taken k s = on_entry-Kept m taken (find m.id s.response_map) k s

step_when-Kept :
    (b : Bool) (t : ℕ) (e : Event) (k : ℕ) (s : Session)
    → k < s.next_message_id
    → Valid s
    → Kept (find k s.response_map) (find k (step_when b t s e).response_map)
unfolding step_when on_tick
step_when-Kept true t (requested r now x) k s h v = on_request-Kept r now x k s h
step_when-Kept true t (received m taken) k s h v = on_message-Kept m taken k s
step_when-Kept true t (ticked now) k s h v = find-live-Kept t now k s.response_map v.keys
step_when-Kept true t ended k s h v = finish-Kept k s
step_when-Kept false t (requested r now x) k s h v = inl refl
step_when-Kept false t (received m taken) k s h v = on_message-Kept m taken k s
step_when-Kept false t (ticked now) k s h v = find-live-Kept t now k s.response_map v.keys
step_when-Kept false t ended k s h v = inl refl

pub step-grows :
    (t : ℕ) (s : Session) (e : Event) → Room 1 s → s.next_message_id ≤ (step t s e).next_message_id
unfolding step step_when on_request on_message on_entry on_tick finish register
step-grows t s e room = ground arith

pub run-Kept :
    (t : ℕ) (es : List Event) (k : ℕ) (s : Session)
    → k < s.next_message_id
    → Room (length es) s
    → Valid s
    → Kept (find k s.response_map) (find k (run t s es).response_map)
unfolding run step
run-Kept t [] k s h room v = inl refl
run-Kept t (e ∷ es) k s h room v =
    Kept-trans (find k s.response_map) (find k (step t s e).response_map) _
      (step_when-Kept s.running t e k s h v)
      (run-Kept t es k (step t s e) (omega (arith, step-grows t s e (omega arith)))
        (omega (arith, step-next_id t s e)) (step-Valid t s e (omega arith) v))
