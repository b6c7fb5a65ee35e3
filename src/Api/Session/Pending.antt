-- ===== src/Api/Session/Pending.antt =====
-- How long a request stays pending in a session of `api/api.go`, and what takes it.
use mathlib.Core.List.{Mem, mem-cons_self, mem-cons_of_mem}
use polkadot_worker.Base.{
  ℕ, ◌-◌, ltb, ◌<◌, ◌≡◌, ◌≢◌, ◌⊎◌, inl, inr, refl, ◌∙◌, Bool, true, false, List, [], ◌∷◌, Option,
  none, some, ◌==◌, length, Bool-cases, subst, arith, ==_iff,
}
use polkadot_worker.Api.Session.{
  Session, Send, Sent, ResponseStore, JsonRpcResponse, Event, sent, not_encoded, not_written,
  requested, received, ticked, ended, find, insert, finish, register, on_request, on_entry,
  on_message, live, on_tick, step_when, step, run,
}
use polkadot_worker.Api.Session.Accounting.{Entry, Valid, Keys, FreshKey, live-All}
use polkadot_worker.Api.Session.Steps.{Room, step-Valid}
use polkadot_worker.Api.Session.Delivery.{step-next_id}
use polkadot_worker.Api.Session.Timeout.{find-live_young}
use polkadot_worker.Api.Session.Keeping.{
  find-delete_self, find-delete_ne, find_fresh, Kept, step-grows, run-Kept,
}

-- What takes the request behind an identifier that was stored at `time` off the map: a request that
-- the socket refuses, a message with the identifier, a tick beyond the timeout, the end.
abbrev pub Takes : ℕ → ℕ → ℕ → Event → Type 0
Takes t k time (requested r now sent) = ⊥
Takes t k time (requested r now not_encoded) = ⊥
Takes t k time (requested r now not_written) = Unit {0}
Takes t k time (received none taken) = ⊥
Takes t k time (received (some m) taken) = m.id ≡ k
Takes t k time (ticked now) = t < now - time
Takes t k time ended = Unit {0}

abbrev Stays : ℕ → ℕ → ResponseStore → Event → Option ResponseStore → Type 0
Stays t k st e o = (o ≡ some st) ⊎ ((o ≡ none) × Takes t k st.time e)

find-live_late :
    (t now k : ℕ) (m : List Entry) (st : ResponseStore)
    → Keys m
    → find k m ≡ some st
    → t < now - st.time
    → find k (live t now m) ≡ none
unfolding find live
find-live_late t now k [] st h e late = refl
find-live_late t now k ((j, v) ∷ m) st (f, h) e late = elim (Bool-cases (j == k)) [
  | inl q ↦
      let gone =
        find_fresh k (live t now m)
          (live-All (λ p. p.0 ≢ k) t now m (subst (λ i. FreshKey i m) ((==_iff j k).0 q) f)) in
      ground (arith, q, gone)
  | inr q ↦ ground (arith, q, find-live_late t now k m st h)
]

tick-Stays :
    (t now k : ℕ) (m : List Entry) (st : ResponseStore)
    → Keys m
    → find k m ≡ some st
    → Stays t k st (ticked now) (find k (live t now m))
tick-Stays t now k m st h e = elim (Bool-cases (ltb t (now - st.time))) [
  | inl q ↦
      let late : t < now - st.time = ground (arith, q) in
      inr (find-live_late t now k m st h e late, late)
  | inr q ↦ inl (find-live_young t now k m st e (ground (arith, q)))
]

pub on_entry_gone :
    (m : JsonRpcResponse) (taken : Bool) (o : Option ResponseStore) (s : Session)
    → find m.id s.response_map ≡ o
    → find m.id (on_entry m taken o s).response_map ≡ none
unfolding on_entry
on_entry_gone m taken none s e = e
on_entry_gone m true (some st) s e = find-delete_self m.id s.response_map
on_entry_gone m false (some st) s e = find-delete_self m.id s.response_map

on_entry-other :
    (m : JsonRpcResponse) (taken : Bool) (o : Option ResponseStore) (k : ℕ) (s : Session)
    → k ≢ m.id
    → find k (on_entry m taken o s).response_map ≡ find k s.response_map
unfolding on_entry
on_entry-other m taken none k s n = refl
on_entry-other m true (some st) k s n = find-delete_ne k m.id s.response_map n
on_entry-other m false (some st) k s n = find-delete_ne k m.id s.response_map n

message-Stays :
    (t : ℕ) (m : Option JsonRpcResponse) (taken : Bool) (k : ℕ) (s : Session) (st : ResponseStore)
    → find k s.response_map ≡ some st
    → Stays t k st (received m taken) (find k (on_message m taken s).response_map)
unfolding on_message
message-Stays t none taken k s st e = inl e
message-Stays t (some m) taken k s st e = elim (Bool-cases (m.id == k)) [
  | inl q ↦
      let same_id : m.id ≡ k = (==_iff m.id k).0 q in
      inr (
        subst (λ i. find i (on_entry m taken (find m.id s.response_map) s).response_map ≡ none)
            same_id (on_entry_gone m taken (find m.id s.response_map) s refl),
        same_id,
      )
  | inr q ↦ inl (on_entry-other m taken (find m.id s.response_map) k s (ground (arith, q)) ∙ e)
]

request-Stays :
    (t : ℕ) (r : Send) (now : ℕ) (x : Sent) (k : ℕ) (s : Session) (st : ResponseStore)
    → k < s.next_message_id
    → find k s.response_map ≡ some st
    → Stays t k st (requested r now x) (find k (on_request r now x s).response_map)
unfolding on_request register insert finish find
request-Stays t r now sent k s st h e =
    inl (ground (arith, e, find-delete_ne k s.next_message_id s.response_map (omega (arith, h))))
request-Stays t r now not_encoded k s st h e = inl e
request-Stays t r now not_written k s st h e = inr (refl, tt)

step-Stays :
    (b : Bool) (t : ℕ) (e : Event) (k : ℕ) (s : Session) (st : ResponseStore)
    → k < s.next_message_id
    → Valid s
    → find k s.response_map ≡ some st
    → Stays t k st e (find k (step_when b t s e).response_map)
unfolding step_when on_tick finish find
step-Stays true t (requested r now x) k s st h v f = request-Stays t r now x k s st h f
step-Stays true t (received m taken) k s st h v f = message-Stays t m taken k s st f
step-Stays true t (ticked now) k s st h v f = tick-Stays t now k s.response_map st v.keys f
step-Stays true t ended k s st h v f = inr (refl, tt)
step-Stays false t (requested r now x) k s st h v f = inl f
step-Stays false t (received m taken) k s st h v f = message-Stays t m taken k s st f
step-Stays false t (ticked now) k s st h v f = tick-Stays t now k s.response_map st v.keys f
step-Stays false t ended k s st h v f = inl f

gone_stays : (o o' : Option ResponseStore) → o ≡ none → Kept o o' → o' ≡ none
gone_stays o o' n (inl e) = e ∙ n
gone_stays o o' n (inr e) = e

-- One of the events takes the request.
abbrev pub Taken : ℕ → ℕ → ℕ → List Event → Type 0
Taken t k time es = (e : Event) × Mem e es × Takes t k time e

pub run-Stays :
    (t : ℕ) (es : List Event) (k : ℕ) (s : Session) (st : ResponseStore)
    → k < s.next_message_id
    → Room (length es) s
    → Valid s
    → find k s.response_map ≡ some st
    → (find k (run t s es).response_map ≡ some st)
      ⊎ ((find k (run t s es).response_map ≡ none) × Taken t k st.time es)
unfolding run step
run-Stays t [] k s st h room v f = inl f
run-Stays t (e ∷ es) k s st h room v f =
    let below : k < (step t s e).next_message_id = omega (arith, step-grows t s e (omega arith)) in
    let room' : Room (length es) (step t s e) = omega (arith, step-next_id t s e) in
    let v' = step-Valid t s e (omega arith) v in
    elim (step-Stays s.running t e k s st h v f) [
      | inl f' ↦ elim (run-Stays t es k (step t s e) st below room' v' f') [
        | inl g ↦ inl g
        | inr (g, (e', m, q)) ↦ inr (g, (e', mem-cons_of_mem e m, q))
      ]
      | inr (n, q) ↦
          inr
            (gone_stays _ _ n (run-Kept t es k (step t s e) below room' v'), (e, mem-cons_self, q))
    ]
