-- ===== src/Api/Session/Accounting.antt =====
-- The books of a session of `api/api.go`: each request that the loop reads is answered once, dropped
-- once by the reader, or still pending.
use polkadot_worker.Base.{
  ℕ, ◌+◌, ◌-◌, ◌≤◌, ◌<◌, ◌≡◌, ◌≢◌, inl, inr, refl, subst, Bool, true, false, List, [], ◌∷◌, ◌++◌,
  some, Bytes, ltb, ◌==◌, All, All-map, total, Bool-cases, arith, ==_iff,
}
use polkadot_worker.Api.Session.{
  Session, Send, Response, ResponseStore, Event, ConnError, requested, received, ticked, ended,
  start, find, delete, answer_all, expired, live, step,
}

-- What identifies a request to its sender.
pub record Ticket : Type 0 where
  pub ch : ℕ
  pub id : ℕ
  pub method : Bytes

abbrev pub Entry : Type 0
Entry = ℕ × ResponseStore

abbrev pub of_store : ResponseStore → Ticket
of_store st = record { ch = st.resp_ch; id = st.id; method = st.type }

abbrev pub of_entry : Entry → Ticket
of_entry p = of_store p.1

abbrev pub of_delivery : ℕ × Response → Ticket
of_delivery d = record { ch = d.0; id = d.1.id; method = d.1.type }

abbrev pub of_send : Send → Ticket
of_send r = record { ch = r.resp_ch; id = r.request.id; method = r.request.method }

-- The request that an event makes the loop read.
abbrev pub asks : Bool → Event → List Ticket
asks true (requested r now w) = of_send r ∷ []
asks true (received m taken) = []
asks true (ticked now) = []
asks true ended = []
asks false e = []

-- The requests that a session reads.
unfoldable pub asked : ℕ → Session → List Event → List Ticket
asked timeout s [] = []
asked timeout s (e ∷ es) = asks s.running e ++ asked timeout (step timeout s e) es

-- The keys of the map are distinct, and below the next identifier.
abbrev pub FreshKey : ℕ → List Entry → Type 0
FreshKey k = All (λ p. p.0 ≢ k)

abbrev pub Keys : List Entry → Type 0
Keys [] = Unit {0}
Keys (p ∷ m) = FreshKey p.0 m × Keys m

abbrev pub Below : ℕ → List Entry → Type 0
Below n = All (λ p. p.0 < n)

pub record Valid (s : Session) : Type 0 where
  pub keys : Keys s.response_map
  pub below : Below s.next_message_id s.response_map
  pub settled : s.running ≡ false → s.response_map ≡ []

pub start-Valid : Valid start
start-Valid = record { keys = tt; below = tt; settled = λ e. refl }

pub delete_fresh : (k : ℕ) (m : List Entry) → FreshKey k m → delete k m ≡ m
unfolding delete
delete_fresh k [] h = refl
delete_fresh k ((j, v) ∷ m) (n, h) = ground (arith, n, delete_fresh k m h)

pub delete-All : (P : Entry → Type 0) (k : ℕ) (m : List Entry) → All P m → All P (delete k m)
unfolding delete
delete-All P k [] h = tt
delete-All P k ((j, v) ∷ m) (p, h) = elim (Bool-cases (j == k)) [
  | inl e ↦ rw e (delete-All P k m h)
  | inr e ↦ rw e (p, delete-All P k m h)
]

pub delete-Keys : (k : ℕ) (m : List Entry) → Keys m → Keys (delete k m)
unfolding delete
delete-Keys k [] h = tt
delete-Keys k ((j, v) ∷ m) (f, h) = elim (Bool-cases (j == k)) [
  | inl e ↦ rw e (delete-Keys k m h)
  | inr e ↦ rw e (delete-All (λ p. p.0 ≢ j) k m f, delete-Keys k m h)
]

pub live-All :
    (P : Entry → Type 0) (timeout now : ℕ) (m : List Entry) → All P m → All P (live timeout now m)
unfolding live
live-All P t now [] h = tt
live-All P t now ((j, v) ∷ m) (p, h) = elim (Bool-cases (ltb t (now - v.time))) [
  | inl e ↦ rw e (live-All P t now m h)
  | inr e ↦ rw e (p, live-All P t now m h)
]

pub live-Keys : (timeout now : ℕ) (m : List Entry) → Keys m → Keys (live timeout now m)
unfolding live
live-Keys t now [] h = tt
live-Keys t now ((j, v) ∷ m) (f, h) = elim (Bool-cases (ltb t (now - v.time))) [
  | inl e ↦ rw e (live-Keys t now m h)
  | inr e ↦ rw e (live-All (λ p. p.0 ≢ j) t now m f, live-Keys t now m h)
]

pub Below-mono : (n n' : ℕ) (m : List Entry) → n ≤ n' → Below n m → Below n' m
Below-mono n n' m h = All-map (λ p. p.0 < n) (λ p. p.0 < n') (λ p q. omega arith) m

pub Below-FreshKey : (n : ℕ) (m : List Entry) → Below n m → FreshKey n m
Below-FreshKey n m = All-map (λ p. p.0 < n) (λ p. p.0 ≢ n) (λ p q. omega arith) m

module _ (w : Ticket → ℕ) where
  -- The weight of pending entries, of deliveries, of drops, and of all three.
  abbrev pub pending : List Entry → ℕ
  pending = total (λ p. w (of_entry p))

  abbrev pub answers : List (ℕ × Response) → ℕ
  answers = total (λ d. w (of_delivery d))

  abbrev pub drops : List ResponseStore → ℕ
  drops = total (λ st. w (of_store st))

  abbrev pub books : Session → ℕ
  books s = answers s.delivered + drops s.dropped + pending s.response_map

  pub answer_all-answers : (e : ConnError) (m : List Entry) → answers (answer_all e m) ≡ pending m
  unfolding answer_all
  answer_all-answers e [] = refl
  answer_all-answers e ((k, st) ∷ m) = omega (arith, answer_all-answers e m)

  pub expired-live :
      (t now : ℕ) (m : List Entry) → answers (expired t now m) + pending (live t now m) ≡ pending m
  unfolding expired live
  expired-live t now [] = refl
  expired-live t now ((k, st) ∷ m) = elim (Bool-cases (ltb t (now - st.time))) [
    | inl e ↦ rw e (omega (arith, expired-live t now m))
    | inr e ↦ rw e (omega (arith, expired-live t now m))
  ]

  pub find-delete :
      (k : ℕ) (m : List Entry) (st : ResponseStore)
      → Keys m
      → find k m ≡ some st
      → w (of_store st) + pending (delete k m) ≡ pending m
  unfolding find delete
  find-delete k [] st h e = cc
  find-delete k ((j, v) ∷ m) st (f, h) e = elim (Bool-cases (j == k)) [
    | inl hit ↦
        rw hit
          (ground (arith, hit, delete_fresh k m (subst (λ i. FreshKey i m) ((==_iff j k).0 hit) f)))
    | inr miss ↦ rw miss (omega (arith, find-delete k m st h (rw miss at e)))
  ]
