-- ===== src/Indexer/Hashes/Failing.antt =====
-- What `GetBlockHashes` of `indexer/getBlock.go` makes of replies that carry errors.
use polkadot_worker.Base.{
  ℕ, suc, ◌-◌, ◌≡◌, ◌≢◌, ◌⊎◌, inl, inr, refl, subst, Bool, true, false, List, [], ◌∷◌, Option, none,
  some, Bytes, length, leb, ◌==◌, if◌then◌else◌, cut_quotes, take, All, Outcome, ok, err, ◌>>=◌,
  arith, Bool-cases,
}
use polkadot_worker.Api.Session.{ConnError, Response}
use polkadot_worker.Indexer.Hashes.{
  Lru, HashRequest, Hashes, HashesError, Asking, ask_hashes, with_hash, assign, cached, on_error,
  collect, closing, await_hashes, get_block_hashes,
}

abbrev pub is_some : {A : Type 0} → Option A → Bool
is_some none = false
is_some (some _) = true

-- A reply that carries an error, or a result that is empty or has its two quotes.
abbrev pub Readable : Response → Type 0
Readable r = (is_some r.error ≡ true) ⊎ (length r.result ≢ 1)

abbrev pub any_error : List Response → Bool
any_error [] = false
any_error (r ∷ rs) = if is_some r.error then true else any_error rs

cut_two : (s : Bytes) → s ≢ [] → length s ≢ 1 → (t : Bytes) × (cut_quotes s ≡ some t)
cut_two [] n h = absurd (n refl)
cut_two (a ∷ []) n h = absurd (h refl)
cut_two (a ∷ b ∷ s) n h =
    let g : leb 2 (suc (suc (length s))) ≡ true = ground arith in
    (take (suc (suc (length s)) - 2) (b ∷ s), rw g refl)

either_error :
    (later now old new : Bool)
    → ((if now then true else old) ≡ true → new ≡ true)
    → (if (if now then true else later) then true else old) ≡ true
    → (if later then true else new) ≡ true
either_error true now old new k p = refl
either_error false true old new k p = k p
either_error false false old new k p = k p

module _ (lru : Lru) where
  open lru use {Cache}

  -- The loop's error is kept.
  abbrev Keeps : Hashes → Outcome HashesError Hashes → Type 0
  Keeps h m = (h' : Hashes) × (m ≡ ok h') × (is_some h.error ≡ true → is_some h'.error ≡ true)

  with_hash-Keeps :
      (s : Bytes) (e : HashesError) (h : Hashes) (f : Bytes → Hashes)
      → length s ≢ 1
      → ((t : Bytes) → (f t).error ≡ h.error)
      → Keeps h (with_hash lru s e h f)
  with_hash-Keeps [] e h f n k = (_, refl, λ p. refl)
  with_hash-Keeps (c ∷ s) e h f n k =
      let (t, q) = cut_two (c ∷ s) (λ p. cc) n in (f t, rw q refl, λ p. rw (k t) p)

  assign-Keeps : (r : Response) (h : Hashes) → length r.result ≢ 1 → Keeps h (assign lru r h)
  unfolding assign
  assign-Keeps r h n = elim (Bool-cases (r.id == 1)) [
    | inl a ↦ rw (assign, a) (with_hash-Keeps r.result _ h _ n (λ t. refl))
    | inr a ↦ elim (Bool-cases (r.id == 5)) [
      | inl b ↦ rw (assign, a, b) (with_hash-Keeps r.result _ h _ n (λ t. refl))
      | inr b ↦ elim (Bool-cases (r.id == 6)) [
        | inl c ↦ rw (assign, a, b, c) (with_hash-Keeps r.result _ h _ n (λ t. refl))
        | inr c ↦ rw (assign, a, b, c) (h, refl, λ p. p)
      ]
    ]
  ]

  -- A step of the loop returns, keeps an error, and takes one that the reply carries.
  on_error_total :
      (x : Option ConnError) (height : ℕ) (r : Response) (h : Hashes) (c : Cache)
      → (is_some x ≡ true) ⊎ (length r.result ≢ 1)
      → (h' : Hashes) × (c' : Cache) × (on_error lru x height r h c ≡ ok (h', c'))
        × ((if is_some x then true else is_some h.error) ≡ true → is_some h'.error ≡ true)
  unfolding on_error
  on_error_total (some e) height r h c l = (_, c, refl, λ p. refl)
  on_error_total none height r h c (inl k) = cc
  on_error_total none height r h c (inr n) =
      let (h', q, k) = assign-Keeps r h n in (h', cached lru height r c, rw (q, ◌>>=◌) refl, k)

  -- So the loop returns once it has as many readable replies as it waits for.
  collect_total :
      (height : ℕ) (rs : List Response) (h : Hashes) (c : Cache)
      → All Readable rs
      → (h' : Hashes) × (c' : Cache) × (collect lru height (length rs) rs h c ≡ ok (h', c'))
        × ((if any_error rs then true else is_some h.error) ≡ true → is_some h'.error ≡ true)
  unfolding collect
  collect_total height [] h c t = (h, c, refl, λ p. p)
  collect_total height (r ∷ rs) h c (l, t) =
      let (h1, c1, e1, k1) = on_error_total r.error height r h c l in
      let (h2, c2, e2, k2) = collect_total height rs h1 c1 t in
      (h2, c2, rw (e1, ◌>>=◌) e2, λ p. k2 (either_error (any_error rs) (is_some r.error) _ _ k1 p))

  some_error : (x : Option HashesError) → is_some x ≡ true → (e : HashesError) × (x ≡ some e)
  some_error none h = cc
  some_error (some e) h = (e, refl)

  closing_failed :
      (height : ℕ) (h : Hashes) (c : Cache) (e : HashesError)
      → h.error ≡ some e
      → closing lru height h c ≡ err e
  closing_failed height h c e q = rw q refl

  await_failed :
      (height : ℕ) (qs : List HashRequest) (rs : List Response) (h : Hashes) (c : Cache)
      → length rs ≡ length qs
      → All Readable rs
      → any_error rs ≡ true
      → (e : HashesError) × (await_hashes lru height qs rs h c ≡ err e)
  unfolding await_hashes
  await_failed height [] [] h c n t k = cc
  await_failed height [] (r ∷ rs) h c n t k = absurd (omega (arith, n))
  await_failed height (q ∷ qs) rs h c n t k =
      let (h', c', e, f) = collect_total height rs h c t in
      let (x, z) = some_error h'.error (f (rw k refl)) in
      let e' = subst (λ m. collect lru height m rs h c ≡ ok (h', c')) n e in
      (x, rw (e', ◌>>=◌) (closing_failed height h' c' x z))

  -- At every height: when all requests are sent, there is a reply for each of them, every reply
  -- carries an error or a result that is empty or has its two quotes, and at least one carries an
  -- error, then the call returns an error, in whichever place that reply comes.
  pub failed_reply :
      (send : HashRequest → Option ConnError) (height : ℕ) (c : Cache) (h : Hashes) (a : Asking lru)
      (rs : List Response)
      → ask_hashes lru send height c ≡ ok (h, a)
      → length rs ≡ length a.requests
      → All Readable rs
      → any_error rs ≡ true
      → (e : HashesError) × (get_block_hashes lru send height c rs ≡ err e)
  unfolding get_block_hashes
  failed_reply send height c h a rs q n t k =
      rw (q, ◌>>=◌) (await_failed height a.requests rs h a.cache n t k)
