-- ===== src/Indexer/Hashes/Chain.antt =====
-- The hashes that `GetBlockHashes` of `indexer/getBlock.go` returns when the node answers.
use polkadot_worker.Base.{
  ℕ, zero, suc, ◌-◌, ◌≤◌, ◌≡◌, inl, inr, refl, sym, ap, ◌∙◌, subst, Bool, true, false, List, [],
  ◌∷◌, ◌++◌, map, Option, none, some, Bytes, length, length-append, take, leb, ltb, ◌==◌,
  if◌then◌else◌, cut_quotes, All, ok, ◌>>=◌, arith,
}
use polkadot_worker.Api.Session.{ConnError, Response}
use polkadot_worker.Indexer.Hashes.{
  Lru, HashRequest, Hashes, look_up, ask_hashes, assign, cached, on_error, collect, by_height,
  await_hashes, get_block_hashes,
}

-- A JSON string.
abbrev pub quoted : Bytes → Bytes
quoted s = 34 ∷ s ++ 34 ∷ []

abbrev pub hash_reply : ℕ → Bytes → Bytes → Response
hash_reply id type h = record { id = id; error = none; type = type; result = quoted h }

-- A reply with the hash that the chain has at the height that was asked for.
pub data Truthful (chain : ℕ → Bytes) (height : ℕ) : Response → Type 0 where
  of_block : (type : Bytes) → Truthful chain height (hash_reply 1 type (chain height))
  of_parent : (type : Bytes) → Truthful chain height (hash_reply 5 type (chain (height - 1)))
  of_grandparent : (type : Bytes) → Truthful chain height (hash_reply 6 type (chain (height - 2)))

abbrev pub response_id : Response → ℕ
response_id r = r.id

abbrev pub request_id : HashRequest → ℕ
request_id q = q.id

abbrev pub has : ℕ → List ℕ → Bool
has j [] = false
has j (k ∷ ks) = if j == k then true else has j ks

take-length : (s t : Bytes) → take (length s) (s ++ t) ≡ s
take-length [] t = refl
take-length (c ∷ s) t = ap (◌∷◌ c) (take-length s t)

pub cut-quoted : (s : Bytes) → cut_quotes (quoted s) ≡ some s
cut-quoted s =
    let e : length (s ++ 34 ∷ []) ≡ suc (length s) = omega (arith, length-append s (34 ∷ [])) in
    let f : suc (suc (length s)) - 2 ≡ length s = omega arith in
    let g : leb 2 (suc (suc (length s))) ≡ true = ground arith in
    rw (e, g, f) (ap some (take-length s (34 ∷ [])))

-- With the same text on both sides it does not matter which one is taken.
if_same : (b : Bool) (x : Bytes) → (if b then x else x) ≡ x
if_same true x = refl
if_same false x = refl

by_height_above :
    (lru : Lru) (n : ℕ) (h : Hashes)
    → 2 ≤ n
    → by_height lru n h ≡ (h.block_hash, h.parent_hash, h.grandparent_hash)
by_height_above lru zero h l = absurd (omega arith)
by_height_above lru (suc zero) h l = absurd (omega arith)
by_height_above lru (suc (suc n)) h l = refl

module _ (lru : Lru) (chain : ℕ → Bytes) (height : ℕ) where
  open lru use {Cache, look, touch, add, look-touch, look-add}

  -- Every hash in the cache is the chain's.
  abbrev pub Sound : Cache → Type 0
  Sound c = (k : ℕ) (v : Bytes) → look c k ≡ some v → v ≡ chain k

  touch-Sound : (c : Cache) (k : ℕ) → Sound c → Sound (touch c k)
  touch-Sound c k s j v h = s j v (sym (look-touch c k j) ∙ h)

  add-Sound : (c : Cache) (k : ℕ) → Sound c → Sound (add c k (chain k))
  add-Sound c k s j v h = elim (look-add c k j (chain k) v h) [
    | inl (p, q) ↦ q ∙ ap chain (sym p)
    | inr q ↦ s j v q
  ]

  -- What a list of truthful replies makes of the hashes.
  abbrev settled : Bool → Bytes → Bytes → Bytes
  settled b new old = if b then new else old

  abbrev after : List ℕ → Hashes → Hashes
  after ids h = record h {
    block_hash = settled (has 1 ids) (chain height) h.block_hash;
    parent_hash = settled (has 5 ids) (chain (height - 1)) h.parent_hash;
    grandparent_hash = settled (has 6 ids) (chain (height - 2)) h.grandparent_hash;
  }

  collect-Truthful :
      (rs : List Response) (h : Hashes) (c : Cache)
      → All (Truthful chain height) rs
      → Sound c
      → (c' : Cache) × Sound c'
        × (collect lru height (length rs) rs h c ≡ ok (after (map response_id rs) h, c'))
  unfolding collect on_error assign cached
  collect-Truthful [] h c t s = (c, s, refl)
  collect-Truthful (r ∷ rs) h c (of_block type, t) s =
      let (c', s', e) =
        collect-Truthful rs (record h { block_hash = chain height }) (add c height (chain height)) t
          (add-Sound c height s) in
      (
        c',
        s',
        rw (cut-quoted (chain height), e, if_same (has 1 (map response_id rs)) (chain height)),
      )
  collect-Truthful (r ∷ rs) h c (of_parent type, t) s =
      let (c', s', e) = collect-Truthful rs (record h { parent_hash = chain (height - 1) }) c t s in
      (
        c',
        s',
        rw (
          cut-quoted (chain (height - 1)),
          e,
          if_same (has 5 (map response_id rs)) (chain (height - 1)),
        ),
      )
  collect-Truthful (r ∷ rs) h c (of_grandparent type, t) s =
      let (c', s', e) =
        collect-Truthful rs (record h { grandparent_hash = chain (height - 2) }) c t s in
      (
        c',
        s',
        rw (
          cut-quoted (chain (height - 2)),
          e,
          if_same (has 6 (map response_id rs)) (chain (height - 2)),
        ),
      )

  abbrev all_sent : HashRequest → Option ConnError
  all_sent q = none

  -- The grandparent's hash: that of the parent if the parent was found in the cache.
  abbrev pub third_hash : Option Bytes → Bytes
  third_hash (some _) = chain (height - 1)
  third_hash none = chain (height - 2)

  abbrev pub found_or : Option Bytes → Bytes
  found_or (some h) = h
  found_or none = []

  abbrev pub asked_for : HashRequest → List HashRequest → Option Bytes → List HashRequest
  asked_for q qs (some _) = qs
  asked_for q qs none = qs ++ q ∷ []

  -- What is asked for: what the cache does not have, and the grandparent if it lacks the parent.
  abbrev pub missing : Option Bytes → Option Bytes → List HashRequest
  missing b p =
      asked_for (record { id = 6; height = height - 2 })
        (asked_for (record { id = 5; height = height - 1 })
          (asked_for (record { id = 1; height = height }) [] b) p)
        p

  look_up_found :
      (key : ℕ) (q : HashRequest) (c : Cache) (qs : List HashRequest) (p : Option Bytes)
      → look c key ≡ p
      → look_up lru all_sent key q (record { cache = c; requests = qs })
        ≡ ok (found_or p, record { cache = touch c key; requests = asked_for q qs p })
  unfolding look_up
  look_up_found key q c qs none e = rw (e, look_up)
  look_up_found key q c qs (some v) e = rw (e, look_up)

  -- What the first half asks for.
  ask_above_one :
      (c : Cache) (b p : Option Bytes)
      → 2 ≤ height
      → look c height ≡ b
      → look c (height - 1) ≡ p
      → ask_hashes lru all_sent height c
        ≡ ok (
          record {
            block_hash = found_or b;
            parent_hash = found_or p;
            grandparent_hash = found_or p;
            error = none;
          },
          record {
            cache = touch (touch (touch c height) (height - 1)) (height - 1);
            requests = missing b p;
          },
        )
  unfolding ask_hashes
  ask_above_one c b p h e f =
      let g0 : ltb 0 height ≡ true = ground arith in
      let g1 : ltb 1 height ≡ true = ground arith in
      let f1 : look (touch c height) (height - 1) ≡ p = look-touch c height (height - 1) ∙ f in
      let f2 : look (touch (touch c height) (height - 1)) (height - 1) ≡ p =
        look-touch (touch c height) (height - 1) (height - 1) ∙ f1 in
      rw (look_up_found height (record { id = 1; height = height }) c [] b e, ◌>>=◌)
        (rw
          (
            g0,
            look_up_found (height - 1) (record { id = 5; height = height - 1 }) (touch c height) _ p
                f1,
            ◌>>=◌,
          )
          (rw
            (
              g1,
              look_up_found (height - 1) (record { id = 6; height = height - 2 })
                  (touch (touch c height) (height - 1)) _ p f2,
            )
            refl))

  abbrev found : Option Bytes → Option Bytes → Hashes
  found b p = record {
    block_hash = found_or b;
    parent_hash = found_or p;
    grandparent_hash = found_or p;
    error = none;
  }

  -- The three hashes as they should be.
  abbrev pub chain_hashes : Option Bytes → Bytes × Bytes × Bytes
  chain_hashes p = (chain height, chain (height - 1), third_hash p)

  -- The replies are to the requests: as many, and with the same identifiers.
  pub record Answers (qs : List HashRequest) (rs : List Response) : Type 0 where
    pub truthful : All (Truthful chain height) rs
    pub as_many : length rs ≡ length qs
    pub same_ids : (id : ℕ) → has id (map response_id rs) ≡ has id (map request_id qs)

  -- After an answer to everything that was asked for.
  await_replied :
      (c : Cache) (b p : Option Bytes) (q : HashRequest) (qs : List HashRequest)
      (rs : List Response)
      → 2 ≤ height
      → Sound c
      → Answers (q ∷ qs) rs
      → (c' : Cache) × Sound c'
        × (await_hashes lru height (q ∷ qs) rs (found b p) c
            ≡ ok (
              (
                settled (has 1 (map request_id (q ∷ qs))) (chain height) (found_or b),
                settled (has 5 (map request_id (q ∷ qs))) (chain (height - 1)) (found_or p),
                settled (has 6 (map request_id (q ∷ qs))) (chain (height - 2)) (found_or p),
              ),
              c',
            ))
  unfolding await_hashes
  await_replied c b p q qs rs h s a =
      let (c', s', e) = collect-Truthful rs (found b p) c a.truthful s in
      let e' =
        subst
          (λ n.
            collect lru height n rs (found b p) c ≡ ok (after (map response_id rs) (found b p), c'))
          a.as_many e in
      (
        c',
        s',
        rw (e', ◌>>=◌)
            (rw (by_height_above lru height _ h, a.same_ids 1, a.same_ids 5, a.same_ids 6) refl),
      )

  await_found :
      (c : Cache) (b p : Option Bytes) (rs : List Response)
      → 2 ≤ height
      → Sound c
      → ((v : Bytes) → b ≡ some v → v ≡ chain height)
      → ((v : Bytes) → p ≡ some v → v ≡ chain (height - 1))
      → Answers (missing b p) rs
      → (c' : Cache) × Sound c'
        × (await_hashes lru height (missing b p) rs (found b p) c ≡ ok (chain_hashes p, c'))
  unfolding await_hashes
  await_found c (some v) (some w) rs h s fb fp a = (c, s, rw (fb v refl, fp w refl) refl)
  await_found c (some v) none rs h s fb fp a =
      let (c', s', e) = await_replied c (some v) none _ _ rs h s a in
      (c', s', e ∙ rw (fb v refl) refl)
  await_found c none (some w) rs h s fb fp a =
      let (c', s', e) = await_replied c none (some w) _ _ rs h s a in
      (c', s', e ∙ rw (fp w refl) refl)
  await_found c none none rs h s fb fp a = await_replied c none none _ _ rs h s a

  -- At a height above one, with a cache that has only hashes of the chain, when every request is
  -- sent and the node answers them, in any order, with the chain's hashes: the call returns the
  -- hashes of the block and of its parent, and as the grandparent's the chain's hash two below the
  -- height if the cache lacks the parent, but the parent's hash if the cache has it. The cache still
  -- has only hashes of the chain.
  pub hashes_of_chain :
      (c : Cache) (rs : List Response)
      → 2 ≤ height
      → Sound c
      → Answers (missing (look c height) (look c (height - 1))) rs
      → (c' : Cache) × Sound c'
        × (get_block_hashes lru (λ q. none) height c rs
            ≡ ok (chain_hashes (look c (height - 1)), c'))
  unfolding get_block_hashes
  hashes_of_chain c rs h s a =
      rw (ask_above_one c (look c height) (look c (height - 1)) h refl refl, ◌>>=◌)
        (await_found _ (look c height) (look c (height - 1)) rs h
          (touch-Sound _ (height - 1) (touch-Sound _ (height - 1) (touch-Sound c height s)))
          (λ v. s height v) (λ v. s (height - 1) v) a)
