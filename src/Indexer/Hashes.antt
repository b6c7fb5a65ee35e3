-- ===== src/Indexer/Hashes.antt =====
-- `indexer/getBlock.go`: `GetBlockHashes`. The cache of hashes is a `golang-lru`; what the node
-- answers is the list of responses in the order in which they arrive on the channel.
pub mod Chain
pub mod Failing
use polkadot_worker.Base.{
  ℕ, zero, suc, ◌+◌, ◌-◌, ◌≡◌, ◌⊎◌, Bool, List, [], ◌∷◌, ◌++◌, Option, none, some, Bytes, length,
  ltb, ◌==◌, if◌then◌else◌, cut_quotes, Outcome, ok, err, panic, block, ◌>>=◌, or_panic,
}
use polkadot_worker.Api.Session.{ConnError, Response}

-- `Get` is the value that is found and a new order of use; `Add` may throw out other entries.
pub record Lru : Type 1 where
  pub Cache : Type 0
  pub look : Cache → ℕ → Option Bytes
  pub touch : Cache → ℕ → Cache
  pub add : Cache → ℕ → Bytes → Cache
  pub look-touch : (c : Cache) (k j : ℕ) → look (touch c k) j ≡ look c j
  pub look-add :
      (c : Cache) (k j : ℕ) (v w : Bytes)
      → look (add c k v) j ≡ some w
      → ((j ≡ k) × (w ≡ v)) ⊎ (look c j ≡ some w)

abbrev pub request_block_hash : ℕ
request_block_hash = 1

abbrev pub request_parent_block_hash : ℕ
request_parent_block_hash = 5

abbrev pub request_grandparent_block_hash : ℕ
request_grandparent_block_hash = 6

pub data HashesError : Type 0 where
  not_sent : ConnError → HashesError
  node_error : ConnError → HashesError
  block_hash_empty parent_hash_empty grandparent_hash_empty : HashesError

-- A `chain_getBlockHash` request: its identifier, and the height that it asks for.
pub record HashRequest : Type 0 where
  pub id : ℕ
  pub height : ℕ

-- `none` is a nil error.
pub record Hashes : Type 0 where
  pub block_hash : Bytes
  pub parent_hash : Bytes
  pub grandparent_hash : Bytes
  pub error : Option HashesError

module _ (lru : Lru) where
  open lru use {Cache, look, touch, add}

  -- The cache, and the requests that were sent; their number is `expected`.
  pub record Asking : Type 0 where
    pub cache : Cache
    pub requests : List HashRequest

  abbrev pub sent : HashRequest → Asking → Option ConnError → Outcome HashesError (Bytes × Asking)
  sent q a (some e) = err (not_sent e)
  sent q a none = ok ([], record a { requests = a.requests ++ q ∷ [] })

  module _ (send : HashRequest → Option ConnError) where
    -- A look-up in the cache, and the request if it finds nothing.
    unfoldable pub look_up : ℕ → HashRequest → Asking → Outcome HashesError (Bytes × Asking)
    look_up key q a =
        let a' = record a { cache = touch a.cache key } in
        elim (look a.cache key) [ some h ↦ ok (h, a') | none ↦ sent q a' (send q) ]

    unfoldable pub ask_hashes : ℕ → Cache → Outcome HashesError (Hashes × Asking)
    ask_hashes height cache = do
      (b, a1) ←
          look_up height (record { id = request_block_hash; height = height })
            (record { cache = cache; requests = [] })
      (p, a2) ←
          if ltb 0 height
          then look_up (height - 1) (record { id = request_parent_block_hash; height = height - 1 })
              a1
          else ok ([], a1)
      (g, a3) ←
          if ltb 1 height
          then look_up (height - 1)
              (record { id = request_grandparent_block_hash; height = height - 2 }) a2
          else ok ([], a2)
      ok (record { block_hash = b; parent_hash = p; grandparent_hash = g; error = none }, a3)

  -- A result is taken without its quotes; an empty one is an error that the loop keeps.
  abbrev pub with_hash :
      Bytes → HashesError → Hashes → (Bytes → Hashes) → Outcome HashesError Hashes
  with_hash [] e h f = ok (record h { error = some e })
  with_hash (c ∷ s) e h f = do cut ← or_panic (cut_quotes (c ∷ s)); ok (f cut)

  -- The `switch`, for the hashes.
  unfoldable pub assign : Response → Hashes → Outcome HashesError Hashes
  assign r h =
      if r.id == request_block_hash
      then with_hash r.result block_hash_empty h (λ s. record h { block_hash = s })
      else if r.id == request_parent_block_hash
      then with_hash r.result parent_hash_empty h (λ s. record h { parent_hash = s })
      else if r.id == request_grandparent_block_hash
      then with_hash r.result grandparent_hash_empty h (λ s. record h { grandparent_hash = s })
      else ok h

  -- The `switch`, for the cache: only the block's own hash is added.
  abbrev pub cut_added : ℕ → Option Bytes → Cache → Cache
  cut_added height none c = c
  cut_added height (some s) c = add c height s

  unfoldable pub cached : ℕ → Response → Cache → Cache
  cached height r c =
      if r.id == request_block_hash then cut_added height (cut_quotes r.result) c else c

  unfoldable pub on_error :
      Option ConnError → ℕ → Response → Hashes → Cache → Outcome HashesError (Hashes × Cache)
  on_error (some e) height r h c = ok (record h { error = some (node_error e) }, c)
  on_error none height r h c = assign r h >>= λ h'. ok (h', cached height r c)

  abbrev pub on_reply : ℕ → Response → Hashes → Cache → Outcome HashesError (Hashes × Cache)
  on_reply height r h c = on_error r.error height r h c

  -- The loop, with the number of responses that it still waits for.
  unfoldable pub collect :
      ℕ → ℕ → List Response → Hashes → Cache → Outcome HashesError (Hashes × Cache)
  collect height zero rs h c = ok (h, c)
  collect height (suc n) [] h c = block
  collect height (suc n) (r ∷ rs) h c = do
    (h', c') ← on_reply height r h c
    collect height n rs h' c'

  abbrev pub by_height : ℕ → Hashes → Bytes × Bytes × Bytes
  by_height zero h = (h.block_hash, h.block_hash, h.block_hash)
  by_height (suc zero) h = (h.block_hash, h.parent_hash, h.parent_hash)
  by_height (suc (suc n)) h = (h.block_hash, h.parent_hash, h.grandparent_hash)

  abbrev pub closing : ℕ → Hashes → Cache → Outcome HashesError ((Bytes × Bytes × Bytes) × Cache)
  closing height h c = elim h.error [ some e ↦ err e | none ↦ ok (by_height height h, c) ]

  -- Nothing was asked for: the hashes are returned as they were found.
  unfoldable pub await_hashes :
      ℕ
      → List HashRequest
      → List Response
      → Hashes
      → Cache
      → Outcome HashesError ((Bytes × Bytes × Bytes) × Cache)
  await_hashes height [] rs h c = ok ((h.block_hash, h.parent_hash, h.grandparent_hash), c)
  await_hashes height (q ∷ qs) rs h c = do
    (h', c') ← collect height (length (q ∷ qs)) rs h c
    closing height h' c'

  unfoldable pub get_block_hashes :
      (HashRequest → Option ConnError)
      → ℕ
      → Cache
      → List Response
      → Outcome HashesError ((Bytes × Bytes × Bytes) × Cache)
  get_block_hashes send height cache rs = do
    (h, a) ← ask_hashes send height cache
    await_hashes height a.requests rs h a.cache
