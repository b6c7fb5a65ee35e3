-- ===== src/Indexer/Pool.antt =====
-- `indexer/pool.go`: the three channel pools. They differ in the buffer of a new channel and in
-- `outRespPool.Get`, which replaces a stored nil channel. The mutex makes each call one step.
pub mod Ownership
pub mod Service
use polkadot_worker.Base.{
  ℕ, suc, ◌+◌, ◌<◌, ◌≡◌, refl, Bool, true, false, List, [], ◌∷◌, ◌++◌, Option, none, some, length,
  get_elem?, set, ltb, if◌then◌else◌, Outcome, ok, err, panic, block, ◌>>=◌, or_panic,
}
use polkadot_worker.Channel.{Chan, make, drain}

-- What sets one kind of pool apart from the others.
pub record Kind : Type 0 where
  pub buffer : ℕ
  pub replaces_nil : Bool

abbrev pub out_resp_kind : Kind
out_resp_kind = record { buffer = 1000; replaces_nil = true }

abbrev pub hbtx_kind : Kind
hbtx_kind = record { buffer = 10; replaces_nil = false }

abbrev pub get_block_kind : Kind
get_block_kind = record { buffer = 20; replaces_nil = false }

-- `stor` with its capacity, and the heap that its channels lie in. `none` is a nil channel.
pub record Pool (A : Type 0) : Type 0 where
  pub heap : List (Chan A)
  pub stor : List (Option ℕ)
  pub cap : ℕ

module _ {A : Type 0} where
  -- `NewOutRespPool`, `NewHBTxPool`, `NewGetBlockPool`
  abbrev pub new : List (Chan A) → ℕ → Pool A
  new heap cap = record { heap = heap; stor = []; cap = cap }

  unfoldable pub fresh : Kind → Pool A → Option ℕ × Pool A
  fresh k p = (some (length p.heap), record p { heap = p.heap ++ make k.buffer ∷ [] })

  -- The drain of a channel that was in the pool. A nil channel is never ready, so its drain ends
  -- at once by `default`; a closed one never ends.
  unfoldable pub drained : Option ℕ → Pool A → Outcome (Unit {0}) (Option ℕ × Pool A)
  drained none p = ok (none, p)
  drained (some i) p = do
    c ← or_panic (get_elem? p.heap i)
    elim (drain c) [ none ↦ block | some d ↦ ok (some i, record p { heap = set p.heap i d }) ]

  unfoldable pub take_out : Kind → Option ℕ → Pool A → Outcome (Unit {0}) (Option ℕ × Pool A)
  unfolding fresh drained
  take_out k none p = if k.replaces_nil then ok (fresh k p) else drained none p
  take_out k (some i) p = drained (some i) p

  unfoldable pub get_from : Kind → List (Option ℕ) → Pool A → Outcome (Unit {0}) (Option ℕ × Pool A)
  unfolding fresh take_out
  get_from k [] p = ok (fresh k p)
  get_from k (a ∷ rest) p = take_out k a (record p { stor = rest })

  -- `Get`
  unfoldable pub get : Kind → Pool A → Outcome (Unit {0}) (Option ℕ × Pool A)
  unfolding get_from
  get k p = get_from k p.stor p

  -- `close(c)`: a panic on a nil channel and on one that is closed already.
  unfoldable pub close : Option ℕ → Pool A → Outcome (Unit {0}) (Pool A)
  close none p = panic
  close (some i) p = do
    c ← or_panic (get_elem? p.heap i)
    if c.closed then panic else ok (record p { heap = set p.heap i (record c { closed = true }) })

  -- `Put`
  unfoldable pub put : Option ℕ → Pool A → Outcome (Unit {0}) (Pool A)
  unfolding close
  put c p =
      if ltb (length p.stor) p.cap then ok (record p { stor = p.stor ++ c ∷ [] }) else close c p
