-- ===== src/Channel.antt =====
-- Go channels as the code of `indexer/pool.go` uses them: a buffer with a capacity, a `close`, and
-- a `select` with a `default`. A channel is a number, its index in the heap of all channels made.
use polkadot_worker.Base.{
  ℕ, zero, suc, ◌<◌, ◌≡◌, refl, Bool, true, false, List, [], ◌∷◌, Option, none, some, arith, length,
}

pub record Chan (A : Type 0) : Type 0 where
  pub buffer : List A
  pub cap : ℕ
  pub closed : Bool

module _ {A : Type 0} where
  -- `make(chan A, cap)`
  abbrev pub make : ℕ → Chan A
  make cap = record { buffer = []; cap = cap; closed = false }

  -- `for { select { case <-c: default: return } }`, one round for each unit of fuel. A receive from
  -- a closed channel is always ready, so the loop does not leave one. `none`: the fuel ran out.
  unfoldable pub drain_loop : ℕ → List A → Chan A → Option (Chan A)
  drain_loop zero buffer c = none
  drain_loop (suc fuel) (x ∷ rest) c = drain_loop fuel rest c
  drain_loop (suc fuel) [] c =
      let again = drain_loop fuel [] c in
      elim c.closed [ true ↦ again | false ↦ some (record c { buffer = [] }) ]

  -- The fuel that an open channel needs: a round for each value, and one for `default`.
  abbrev pub drain : Chan A → Option (Chan A)
  drain c = drain_loop (suc (length c.buffer)) c.buffer c

  -- An open channel is emptied.
  pub drain_loop_open :
      (fuel : ℕ) (buffer : List A) (c : Chan A)
      → c.closed ≡ false
      → length buffer < fuel
      → drain_loop fuel buffer c ≡ some (record c { buffer = [] })
  unfolding drain_loop
  drain_loop_open zero buffer c o h = elim h [ ]
  drain_loop_open (suc fuel) (x ∷ rest) c o h = drain_loop_open fuel rest c o (omega arith)
  drain_loop_open (suc fuel) [] c o h = rw o

  pub drain_open : (c : Chan A) → c.closed ≡ false → drain c ≡ some (record c { buffer = [] })
  drain_open c o = drain_loop_open (suc (length c.buffer)) c.buffer c o (omega arith)

  -- No fuel is enough for a closed channel.
  pub drain_loop_closed :
      (fuel : ℕ) (buffer : List A) (c : Chan A) → c.closed ≡ true → drain_loop fuel buffer c ≡ none
  unfolding drain_loop
  drain_loop_closed zero buffer c o = refl
  drain_loop_closed (suc fuel) (x ∷ rest) c o = drain_loop_closed fuel rest c o
  drain_loop_closed (suc fuel) [] c o = ground (arith, drain_loop_closed fuel [] c o)
