-- ===== src/Examples/Pooling.antt =====
-- Runs of `indexer/pool.go`.
use mathlib.Core.List.{Mem, mem-cons_self}
use polkadot_worker.Base.{ℕ, ◌≡◌, ◌≢◌, refl, true, [], ◌∷◌, some, ok, block}
use polkadot_worker.Channel.{make}
use polkadot_worker.Indexer.Pool.{get_block_kind, Pool, new, fresh, get, put}
use polkadot_worker.Indexer.Pool.Ownership.{World, Inv, gets, Step-Inv}
use polkadot_worker.Indexer.Pool.Service.{
  Reach, Reach-Inv, Hands, get_ready, get_twice, put_returns, get_closed,
}

abbrev empty_world : World ℕ
empty_world = record { pool = new [] 3; held = [] }

-- With channel 0 handed out.
abbrev pool_one : Pool ℕ
pool_one = record { heap = make 20 ∷ []; stor = []; cap = 3 }

abbrev pool_two : Pool ℕ
pool_two = record { heap = make 20 ∷ make 20 ∷ []; stor = []; cap = 3 }

abbrev world_one : World ℕ
world_one = record { pool = pool_one; held = 0 ∷ [] }

abbrev world_back : World ℕ
world_back = record { pool = record pool_one { stor = some 0 ∷ [] }; held = [] }

get_one : get get_block_kind empty_world.pool ≡ ok (some 0, pool_one)
unfolding get fresh
get_one = refl

get_two : get get_block_kind pool_one ≡ ok (some 1, pool_two)
unfolding get fresh
get_two = refl

empty_world-Inv : Inv empty_world
empty_world-Inv = Reach-Inv {k = get_block_kind} Reach.start

Step-Inv_example : Inv world_one
Step-Inv_example = Step-Inv get_block_kind (gets 0 get_one) empty_world-Inv

one_Reach : Reach get_block_kind [] 3 world_one
one_Reach = Reach.later Reach.start (gets 0 get_one)

ready : Hands get_block_kind world_one.pool
ready = get_ready get_block_kind world_one (Reach-Inv one_Reach)

returned : (q : Pool ℕ) × (put (some 0) world_one.pool ≡ ok q)
returned = put_returns world_one 0 (Reach-Inv one_Reach) mem-cons_self

two_channels : (◌≢◌ {A = ℕ} 0 1) × ¬ Mem 1 empty_world.held
two_channels = get_twice 0 1 pool_one pool_two Reach.start get_one get_two

abbrev closed_pool : Pool ℕ
closed_pool = record {
  heap = record { buffer = []; cap = 20; closed = true } ∷ [];
  stor = some 0 ∷ [];
  cap = 3;
}

closed_in_front : get get_block_kind closed_pool ≡ block
closed_in_front =
    get_closed get_block_kind closed_pool 0 [] (record { buffer = []; cap = 20; closed = true })
      refl refl refl
