-- ===== src/Examples/Hashing.antt =====
-- Runs of `indexer/getBlock.go` and `indexer/client.go`.
use polkadot_worker.Base.{
  ℕ, ◌≤◌, ◌<◌, ◌≡◌, ◌⊎◌, inl, inr, refl, sym, Bool, true, false, List, [], ◌∷◌, Option, none, some,
  Bytes, codes, ◌==◌, if◌then◌else◌, ==_iff, Bool-cases, arith, ok, err, block, ◌++◌,
}
use polkadot_worker.Api.Session.{ConnError, Response, request_timedout}
use polkadot_worker.Indexer.Hashes.{
  Lru, Hashes, HashesError, Asking, ask_hashes, look_up, get_block_hashes,
}
use polkadot_worker.Indexer.Hashes.Chain.{
  hash_reply, of_block, of_parent, of_grandparent, Answers, Sound, missing, hashes_of_chain,
}
use polkadot_worker.Indexer.Hashes.Failing.{failed_reply}
use polkadot_worker.Indexer.Range.{get_latest_block_height_range}
use polkadot_worker.Indexer.Range.Window.{InWindow, latest_range_lem}
use polkadot_worker.Indexer.Others.{Gathered, empty_request, on_result, gather}
use polkadot_worker.Indexer.Others.Losing.{reads, seventh_reply}

-- A cache that never throws an entry out.
abbrev look_in : List (ℕ × Bytes) → ℕ → Option Bytes
look_in [] j = none
look_in ((k, v) ∷ c) j = if k == j then some v else look_in c j

pub look_in-add :
    (c : List (ℕ × Bytes)) (k j : ℕ) (v w : Bytes)
    → look_in ((k, v) ∷ c) j ≡ some w
    → ((j ≡ k) × (w ≡ v)) ⊎ (look_in c j ≡ some w)
look_in-add c k j v w h = elim (Bool-cases (k == j)) [
  | inl e ↦ inl (sym ((==_iff k j).0 e), ground (arith, e, h))
  | inr e ↦ inr (ground (arith, e, h))
]

abbrev pub full_cache : Lru
full_cache = record {
  Cache = List (ℕ × Bytes);
  look = look_in;
  touch = λ c k. c;
  add = λ c k v. (k, v) ∷ c;
  look-touch = λ c k j. refl;
  look-add = look_in-add;
}

abbrev pub chain : ℕ → Bytes
chain n = 97 ∷ n ∷ []

abbrev four_cached : List (ℕ × Bytes)
four_cached = (4, chain 4) ∷ []

four_cached-Sound : Sound full_cache chain 5 four_cached
four_cached-Sound k v h = elim (Bool-cases (4 == k)) [
  | inl e ↦ ground (arith, h, e, (==_iff 4 k).0 e)
  | inr e ↦ absurd (ground (arith, h, e))
]

-- The three replies, out of order.
abbrev three_replies : List Response
three_replies =
    hash_reply 6 (codes "chain_getBlockHash") (chain 3)
    ∷ hash_reply 1 (codes "chain_getBlockHash") (chain 5)
    ∷ hash_reply 5 (codes "chain_getBlockHash") (chain 4)
    ∷ []

pub three_ids :
    (b5 b1 b6 : Bool)
    → (if b6 then true else if b1 then true else if b5 then true else false)
      ≡ (if b1 then true else if b5 then true else if b6 then true else false)
three_ids true true true = refl
three_ids true true false = refl
three_ids true false true = refl
three_ids true false false = refl
three_ids false true true = refl
three_ids false true false = refl
three_ids false false true = refl
three_ids false false false = refl

three_replies-Answers :
    Answers full_cache chain 5 (missing full_cache chain 5 none none) three_replies
three_replies-Answers = record {
  truthful = (
    of_grandparent (codes "chain_getBlockHash"),
    (of_block (codes "chain_getBlockHash"), (of_parent (codes "chain_getBlockHash"), tt)),
  );
  as_many = refl;
  same_ids = λ id. three_ids (id == 5) (id == 1) (id == 6);
}

hashes_of_chain_example :
    (c' : List (ℕ × Bytes)) × Sound full_cache chain 5 c'
    × (get_block_hashes full_cache (λ q. none) 5 [] three_replies
        ≡ ok ((chain 5, chain 4, chain 3), c'))
hashes_of_chain_example =
    hashes_of_chain full_cache chain 5 [] three_replies (omega arith) (λ k v h. cc)
      three_replies-Answers

-- With the parent in the cache the grandparent's hash is the parent's.
one_reply-Answers :
    Answers full_cache chain 5
      (missing full_cache chain 5 none (some (chain 4)))
      (hash_reply 1 [] (chain 5) ∷ [])
one_reply-Answers = record { truthful = (of_block [], tt); as_many = refl; same_ids = λ id. refl }

parent_twice :
    (c' : List (ℕ × Bytes)) × Sound full_cache chain 5 c'
    × (get_block_hashes full_cache (λ q. none) 5 four_cached (hash_reply 1 [] (chain 5) ∷ [])
        ≡ ok ((chain 5, chain 4, chain 4), c'))
parent_twice =
    hashes_of_chain full_cache chain 5 four_cached (hash_reply 1 [] (chain 5) ∷ []) (omega arith)
      four_cached-Sound one_reply-Answers

abbrev timed_out_reply : Response
timed_out_reply = record {
  id = 1;
  error = some request_timedout;
  type = codes "chain_getBlockHash";
  result = [];
}

abbrev asked_five : Hashes × Asking full_cache
asked_five = (
  record { block_hash = []; parent_hash = []; grandparent_hash = []; error = none },
  record {
    cache = [];
    requests =
        record { id = 1; height = 5 }
        ∷ record { id = 5; height = 4 }
        ∷ record { id = 6; height = 3 }
        ∷ [];
  },
)

asks_five : ask_hashes full_cache (λ q. none) 5 [] ≡ ok asked_five
unfolding ask_hashes look_up
asks_five = refl

failed_reply_example :
    (e : HashesError) × (get_block_hashes full_cache
        (λ q. none)
        5
        []
        (hash_reply 6 [] (chain 3) ∷ timed_out_reply ∷ hash_reply 5 [] (chain 4) ∷ [])
      ≡ err e)
failed_reply_example =
    failed_reply full_cache (λ q. none) 5 [] asked_five.0 asked_five.1
      (hash_reply 6 [] (chain 3) ∷ timed_out_reply ∷ hash_reply 5 [] (chain 4) ∷ []) asks_five refl
      (inr (omega arith), (inl refl, (inr (omega arith), tt))) refl

latest_range_lem_example :
    ((0 < 90) ⊎ (20 ≤ 100) → InWindow 20 90 100 (get_latest_block_height_range 20 90 100))
    × (◌≡◌ {A = ℕ} 90 0 → 100 < 20 → 100 < (get_latest_block_height_range 20 90 100).start_height)
latest_range_lem_example = latest_range_lem 20 90 100 (omega arith) (omega arith) (omega arith)

abbrev no_block : Bytes → Option (Unit {0})
no_block s = none

abbrev blank : Gathered no_block no_block
blank = record { ddr = empty_request; block_part = none; version = none; error = none }

abbrev failed_storage : ℕ → Response
failed_storage id = record {
  id = id;
  error = some request_timedout;
  type = codes "state_getStorage";
  result = [];
}

-- The chain's name, and five failures.
abbrev six_replies : List Response
six_replies =
    record { id = 2; error = none; type = codes "system_chain"; result = codes "\"P\"" }
    ∷ failed_storage 8
    ∷ failed_storage 9
    ∷ failed_storage 10
    ∷ failed_storage 11
    ∷ failed_storage 7
    ∷ []

abbrev named : Gathered no_block no_block
named = record blank { ddr = record empty_request { chain = codes "P" } }

six_read : reads no_block no_block six_replies blank ≡ ok named
unfolding reads on_result
six_read = refl

seventh_reply_example :
    ((e : ConnError)
      → (failed_storage 13).error ≡ some e
      → gather no_block no_block 0 (six_replies ++ failed_storage 13 ∷ []) blank ≡ block)
    × ((failed_storage 13).error ≡ none
        → gather no_block no_block 0 (six_replies ++ failed_storage 13 ∷ []) blank
          ≡ on_result no_block no_block (failed_storage 13) named)
seventh_reply_example =
    seventh_reply no_block no_block six_replies (failed_storage 13) blank named refl six_read
