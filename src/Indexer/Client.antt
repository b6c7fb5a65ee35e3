-- ===== src/Indexer/Client.antt =====
-- `NewClient` of `indexer/client.go`. The divider of the two mappers is computed from `exp` where it
-- is used; the requester of ranges is the library's.
use polkadot_worker.Base.{ℕ, [], Option, none, some, Outcome, ok, panic}
use polkadot_worker.Api.Session.{Response}
use polkadot_worker.Scale.Storage.{DecodeStorage}
use polkadot_worker.Indexer.Pool.{Pool, new}
use polkadot_worker.Indexer.Hashes.{Lru}
use polkadot_worker.Indexer.Block.{Settings}
use polkadot_worker.Indexer.Run.{Streams}

-- `P` is the type of the client of polkadothub-proxy and `S` that of the search store; `none` is nil.
pub record Client (lru : Lru) (D P S V : Type 0) : Type 0 where
  pub cache : lru.Cache
  pub settings : Settings
  pub max_heights_to_get : ℕ
  pub gb_pool : Pool Response
  pub proxy : Option P
  pub streams : Streams V
  pub ds : DecodeStorage D
  pub range_workers : ℕ
  pub search_store : Option S

module _ {D P S V : Type 0} (lru : Lru) where
  abbrev pub with_cache :
      Option P → DecodeStorage D → Option S → Settings → ℕ → lru.Cache → Client lru D P S V
  with_cache proxy ds ss set max_heights_to_get cache = record {
    cache = cache;
    settings = set;
    max_heights_to_get = max_heights_to_get;
    gb_pool = new [] 300;
    proxy = proxy;
    streams = record { streams = []; running = [] };
    ds = ds;
    range_workers = 20;
    search_store = ss;
  }

  abbrev pub or_fatal :
      {A E : Type 0} → (A → Client lru D P S V) → Option A → Outcome E (Client lru D P S V)
  or_fatal f none = panic
  or_fatal f (some cache) = ok (f cache)

  -- `new_lru` is `lru.New`, `none` its error.
  unfoldable pub new_client :
      {E : Type 0}
      → (ℕ → Option lru.Cache)
      → Option P
      → DecodeStorage D
      → Option S
      → Settings
      → ℕ
      → Outcome E (Client lru D P S V)
  new_client new_lru proxy ds ss set max_heights_to_get =
      or_fatal (with_cache proxy ds ss set max_heights_to_get) (new_lru 3000)
