-- ===== src/Proxy/Client.antt =====
-- `proxy/client.go`: the calls of polkadothub-proxy. What the services answer and what the rate
-- limiter says are arguments; logs and metrics are left out.
pub mod Calls
pub mod Turns
use polkadot_worker.Base.{
  ℕ, ◌≡◌, Bool, true, false, List, [], ◌∷◌, Option, none, some, Bytes, Outcome, ok, err, panic,
  block,
}
use polkadot_worker.Base.Int.{ℤ, int64_bits}
use polkadot_worker.Proxy.Conns.{
  Service, ServiceClient, GrpConnections, account_service, block_service, chain_service,
  event_service, transaction_service, decode_service, get_next,
}

-- `structs/structs.go`
pub record DecodeDataRequest : Type 0 where
  pub block : Bytes
  pub chain : Bytes
  pub block_hash : Bytes
  pub events : Bytes
  pub timestamp : Bytes
  pub metadata_parent : Bytes
  pub runtime_parent : Bytes
  pub current_era : Bytes
  pub next_fee_multipier : Bytes

-- The fields of `decodepb.DecodeRequest`.
pub record DecodeRequest : Type 0 where
  pub metadata_parent : Bytes
  pub block : Bytes
  pub block_hash : Bytes
  pub events : Bytes
  pub timestamp : Bytes
  pub runtime_parent : Bytes
  pub current_era_parent : Bytes
  pub next_fee_multiplier_parent : Bytes
  pub chain : Bytes

-- What goes over the wire; heights are `int64` there.
pub data Request : Type 0 where
  decode : DecodeRequest → Request
  account_by_height : ℤ → Bytes → Request
  block_by_height : ℤ → Request
  events_by_height : ℤ → Request
  meta_by_height : ℤ → Request
  head : Request
  transactions_by_height : ℤ → Request

-- The errors that a method of the client returns: that of the limiter as it is, and that of the
-- service wrapped in a text with the height.
pub data ClientError (E : Type 0) : Type 0 where
  limited : E → ClientError E
  calling_decode : E → ClientError E
  account_balance_by_height : ℕ → E → ClientError E
  block_by_height : ℕ → E → ClientError E
  event_by_height : ℕ → E → ClientError E
  meta_by_height : ℕ → E → ClientError E
  getting_head : E → ClientError E
  transaction_by_height : ℕ → E → ClientError E

-- The services behind the connections: an answer or an error for each request.
pub data Answer (E R : Type 0) : Type 0 where
  reply : R → Answer E R
  fault : E → Answer E R

module _ {E R : Type 0} (serve : ServiceClient → Request → Answer E R) where
  abbrev pub Reply : Type 0
  Reply = Outcome (ClientError E) R × GrpConnections

  abbrev pub answered : (E → ClientError E) → Answer E R → Outcome (ClientError E) R
  answered f (reply r) = ok r
  answered f (fault e) = err (f e)

  -- `GetNext…Client` and the call on what it returns.
  unfoldable pub call : Service → Request → (E → ClientError E) → GrpConnections → Reply
  call s q f c = elim (get_next s c) [
    | ok (ac, d) ↦ (answered f (serve ac q), d)
    | err _ ↦ (panic, c)
    | panic ↦ (panic, c)
    | block ↦ (block, c)
  ]

  -- `c.rateLimiter.Wait(ctx)` with its early return.
  unfoldable pub after_wait : Option E → GrpConnections → Reply → Reply
  after_wait none c r = r
  after_wait (some e) c r = (err (limited e), c)

  unfoldable pub decode_data : DecodeDataRequest → ℕ → GrpConnections → Reply
  unfolding call
  decode_data ddr height c =
      call decode_service
        (decode (record {
          metadata_parent = ddr.metadata_parent;
          block = ddr.block;
          block_hash = ddr.block_hash;
          events = ddr.events;
          timestamp = ddr.timestamp;
          runtime_parent = ddr.runtime_parent;
          current_era_parent = ddr.current_era;
          next_fee_multiplier_parent = ddr.next_fee_multipier;
          chain = ddr.chain;
        }))
        calling_decode c

  unfoldable pub get_account_balance : Option E → Bytes → ℕ → GrpConnections → Reply
  unfolding call after_wait
  get_account_balance wait account height c = after_wait wait c (
      call account_service (account_by_height (int64_bits height) account)
        (account_balance_by_height height) c)

  unfoldable pub get_block_by_height : Option E → ℕ → GrpConnections → Reply
  unfolding call after_wait
  get_block_by_height wait height c = after_wait wait c (
      call block_service (Request.block_by_height (int64_bits height))
        (ClientError.block_by_height height) c)

  unfoldable pub get_events_by_height : Option E → ℕ → GrpConnections → Reply
  unfolding call after_wait
  get_events_by_height wait height c =
      after_wait wait c
        (call event_service (events_by_height (int64_bits height)) (event_by_height height) c)

  unfoldable pub get_meta_by_height : Option E → ℕ → GrpConnections → Reply
  unfolding call after_wait
  get_meta_by_height wait height c = after_wait wait c (
      call chain_service (Request.meta_by_height (int64_bits height))
        (ClientError.meta_by_height height) c)

  unfoldable pub get_head : GrpConnections → Reply
  unfolding call
  get_head c = call chain_service head getting_head c

  unfoldable pub get_transactions_by_height : Option E → ℕ → GrpConnections → Reply
  unfolding call after_wait
  get_transactions_by_height wait height c = after_wait wait c (
      call transaction_service (transactions_by_height (int64_bits height))
        (transaction_by_height height) c)
