-- ===== src/Api/Health.antt =====
-- `HealthCheck` of `api/api.go`, with the two functions that both programs hand to it
-- (`handleWSHealthcheckRequest`, `handleWSHealthcheckResponse`). A round is one tick of the ticker.
pub mod Counting
use polkadot_worker.Base.{
  ℕ, suc, ◌+◌, ◌%◌, ◌^◌, ◌≡◌, Bool, true, false, not, ◌&&◌, List, [], ◌∷◌, Option, none, some,
  Bytes, codes, ltb, ◌==◌, if◌then◌else◌,
}
use polkadot_worker.Api.Session.{JsonRpcRequest}

-- `chResponse`
pub record ChResponse : Type 0 where
  pub is_syncing : Bool
  pub peers : ℕ
  pub should_have_peers : Bool

unfoldable pub handle_ws_healthcheck_request : ℕ → JsonRpcRequest
handle_ws_healthcheck_request id = record {
  id = id;
  jsonrpc = [];
  method = codes "system_health";
  params = [];
}

-- The argument is the decoded result, `none` if it is no JSON of that shape.
unfoldable pub handle_ws_healthcheck_response : Option ChResponse → Bool
handle_ws_healthcheck_response none = false
handle_ws_healthcheck_response (some r) =
    if r.should_have_peers && (r.peers == 0) then false else true

-- What a round meets: no connection is online, no loop takes the request within 30 seconds, an
-- answer arrives, or none does within 30 seconds.
pub data Round : Type 0 where
  not_online unsendable timed_out : Round
  answered : Option ChResponse → Round

pub record Health : Type 0 where
  pub un_healthy_requests : ℕ  -- uint8
  pub id : ℕ  -- uint64
  pub resets : ℕ  -- how often all connections were cancelled
  pub exited : Bool  -- os.Exit(1)

abbrev pub healthy_start : Health
healthy_start = record { un_healthy_requests = 0; id = 0; resets = 0; exited = false }

abbrev pub next_request : Health → Health
next_request h = record h { id = (h.id + 1) % 2 ^ 64 }

-- The two tests at the end of a round.
unfoldable pub judge : Health → Health
judge h =
    let h' = if h.un_healthy_requests == 10 then record h { resets = h.resets + 1 } else h in
    if ltb 20 h'.un_healthy_requests then record h' { exited = true } else h'

abbrev pub unhealthy : Health → Health
unhealthy h = record h { un_healthy_requests = (h.un_healthy_requests + 1) % 256 }

unfoldable pub round : Health → Round → Health
unfolding judge handle_ws_healthcheck_response
round h not_online = h
round h unsendable = record (next_request h) { exited = true }
round h timed_out = judge (unhealthy (next_request h))
round h (answered r) = judge (
    if handle_ws_healthcheck_response r
    then record (next_request h) { un_healthy_requests = 0 }
    else unhealthy (next_request h))

-- Nothing runs behind `os.Exit`.
unfoldable pub advance : Bool → Health → Round → Health
advance true h r = h
advance false h r = round h r

unfoldable pub rounds : Health → List Round → Health
rounds h [] = h
rounds h (r ∷ rs) = rounds (advance h.exited h r) rs
