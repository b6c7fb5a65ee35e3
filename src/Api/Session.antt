-- ===== src/Api/Session.antt =====
-- One websocket session of `api/api.go`: the loop of `run`, the reader `recv` and `timeoutChecker`,
-- which share the response map under its lock. A channel for responses is a number; what is put on
-- channels is logged in order. The JSON codec and the socket are the environment: an event says
-- what they did.
pub mod Accounting
pub mod Steps
pub mod Delivery
pub mod Keeping
pub mod Pending
pub mod Routing
pub mod Timeout
use polkadot_worker.Base.{
  ℕ, suc, ◌+◌, ◌-◌, ◌%◌, ◌^◌, ◌≡◌, Bool, true, false, List, [], ◌∷◌, ◌++◌, Option, none, some,
  Bytes, codes, is_empty, ltb, ◌==◌, if◌then◌else◌,
}
unfoldable pub use polkadot_worker.Base.Maps.{find, delete, insert}

pub data ConnError : Type 0 where
  connection_closed request_timedout encoding_failed : ConnError

pub record Response : Type 0 where
  pub id : ℕ
  pub error : Option ConnError
  pub type : Bytes
  pub result : Bytes

pub record JsonRpcRequest : Type 0 where
  pub id : ℕ
  pub jsonrpc : Bytes
  pub method : Bytes
  pub params : Bytes

-- `JsonRPCSend`
pub record Send : Type 0 where
  pub request : JsonRpcRequest
  pub resp_ch : ℕ

-- The fields that `JsonRPCResponse` decodes; an `error` field of the message is not among them.
pub record JsonRpcResponse : Type 0 where
  pub id : ℕ
  pub result : Bytes

pub record ResponseStore : Type 0 where
  pub id : ℕ
  pub type : Bytes
  pub time : ℕ
  pub resp_ch : ℕ

pub record Session : Type 0 where
  pub next_message_id : ℕ
  pub response_map : List (ℕ × ResponseStore)
  pub running : Bool  -- false behind the loop `WSLOOP`
  pub wire : List JsonRpcRequest  -- written to the socket, newest first
  pub delivered : List (ℕ × Response)  -- sent on channels, newest first
  pub dropped : List ResponseStore  -- given up by `recv` after five seconds

abbrev pub start : Session
start = record {
  next_message_id = 0;
  response_map = [];
  running = true;
  wire = [];
  delivered = [];
  dropped = [];
}

abbrev pub answer : ResponseStore → Option ConnError → Bytes → ℕ × Response
answer st e r = (st.resp_ch, record { id = st.id; error = e; type = st.type; result = r })

-- The rest of `run` behind the loop: what is pending is answered by an error.
unfoldable pub answer_all : ConnError → List (ℕ × ResponseStore) → List (ℕ × Response)
answer_all e [] = []
answer_all e ((k, st) ∷ m) = answer st (some e) [] ∷ answer_all e m

unfoldable pub finish : Session → Session
finish s = record s {
  running = false;
  response_map = [];
  delivered = answer_all connection_closed s.response_map ++ s.delivered;
}

abbrev pub with_version : JsonRpcRequest → JsonRpcRequest
with_version r = if is_empty r.jsonrpc then record r { jsonrpc = codes "2.0" } else r

-- `nextMessageID++` on uint64
abbrev pub next_id : ℕ → ℕ
next_id n = (n + 1) % 2 ^ 64

-- What the encoder and the socket did with a request.
pub data Sent : Type 0 where
  sent not_encoded not_written : Sent

-- `responseMap.Map[req.ID] = …` behind `nextMessageID++`
unfoldable pub register : Send → ℕ → Session → Session
register r now s = record s {
  next_message_id = next_id s.next_message_id;
  response_map =
      insert s.next_message_id
        (record { id = r.request.id; type = r.request.method; time = now; resp_ch = r.resp_ch })
        s.response_map;
}

-- The answer to a request that the encoder refuses.
abbrev pub refusal : Send → ℕ × Response
refusal r = (
  r.resp_ch,
  record { id = r.request.id; error = some encoding_failed; type = r.request.method; result = [] },
)

-- `case req := <-conn.Requests`
unfoldable pub on_request : Send → ℕ → Sent → Session → Session
on_request r now not_encoded s = record s {
  next_message_id = next_id s.next_message_id;
  delivered = refusal r ∷ s.delivered;
}
on_request r now sent s =
    let q = with_version (record r.request { id = s.next_message_id }) in
    let s' = register r now s in record s' { wire = q ∷ s'.wire }
on_request r now not_written s = finish (register r now s)

-- `recv`, one message: `none` is a message that is no JSON, `taken` whether the receiver took the
-- response within five seconds.
unfoldable pub on_entry : JsonRpcResponse → Bool → Option ResponseStore → Session → Session
on_entry m taken none s = s
on_entry m true (some st) s = record s {
  delivered = answer st none m.result ∷ s.delivered;
  response_map = delete m.id s.response_map;
}
on_entry m false (some st) s = record s {
  dropped = st ∷ s.dropped;
  response_map = delete m.id s.response_map;
}

unfoldable pub on_message : Option JsonRpcResponse → Bool → Session → Session
on_message none taken s = s
on_message (some m) taken s = on_entry m taken (find m.id s.response_map) s

-- `timeoutChecker`, one tick: `time.Since(resp.Time) > timout`. The order in which Go walks a map
-- is not fixed; here it is that of the list.
unfoldable pub expired : ℕ → ℕ → List (ℕ × ResponseStore) → List (ℕ × Response)
expired timeout now [] = []
expired timeout now ((k, st) ∷ m) =
    let rest = expired timeout now m in
    if ltb timeout (now - st.time) then answer st (some request_timedout) [] ∷ rest else rest

unfoldable pub live : ℕ → ℕ → List (ℕ × ResponseStore) → List (ℕ × ResponseStore)
live timeout now [] = []
live timeout now ((k, st) ∷ m) =
    let rest = live timeout now m in if ltb timeout (now - st.time) then rest else (k, st) ∷ rest

unfoldable pub on_tick : ℕ → ℕ → Session → Session
on_tick timeout now s = record s {
  response_map = live timeout now s.response_map;
  delivered = expired timeout now s.response_map ++ s.delivered;
}

pub data Event : Type 0 where
  requested : Send → ℕ → Sent → Event
  received : Option JsonRpcResponse → Bool → Event
  ticked : ℕ → Event
  ended : Event  -- the context is done, or the reader has stopped

-- Once the loop is left no request is read; a message or a tick that is still under way finds an
-- empty map.
unfoldable pub step_when : Bool → ℕ → Session → Event → Session
step_when true timeout s (requested r now w) = on_request r now w s
step_when true timeout s (received m taken) = on_message m taken s
step_when true timeout s (ticked now) = on_tick timeout now s
step_when true timeout s ended = finish s
step_when false timeout s (requested r now w) = s
step_when false timeout s (received m taken) = on_message m taken s
step_when false timeout s (ticked now) = on_tick timeout now s
step_when false timeout s ended = s

unfoldable pub step : ℕ → Session → Event → Session
step timeout s e = step_when s.running timeout s e

unfoldable pub run : ℕ → Session → List Event → Session
run timeout s [] = s
run timeout s (e ∷ es) = run timeout (step timeout s e) es
