-- ===== src/Indexer/Tasks.antt =====
-- `indexer/client.go`: `Run` and the handlers of tasks. What a handler sends on the stream is a list;
-- the error of `stream.Send` is only logged. Metrics and timeouts of a context are left out.
use polkadot_worker.Base.{
  ℕ, Bool, true, false, ◌||◌, List, [], ◌∷◌, ◌++◌, Option, none, some, Bytes, codes, is_empty, ltb,
  ◌==◌, if◌then◌else◌, Outcome, ok, err, panic, block, wrap,
}
use polkadot_worker.Base.Int.{ℤ}
use polkadot_worker.Api.Session.{ConnError, Response}
use polkadot_worker.Proxy.Conns.{ServiceClient, GrpConnections}
use polkadot_worker.Proxy.Client.{Request, ClientError, Answer, get_account_balance}
use polkadot_worker.Mapper.Amount.{MapperError, Floats}
use polkadot_worker.Mapper.Balance.{AccountResponse, AccountBalance, account_balance_mapper}
use polkadot_worker.Indexer.Pool.{Pool, get_block_kind, get}
use polkadot_worker.Indexer.Hashes.{Lru}
use polkadot_worker.Indexer.Latest.{LatestError, get_latest_height}
use polkadot_worker.Indexer.Range.{HeightRange}

pub record TaskRequest : Type 0 where
  pub id : ℕ
  pub type : Bytes
  pub payload : Bytes

pub record HeightAccount : Type 0 where
  pub account : Bytes
  pub height : ℕ

pub data BalanceError (E : Type 0) : Type 0 where
  proxy_failed : ClientError E → BalanceError E
  mapper_failed : MapperError → BalanceError E

-- What the message of a `TaskError` is made of; `J` and `G` are the errors of `json.Unmarshal` and of
-- the requester of ranges.
pub data TaskError (J E G : Type 0) : Type 0 where
  unknown_request : Bytes → TaskError J E G
  not_unmarshalled : J → TaskError J E G
  bad_request : TaskError J E G
  no_balance : BalanceError E → TaskError J E G
  mark_not_unmarshalled : TaskError J E G
  no_latest_height : LatestError → TaskError J E G
  bad_range : TaskError J E G
  range_failed : G → TaskError J E G

-- `none` is the zero error.
pub record TaskResponse (J E G : Type 0) : Type 0 where
  pub id : ℕ
  pub type : Bytes
  pub payload : Bytes
  pub error : Option (TaskError J E G)
  pub final : Bool

-- What the libraries and the services answer; a value that `json.Marshal` refuses is an empty text.
-- `get_range` is the number of heights with the text of the whole answer, and an error.
pub record Services (J E G : Type 0) : Type 0 where
  pub unmarshal_account : Bytes → HeightAccount × Option J
  pub unmarshal_range : Bytes → HeightRange × Option J
  pub unmarshal_latest : Bytes → Option J
  pub marshal_balance : AccountBalance → Bytes
  pub marshal_latest : ℕ → Bytes
  pub get_range : HeightRange → (ℕ × Bytes) × Option G
  pub serve : ServiceClient → Request → Answer E (Option AccountResponse)
  pub undefined : Bytes → ℕ
  pub header_number : Bytes → Option Bytes

-- What happens during one task: the answer of the rate limiter, that of `Send`, and the replies that
-- arrive on the channel.
pub record Round (E : Type 0) : Type 0 where
  pub wait : Option E
  pub send : Bytes → Option ConnError
  pub replies : List Response

-- What the tasks of a client share.
pub record TaskState (lru : Lru) : Type 0 where
  pub conns : GrpConnections
  pub pool : Pool Response
  pub cache : lru.Cache

-- The responses that were sent, and how the handler ended.
abbrev pub Handled : Type 0 → Type 0 → Type 0 → Lru → Type 0
Handled J E G lru = List (TaskResponse J E G) × Outcome (Unit {0}) (TaskState lru)

module _ {J E G : Type 0} where
  -- A final response with an error.
  abbrev pub failed : ℕ → TaskError J E G → TaskResponse J E G
  failed id e = record { id = id; type = []; payload = []; error = some e; final = true }

  abbrev pub answered : ℕ → Bytes → Bytes → TaskResponse J E G
  answered id type payload = record {
    id = id;
    type = type;
    payload = payload;
    error = none;
    final = true;
  }

  -- `err` after `json.Unmarshal` and the test of the fields.
  abbrev pub payload_error : Bool → Option J → Option (TaskError J E G)
  payload_error true _ = some bad_request
  payload_error false none = none
  payload_error false (some j) = some (not_unmarshalled j)

  -- The handler goes on after a payload that it cannot read.
  abbrev pub before_mark : ℕ → Option J → List (TaskResponse J E G)
  before_mark id none = []
  before_mark id (some _) = failed id mark_not_unmarshalled ∷ []

  -- The response with the heights that were fetched, with the error if there is one.
  abbrev pub heights_response : ℕ → (ℕ × Bytes) × Option G → TaskResponse J E G
  heights_response id ((number, encoded), e) = record {
    id = id;
    type = codes "Heights";
    payload = if ltb 0 number then encoded else [];
    error = elim e [ none ↦ none | some g ↦ some (range_failed g) ];
    final = true;
  }

module _ {J E G : Type 0} (lru : Lru) (fl : Floats) (exp : ℤ) (currency : Bytes)
    (lib : Services J E G) where
  abbrev pub mapped_balance :
      ℕ → Outcome (ClientError E) (Option AccountResponse) → Outcome (BalanceError E) AccountBalance
  mapped_balance height (ok r) =
      wrap mapper_failed (account_balance_mapper fl exp currency r height)
  mapped_balance height (err e) = err (proxy_failed e)
  mapped_balance height panic = panic
  mapped_balance height block = block

  unfoldable pub get_balance_summary :
      Option E
      → Bytes
      → ℕ
      → GrpConnections
      → Outcome (BalanceError E) AccountBalance × GrpConnections
  get_balance_summary wait account height conns =
      let (r, conns') = get_account_balance lib.serve wait account height conns in
      (mapped_balance height r, conns')

  abbrev pub balance_sent :
      ℕ → TaskState lru → Outcome (BalanceError E) AccountBalance → Handled J E G lru
  balance_sent id s (ok b) =
      (answered id (codes "AccountBalance") (lib.marshal_balance b) ∷ [], ok s)
  balance_sent id s (err e) = (failed id (no_balance e) ∷ [], ok s)
  balance_sent id s panic = ([], panic)
  balance_sent id s block = ([], block)

  abbrev pub balance_of :
      ℕ → Round E → TaskState lru → HeightAccount → Option (TaskError J E G) → Handled J E G lru
  balance_of id round s hr (some e) = (failed id e ∷ [], ok s)
  balance_of id round s hr none =
      let (b, conns) = get_balance_summary round.wait hr.account hr.height s.conns in
      balance_sent id (record s { conns = conns }) b

  -- The handler `GetAccountBalance`.
  unfoldable pub handle_account_balance : TaskRequest → Round E → TaskState lru → Handled J E G lru
  handle_account_balance task round s =
      let (hr, e) = lib.unmarshal_account task.payload in
      balance_of task.id round s hr (payload_error (is_empty hr.account || hr.height == 0) e)

  abbrev pub latest_sent :
      ℕ → TaskState lru → Outcome LatestError (ℕ × lru.Cache) → Handled J E G lru
  latest_sent id s (ok (height, cache)) = (
    answered id (codes "LatestMark") (lib.marshal_latest height) ∷ [],
    ok (record s { cache = cache }),
  )
  latest_sent id s (err e) = (failed id (no_latest_height e) ∷ [], ok s)
  latest_sent id s panic = ([], panic)
  latest_sent id s block = ([], block)

  -- From `c.gbPool.Get()` on. The channel is not put back.
  abbrev pub latest_mark :
      ℕ
      → Round E
      → TaskState lru
      → Outcome (Unit {0}) (Option ℕ × Pool Response)
      → Handled J E G lru
  latest_mark id round s (ok (ch, pool)) =
      latest_sent id (record s { pool = pool })
        (get_latest_height lru lib.undefined lib.header_number round.send s.cache round.replies)
  latest_mark id round s (err e) = ([], err e)
  latest_mark id round s panic = ([], panic)
  latest_mark id round s block = ([], block)

  unfoldable pub get_latest_mark : TaskRequest → Round E → TaskState lru → Handled J E G lru
  get_latest_mark task round s =
      let (rs, s') = latest_mark task.id round s (get get_block_kind s.pool) in
      (before_mark task.id (lib.unmarshal_latest task.payload) ++ rs, s')

  abbrev pub heights_of : ℕ → HeightRange → Option (TaskError J E G) → TaskResponse J E G
  heights_of id hr (some e) = failed id e
  heights_of id hr none =
      let heights = heights_response id (lib.get_range hr) in
      if ltb hr.end_height hr.start_height then failed id bad_range else heights

  unfoldable pub get_transactions : TaskRequest → TaskState lru → Handled J E G lru
  get_transactions task s =
      let (hr, e) = lib.unmarshal_range task.payload in
      (
        heights_of task.id hr (payload_error (hr.start_height == 0 || hr.end_height == 0) e) ∷ [],
        ok s,
      )
