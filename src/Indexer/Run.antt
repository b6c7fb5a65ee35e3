-- ===== src/Indexer/Run.antt =====
-- `indexer/client.go`: `RegisterStream`, `CloseStream` and the loop of `Run`.
pub mod Answering
pub mod Responses
use polkadot_worker.Base.{
  ℕ, zero, suc, ◌≡◌, false, Bool, List, [], ◌∷◌, ◌++◌, Option, none, some, Bytes, same,
  if◌then◌else◌, Outcome, ok, err, panic, block,
}
use polkadot_worker.Base.Int.{ℤ}
use polkadot_worker.Base.Maps.{insert, delete}
use polkadot_worker.Mapper.Amount.{Floats}
use polkadot_worker.Indexer.Hashes.{Lru}
use polkadot_worker.Indexer.Tasks.{
  TaskRequest, TaskResponse, Services, Round, TaskState, Handled, failed, unknown_request,
  handle_account_balance, get_transactions, get_latest_mark,
}

-- The names of the requests, which another package declares. They differ.
pub record RequestNames : Type 0 where
  pub account_balance : Bytes
  pub transactions : Bytes
  pub latest_mark : Bytes
  pub mark_is_not_balance : same latest_mark account_balance ≡ false
  pub mark_is_not_transactions : same latest_mark transactions ≡ false

-- `streams`, and the streams that `Run` was started for, one entry for each goroutine.
pub record Streams (V : Type 0) : Type 0 where
  pub streams : List (ℕ × V)
  pub running : List ℕ

abbrev pub started : ℕ → ℕ → List ℕ → List ℕ
started id zero running = running
started id (suc n) running = id ∷ started id n running

module _ {V : Type 0} where
  unfoldable pub register_stream : ℕ → V → Streams V → Streams V
  register_stream id stream c = record {
    streams = insert id stream c.streams;
    running = started id 40 c.running;
  }

  unfoldable pub close_stream : ℕ → Streams V → Streams V
  close_stream id c = record c { streams = delete id c.streams }

-- What the `select` finds: the context's end, the stream's, or a task with what happens during it.
pub data Happening (E : Type 0) : Type 0 where
  done : Happening E
  finish : Happening E
  received : TaskRequest → Round E → Happening E

-- The loop: what its tasks share, and the client's streams.
pub record RunState (lru : Lru) (V : Type 0) : Type 0 where
  pub tasks : TaskState lru
  pub client : Streams V

-- The responses of a run, and how it ended.
abbrev pub Ran : Type 0 → Type 0 → Type 0 → Lru → Type 0 → Type 0
Ran J E G lru V = List (TaskResponse J E G) × Outcome (Unit {0}) (RunState lru V)

-- A handler's responses stand before those of what follows when it returns.
abbrev pub and_then :
    {J E G : Type 0} {lru : Lru} {V : Type 0}
    → RunState lru V
    → Handled J E G lru
    → (RunState lru V → Ran J E G lru V)
    → Ran J E G lru V
and_then s (rs, ok t) rest = let (rs', o) = rest (record s { tasks = t }) in (rs ++ rs', o)
and_then s (rs, err e) rest = (rs, err e)
and_then s (rs, panic) rest = (rs, panic)
and_then s (rs, block) rest = (rs, block)

module _ {J E G : Type 0} (lru : Lru) (fl : Floats) (exp : ℤ) (currency : Bytes)
    (lib : Services J E G) (names : RequestNames) where
  -- The `switch` on the type of a task.
  unfoldable pub handle : TaskRequest → Round E → TaskState lru → Handled J E G lru
  handle task round s =
      if same task.type names.account_balance
      then handle_account_balance lru fl exp currency lib task round s
      else if same task.type names.transactions
      then get_transactions lru fl exp currency lib task s
      else if same task.type names.latest_mark
      then get_latest_mark lru fl exp currency lib task round s
      else (failed task.id (unknown_request task.type) ∷ [], ok s)

  -- The loop for the stream `id`. At the end of the list it waits, in the state that is the result.
  unfoldable pub run : {V : Type 0} → ℕ → List (Happening E) → RunState lru V → Ran J E G lru V
  run id [] s = ([], ok s)
  run id (done ∷ hs) s = ([], ok (record s { client = close_stream id s.client }))
  run id (finish ∷ hs) s = ([], ok s)
  run id (received task round ∷ hs) s = and_then s (handle task round s.tasks) (run id hs)
