-- ===== src/Indexer/Run/Responses.antt =====
-- Which responses a run of `Run` of `indexer/client.go` sends.
use polkadot_worker.Base.{
  ℕ, ◌≡◌, refl, sym, subst, ◌∙◌, ◌||◌, ◌==◌, true, false, Bool-cases, inl, inr, List, [], ◌∷◌, ◌++◌,
  ◌≢◌, Option, none, some, Bytes, same, same→eq, same_refl, ltb, if◌then◌else◌, Outcome, ok, err,
  panic, block,
}
use polkadot_worker.Base.Int.{ℤ}
use polkadot_worker.Mapper.Amount.{Floats}
use polkadot_worker.Mapper.Balance.{AccountBalance}
use polkadot_worker.Api.Session.{Response}
use polkadot_worker.Indexer.Pool.{Pool, get, get_block_kind}
use polkadot_worker.Indexer.Latest.{LatestError}
use polkadot_worker.Indexer.Range.{HeightRange}
use polkadot_worker.Indexer.Hashes.{Lru}
use polkadot_worker.Indexer.Tasks.{
  TaskRequest, Services, Round, TaskState, Handled, HeightAccount, BalanceError, TaskError, failed,
  bad_range, unknown_request, mark_not_unmarshalled, handle_account_balance, get_transactions,
  get_latest_mark, balance_sent, payload_error, balance_of, latest_sent, latest_mark, before_mark,
  heights_of, heights_response,
}
use polkadot_worker.Indexer.Run.Answering.{
  Answers, Answers-one, Answers-none, Answers-after, and_then-Answers,
}
use polkadot_worker.Indexer.Run.{
  RequestNames, Happening, done, finish, received, RunState, handle, run,
}

-- The tasks that are taken: those before the end of the stream or of the context.
abbrev pub taken : {E : Type 0} → List (Happening E) → List TaskRequest
taken [] = []
taken (done ∷ hs) = []
taken (finish ∷ hs) = []
taken (received task round ∷ hs) = task ∷ taken hs

-- What a task for the latest mark is owed: one response more for a payload that is not unmarshalled.
abbrev pub marks_owed : {J : Type 0} → ℕ → Option J → List ℕ
marks_owed id none = id ∷ []
marks_owed id (some _) = id ∷ id ∷ []

module _ {J E G : Type 0} (lib : Services J E G) (names : RequestNames) where
  -- The responses that a task is owed, by its identifier: one, and one more when it asks for the
  -- latest mark with a payload that is not unmarshalled.
  abbrev pub owed : TaskRequest → List ℕ
  owed task =
      let marks = marks_owed task.id (lib.unmarshal_latest task.payload) in
      if same task.type names.latest_mark then marks else task.id ∷ []

  abbrev pub all_owed : List TaskRequest → List ℕ
  all_owed [] = []
  all_owed (task ∷ tasks) = owed task ++ all_owed tasks

module _ {J E G : Type 0} (lru : Lru) (fl : Floats) (exp : ℤ) (currency : Bytes)
    (lib : Services J E G) (names : RequestNames) where
  balance_sent-Answers :
      (id : ℕ) (s : TaskState lru) (b : Outcome (BalanceError E) AccountBalance)
      → Answers (id ∷ []) (balance_sent lru fl exp currency lib id s b)
  balance_sent-Answers id s (ok b) = Answers-one _ _ refl
  balance_sent-Answers id s (err e) = Answers-one _ _ refl
  balance_sent-Answers id s panic = Answers-none _ _ (λ t k. cc)
  balance_sent-Answers id s block = Answers-none _ _ (λ t k. cc)

  balance_of-Answers :
      (id : ℕ) (round : Round E) (s : TaskState lru) (hr : HeightAccount)
      (e : Option (TaskError J E G))
      → Answers (id ∷ []) (balance_of lru fl exp currency lib id round s hr e)
  balance_of-Answers id round s hr none = balance_sent-Answers id _ _
  balance_of-Answers id round s hr (some e) = Answers-one _ _ refl

  heights_of-final :
      (id : ℕ) (hr : HeightRange) (e : Option (TaskError J E G)) (s : TaskState lru)
      → Answers (id ∷ []) (heights_of lru fl exp currency lib id hr e ∷ [], ok s)
  heights_of-final id hr (some e) s = Answers-one _ _ refl
  heights_of-final id hr none s = elim (Bool-cases (ltb hr.end_height hr.start_height)) [
    | inl e ↦ rw e (Answers-one (failed id bad_range) _ refl)
    | inr e ↦ rw e (Answers-one (heights_response id (lib.get_range hr)) _ refl)
  ]

  before_mark-Answers :
      (id : ℕ) (o : Option J) (h : Handled J E G lru)
      → Answers (id ∷ []) h
      → Answers (marks_owed id o) (before_mark id o ++ h.0, h.1)
  before_mark-Answers id none h p = p
  before_mark-Answers id (some j) h p =
      Answers-after (failed id mark_not_unmarshalled) (id ∷ []) h refl p

  latest_sent-Answers :
      (id : ℕ) (s : TaskState lru) (o : Outcome LatestError (ℕ × lru.Cache))
      → Answers (id ∷ []) (latest_sent lru fl exp currency lib id s o)
  latest_sent-Answers id s (ok x) = Answers-one _ _ refl
  latest_sent-Answers id s (err e) = Answers-one _ _ refl
  latest_sent-Answers id s panic = Answers-none _ _ (λ t k. cc)
  latest_sent-Answers id s block = Answers-none _ _ (λ t k. cc)

  latest_mark-Answers :
      (id : ℕ) (round : Round E) (s : TaskState lru)
      (o : Outcome (Unit {0}) (Option ℕ × Pool Response))
      → Answers (id ∷ []) (latest_mark lru fl exp currency lib id round s o)
  latest_mark-Answers id round s (ok x) = latest_sent-Answers id _ _
  latest_mark-Answers id round s (err e) = Answers-none _ _ (λ t k. cc)
  latest_mark-Answers id round s panic = Answers-none _ _ (λ t k. cc)
  latest_mark-Answers id round s block = Answers-none _ _ (λ t k. cc)

  get_transactions-Answers :
      (task : TaskRequest) (s : TaskState lru)
      → Answers (task.id ∷ []) (get_transactions lru fl exp currency lib task s)
  unfolding get_transactions
  get_transactions-Answers task s =
      let (hr, e) = lib.unmarshal_range task.payload in
      heights_of-final task.id hr (payload_error (hr.start_height == 0 || hr.end_height == 0) e) s

  get_latest_mark-Answers :
      (task : TaskRequest) (round : Round E) (s : TaskState lru)
      → Answers
          (marks_owed task.id (lib.unmarshal_latest task.payload))
          (get_latest_mark lru fl exp currency lib task round s)
  unfolding get_latest_mark
  get_latest_mark-Answers task round s =
      before_mark-Answers task.id (lib.unmarshal_latest task.payload) _
        (latest_mark-Answers task.id round s (get get_block_kind s.pool))

  true_ne_false : true ≢ false
  true_ne_false e = cc

  same-false :
      (task : TaskRequest) (name : Bytes)
      → same names.latest_mark name ≡ false
      → same task.type name ≡ true
      → same task.type names.latest_mark ≡ false
  same-false task name n e = elim (Bool-cases (same task.type names.latest_mark)) [
    | inr k ↦ k
    | inl k ↦
        let q : names.latest_mark ≡ name =
          sym (same→eq task.type names.latest_mark k) ∙ same→eq task.type name e in
        absurd (true_ne_false (sym (same_refl name) ∙ subst (λ m. same m name ≡ false) q n))
  ]

  handle-Answers :
      (task : TaskRequest) (round : Round E) (s : TaskState lru)
      → Answers (owed lib names task) (handle lru fl exp currency lib names task round s)
  unfolding handle handle_account_balance
  handle-Answers task round s = elim (Bool-cases (same task.type names.account_balance)) [
    | inl e ↦
        rw (same-false task names.account_balance names.mark_is_not_balance e, e)
          (balance_of-Answers task.id round s _ _)
    | inr e ↦ elim (Bool-cases (same task.type names.transactions)) [
      | inl f ↦
          rw (same-false task names.transactions names.mark_is_not_transactions f, e, f)
            (get_transactions-Answers task s)
      | inr f ↦ elim (Bool-cases (same task.type names.latest_mark)) [
        | inl g ↦ rw (e, f, g) (get_latest_mark-Answers task round s)
        | inr g ↦ rw (e, f, g) (Answers-one (failed task.id (unknown_request task.type)) _ refl)
      ]
    ]
  ]

  -- With the responses that a run sends, each a final one: they begin the responses that the tasks
  -- it takes are owed, in the order of the tasks, and when no handler panics or waits for ever they
  -- are all of them. A task is owed one response with its identifier, or two when it asks for the
  -- latest mark with a payload that is not unmarshalled.
  pub run-Answers :
      {V : Type 0} (id : ℕ) (hs : List (Happening E)) (s : RunState lru V)
      → Answers (all_owed lib names (taken hs)) (run lru fl exp currency lib names id hs s)
  unfolding run
  run-Answers id [] s = Answers-none [] _ (λ t k. refl)
  run-Answers id (done ∷ hs) s = Answers-none [] _ (λ t k. refl)
  run-Answers id (finish ∷ hs) s = Answers-none [] _ (λ t k. refl)
  run-Answers id (received task round ∷ hs) s =
      and_then-Answers (owed lib names task) (all_owed lib names (taken hs)) s
        (handle lru fl exp currency lib names task round s.tasks)
        (run lru fl exp currency lib names id hs) (handle-Answers task round s.tasks)
        (λ t. run-Answers id hs t)
