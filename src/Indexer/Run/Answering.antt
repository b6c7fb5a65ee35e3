-- ===== src/Indexer/Run/Answering.antt =====
-- How the responses of one handler of `indexer/client.go` follow those of another.
use polkadot_worker.Base.{
  ℕ, ◌≡◌, refl, ap, sym, ◌∙◌, true, List, [], ◌∷◌, ◌++◌, append_assoc, append-nil, map-append, ◌≢◌,
  map, All, All-append, Outcome, ok, err, panic, block,
}
use polkadot_worker.Indexer.Hashes.{Lru}
use polkadot_worker.Indexer.Tasks.{TaskResponse, Handled}
use polkadot_worker.Indexer.Run.{RunState, Ran, and_then}

abbrev pub response_id : {J E G : Type 0} → TaskResponse J E G → ℕ
response_id r = r.id

abbrev pub IsFinal : {J E G : Type 0} → TaskResponse J E G → Type 0
IsFinal r = r.final ≡ true

-- Responses that begin those owed, and are all of them after a return.
pub record Answers {J E G S : Type 0} (ids : List ℕ)
    (r : List (TaskResponse J E G) × Outcome (Unit {0}) S) : Type 0 where
  pub missing : List ℕ
  pub begins : map response_id r.0 ++ missing ≡ ids
  pub complete : (s : S) → r.1 ≡ ok s → missing ≡ []
  pub all_final : All IsFinal r.0

pub Answers-one :
    {J E G S : Type 0} (r : TaskResponse J E G) (o : Outcome (Unit {0}) S)
    → r.final ≡ true
    → Answers (r.id ∷ []) (r ∷ [], o)
Answers-one r o h = record {
  missing = [];
  begins = refl;
  complete = λ s e. refl;
  all_final = (h, tt);
}

pub Answers-none :
    {J E G S : Type 0} (ids : List ℕ) (o : Outcome (Unit {0}) S)
    → ((s : S) → o ≡ ok s → ids ≡ [])
    → Answers {J = J} {E = E} {G = G} ids ([], o)
Answers-none ids o h = record { missing = ids; begins = refl; complete = h; all_final = tt }

-- One response more in front.
pub Answers-after :
    {J E G S : Type 0} (r : TaskResponse J E G) (ids : List ℕ)
    (h : List (TaskResponse J E G) × Outcome (Unit {0}) S)
    → r.final ≡ true
    → Answers ids h
    → Answers (r.id ∷ ids) (r ∷ h.0, h.1)
Answers-after r ids h e p = record {
  missing = p.missing;
  begins = ap (λ l. r.id ∷ l) p.begins;
  complete = p.complete;
  all_final = (e, p.all_final);
}

joined :
    {J E G : Type 0} (rs rs' : List (TaskResponse J E G)) (m n a b : List ℕ)
    → m ≡ []
    → map response_id rs ++ m ≡ a
    → map response_id rs' ++ n ≡ b
    → map response_id (rs ++ rs') ++ n ≡ a ++ b
joined rs rs' m n a b e p q =
    rw (map-append response_id rs rs', append_assoc, q)
      (ap (λ l. l ++ b)
        (sym (append-nil (map response_id rs)) ∙ (ap (λ l. map response_id rs ++ l) (sym e) ∙ p)))

-- After a return the next responses follow.
Answers-append :
    {J E G S T : Type 0} (a b : List ℕ) (rs rs' : List (TaskResponse J E G)) (s : S)
    (o : Outcome (Unit {0}) T)
    → Answers a (rs, ok s)
    → Answers b (rs', o)
    → Answers (a ++ b) (rs ++ rs', o)
Answers-append a b rs rs' s o p q = record {
  missing = q.missing;
  begins = joined rs rs' p.missing q.missing a b (p.complete s refl) p.begins q.begins;
  complete = q.complete;
  all_final = All-append IsFinal rs rs' p.all_final q.all_final;
}

-- Without a return they are missing.
Answers-stopped :
    {J E G S T : Type 0} (a b : List ℕ) (rs : List (TaskResponse J E G)) (o : Outcome (Unit {0}) S)
    (o' : Outcome (Unit {0}) T)
    → ((t : T) → o' ≢ ok t)
    → Answers a (rs, o)
    → Answers (a ++ b) (rs, o')
Answers-stopped a b rs o o' n p = record {
  missing = p.missing ++ b;
  begins = sym (append_assoc (map response_id rs) p.missing b) ∙ ap (λ l. l ++ b) p.begins;
  complete = λ t e. absurd (n t e);
  all_final = p.all_final;
}

pub and_then-Answers :
    {J E G : Type 0} {lru : Lru} {V : Type 0} (a b : List ℕ) (s : RunState lru V)
    (h : Handled J E G lru) (rest : RunState lru V → Ran J E G lru V)
    → Answers a h
    → ((t : RunState lru V) → Answers b (rest t))
    → Answers (a ++ b) (and_then s h rest)
and_then-Answers a b s (rs, ok t) rest p q =
    Answers-append a b rs _ t _ p (q (record s { tasks = t }))
and_then-Answers a b s (rs, err e) rest p q = Answers-stopped a b rs _ _ (λ t k. cc) p
and_then-Answers a b s (rs, panic) rest p q = Answers-stopped a b rs _ _ (λ t k. cc) p
and_then-Answers a b s (rs, block) rest p q = Answers-stopped a b rs _ _ (λ t k. cc) p
