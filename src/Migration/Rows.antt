-- ===== src/Migration/Rows.antt =====
-- `cmd/data-migration/0001-migration-ext-id`: the rows of one height, their order, their pairing with
-- the extrinsics of the block, and their updates.
use polkadot_worker.Base.{
  ℕ, ◌+◌, Bool, true, false, ◌&&◌, List, [], ◌∷◌, map, Option, none, some, Bytes, codes, same,
  to_lower, get_elem?, if◌then◌else◌, Outcome, ok, err, panic, ◌>>=◌, or_panic, ltb,
}
use polkadot_worker.Base.Int.{ℤ, pos, negsuc}
use polkadot_worker.Stdlib.Numbers.{atoi}
use polkadot_worker.Stdlib.Strings.{split}
use polkadot_worker.Mapper.Transaction.{TransactionEvent}
use polkadot_worker.Scale.Storage.{ScaleExtrinsic}
use polkadot_worker.Indexer.Pairing.{extrinsic_id, with_id, if_of_module, find_extrinsic}

-- The fields of a row that are read; `id` stands for a UUID.
pub record Row : Type 0 where
  pub id : ℕ
  pub hash : Bytes
  pub events : List TransactionEvent

pub data RowError : Type 0 where
  unpaired : RowError

-- What the sort compares: the number behind the dash in the identifier of the first subset event
-- of the first event. A missing part is a panic, a text that is no number is `none`.
abbrev pub first : {A : Type 0} → List A → Option A
first [] = none
first (x ∷ xs) = some x

unfoldable pub sort_key : Row → Outcome RowError (Option ℤ)
sort_key r = do
  ev ← or_panic (first r.events)
  sub ← or_panic (first ev.sub)
  part ← or_panic (get_elem? (split b'-' sub.id) 1)
  ok (atoi part)

abbrev pub ltb_ℤ : ℤ → ℤ → Bool
ltb_ℤ (pos m) (pos n) = ltb m n
ltb_ℤ (negsuc m) (pos n) = true
ltb_ℤ (pos m) (negsuc n) = false
ltb_ℤ (negsuc m) (negsuc n) = ltb n m

abbrev pub before : Option ℤ → Option ℤ → Bool
before (some a) (some b) = ltb_ℤ a b
before (some a) none = false
before none b = false

unfoldable pub keyed : List Row → Outcome RowError (List (Option ℤ × Row))
keyed [] = ok []
keyed (r ∷ rs) = do k ← sort_key r; rest ← keyed rs; ok ((k, r) ∷ rest)

-- `sort.Slice` is the argument `sort`, on rows with their keys. It compares every row of two or more,
-- so that one without a key is a panic.
unfoldable pub arranged :
    (((Option ℤ × Row) → (Option ℤ × Row) → Bool) → List (Option ℤ × Row) → List (Option ℤ × Row))
    → List Row
    → Outcome RowError (List Row)
arranged sort [] = ok []
arranged sort (r ∷ []) = ok (r ∷ [])
arranged sort (r ∷ s ∷ rs) = do
  ks ← keyed (r ∷ s ∷ rs)
  ok (map (λ k. k.1) (sort (λ a b. before a.0 b.0) ks))

-- The single row of a height: its first event gets the index 0.
abbrev pub numbered : ℕ → Row → Outcome RowError Row
numbered height r = elim r.events [
  | [] ↦ panic
  | ev ∷ evs ↦ ok (record r { events = with_id (extrinsic_id height 0) ev ∷ evs })
]

abbrev pub of_module : Bytes → TransactionEvent → Bool
of_module name ev = same (to_lower name) ev.module_ && same ev.kind (codes "Extrinsic")

abbrev pub any_of_module : Bytes → List TransactionEvent → Bool
any_of_module name [] = false
any_of_module name (ev ∷ evs) = if of_module name ev then true else any_of_module name evs

module _ (height : ℕ) (txs : List ScaleExtrinsic) where
  -- The extrinsic in the row's place, if it is of the module of one of the events.
  abbrev pub by_place : ℕ → Row → Option ScaleExtrinsic → Outcome RowError Row
  by_place k r none = err unpaired
  by_place k r (some x) =
      let found = ok (record r {
        events = map (if_of_module (extrinsic_id height k) x.call_module_name) r.events;
      }) in
      if any_of_module x.call_module_name r.events then found else err unpaired

  abbrev pub by_hash : ℕ → Row → Option ℕ → Outcome RowError Row
  by_hash k r (some i) = ok (record r { events = map (with_id (extrinsic_id height i)) r.events })
  by_hash k r none = by_place k r (get_elem? txs k)

  unfoldable pub pair_row : ℕ → Row → Outcome RowError Row
  pair_row k r = do found ← find_extrinsic r.hash 0 txs; by_hash k r found

  -- The loop, from the index `k` on: a row that is not found ends it.
  unfoldable pub pair_rows : ℕ → List Row → Outcome RowError (List Row)
  pair_rows k [] = ok []
  pair_rows k (r ∷ rs) = do p ← pair_row k r; ps ← pair_rows (k + 1) rs; ok (p ∷ ps)

-- An `UPDATE`: the row's identifier and its events.
pub record Update : Type 0 where
  pub id : ℕ
  pub events : List TransactionEvent

abbrev pub update_of : Row → Update
update_of r = record { id = r.id; events = r.events }

-- The updates that were tried, and the error of the last one, if any. `marshal` is the error of
-- `json.Marshal`, before the update, and `exec` that of the update.
abbrev pub Updated : Type 0 → Type 0
Updated X = Option X × List Update

module _ {X : Type 0} (marshal exec : Update → Option X) where
  abbrev pub after_exec : Update → Updated X → Option X → Updated X
  after_exec u rest none = (rest.0, u ∷ rest.1)
  after_exec u rest (some x) = (some x, u ∷ [])

  abbrev pub after_marshal : Update → Updated X → Option X → Updated X
  after_marshal u rest none = after_exec u rest (exec u)
  after_marshal u rest (some x) = (some x, [])

  unfoldable pub update_rows : List Row → Updated X
  update_rows [] = (none, [])
  update_rows (r ∷ rs) = after_marshal (update_of r) (update_rows rs) (marshal (update_of r))
