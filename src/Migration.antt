-- ===== src/Migration.antt =====
-- `cmd/data-migration/0001-migration-ext-id`: `getTransactions` and `getTransaction`. The database is
-- what the query returns and what an update answers; logs are left out.
pub mod Rows
pub mod Identifying
pub mod Ranging
use polkadot_worker.Base.{
  ℕ, zero, suc, ◌+◌, ◌-◌, ◌%◌, ◌^◌, ◌≡◌, Bool, true, false, List, [], ◌∷◌, ◌++◌, Option, none, some,
  Bytes, codes, Outcome, ok, err, panic, block, ◌>>=◌, or_err, wrap, same, is_empty, if◌then◌else◌,
  ◌==◌,
}
use polkadot_worker.Base.Int.{ℤ}
use polkadot_worker.Api.Session.{ConnError, Response}
use polkadot_worker.Scale.Storage.{Decoded, ScaleError, MDecoder, DecodeStorage, ScaleExtrinsic}
use polkadot_worker.Indexer.Hashes.{Lru, HashRequest, HashesError, get_block_hashes}
use polkadot_worker.Indexer.Latest.{
  MetadataError, no_error, get_metadata, get_transactions_for_height,
}
use polkadot_worker.Indexer.Block.{RuntimeVersion, version_of, extrinsics_of}
use polkadot_worker.Migration.Rows.{
  Row, RowError, pair_rows, Update, Updated, update_of, update_rows, numbered, arranged,
}

pub data MigrationError (E X : Type 0) : Type 0 where
  no_rows : MigrationError E X  -- `sql.ErrNoRows`
  query_failed : X → MigrationError E X
  update_failed : X → MigrationError E X
  row_failed : RowError → MigrationError E X
  hashes_failed : HashesError → MigrationError E X
  wrong_response : ConnError → MigrationError E X
  empty_response : MigrationError E X
  wrong_data : MigrationError E X
  timeout : MigrationError E X
  metadata_failed : MetadataError E → MigrationError E X
  extrinsics_failed : ScaleError E → MigrationError E X

-- What the node does for one height; `none` among the replies is a wait of 30 seconds. The errors of
-- the two requests before them are not looked at.
pub record MigrationNode : Type 0 where
  pub send_hashes : HashRequest → Option ConnError
  pub hashes_replies : List Response
  pub replies : List (Option Response)
  pub send_metadata : Option ConnError
  pub metadata_replies : List Response

-- The libraries and the database. `sort` is `sort.Slice`.
pub record MigrationLibraries (B D E X : Type 0) : Type 0 where
  pub unmarshal_version : Bytes → Option RuntimeVersion
  pub unmarshal_block : Bytes → Option B
  pub raw_extrinsics : B → List Bytes
  pub process_metadata : Bytes → Decoded E D
  pub process_extrinsic : Bytes → D → ℕ → Decoded E ScaleExtrinsic
  pub sort :
      ((Option ℤ × Row) → (Option ℤ × Row) → Bool) → List (Option ℤ × Row) → List (Option ℤ × Row)
  pub marshal : Update → Option X
  pub exec : Update → Option X

pub record MigrationState (lru : Lru) (D : Type 0) : Type 0 where
  pub cache : lru.Cache
  pub storage : DecodeStorage D

module _ {B D E X : Type 0} (lru : Lru) (lib : MigrationLibraries B D E X) where
  abbrev pub Gathering : Type 0
  Gathering = Option RuntimeVersion × Option B

  -- One response with a result, by its type.
  unfoldable pub on_reply : Response → Gathering → Outcome (MigrationError E X) Gathering
  on_reply r (v, b) = do
    _ ← no_error wrong_response r.error
    let version = (do x ← or_err wrong_data (lib.unmarshal_version r.result); ok (some x, b))
    let block_part = (do x ← or_err wrong_data (lib.unmarshal_block r.result); ok (v, some x))
    let typed =
        if same r.type (codes "state_getRuntimeVersion")
        then version
        else if same r.type (codes "chain_getBlock")
        then block_part
        else err wrong_data
    if is_empty r.result then err empty_response else typed

  -- The loop, with `got`: two responses end it, whatever their types.
  unfoldable pub gather_two :
      ℕ → List (Option Response) → Gathering → Outcome (MigrationError E X) Gathering
  gather_two got [] g = block
  gather_two got (none ∷ rs) g = err timeout
  gather_two got (some r ∷ rs) g = do
    g' ← on_reply r g
    let rest = gather_two (got + 1) rs g'
    if got + 1 == 2 then ok g' else rest

  -- From the hashes to the pairing: the rows with their identifiers.
  unfoldable pub paired_rows :
      MigrationNode
      → MigrationState lru D
      → ℕ
      → List Row
      → Outcome (MigrationError E X) (List Row × MigrationState lru D)
  paired_rows node s height rs = do
    (hs, cache) ←
        wrap hashes_failed
          (get_block_hashes lru node.send_hashes height s.cache node.hashes_replies)
    (version, block_part) ← gather_two 0 node.replies (none, none)
    let v = version_of version
    let (found, storage) =
        get_metadata lib.process_metadata node.send_metadata v.spec_name v.spec_version s.storage
          node.metadata_replies
    meta ← wrap metadata_failed found
    txs ← wrap extrinsics_failed (
        get_transactions_for_height lib.process_extrinsic meta.decoder v.spec_version
          (extrinsics_of lib.raw_extrinsics block_part))
    ps ← wrap row_failed (pair_rows height txs 0 rs)
    ok (ps, record { cache = cache; storage = storage })

  -- How a height ends, with the updates that were tried.
  abbrev pub Migrated : Type 0
  Migrated = Outcome (MigrationError E X) (MigrationState lru D) × List Update

  abbrev pub ended : MigrationState lru D → Updated X → Migrated
  ended s (none, us) = (ok s, us)
  ended s (some x, us) = (err (update_failed x), us)

  abbrev pub with_paired : Outcome (MigrationError E X) (List Row × MigrationState lru D) → Migrated
  with_paired (ok (ps, s)) = ended s (update_rows lib.marshal lib.exec ps)
  with_paired (err e) = (err e, [])
  with_paired panic = (panic, [])
  with_paired block = (block, [])

  -- A single row is updated before the node is asked, and goes on as the others do.
  abbrev pub after_single : Migrated → Updated X → Migrated
  after_single rest (none, us) = (rest.0, us ++ rest.1)
  after_single rest (some x, us) = (err (update_failed x), us)

  abbrev pub after_numbered :
      MigrationNode → MigrationState lru D → ℕ → Outcome RowError Row → Migrated
  after_numbered node s height (ok r) =
      after_single (with_paired (paired_rows node s height (r ∷ [])))
        (update_rows lib.marshal lib.exec (r ∷ []))
  after_numbered node s height (err e) = (err (row_failed e), [])
  after_numbered node s height panic = (panic, [])
  after_numbered node s height block = (block, [])

  unfoldable pub with_rows : MigrationNode → MigrationState lru D → ℕ → List Row → Migrated
  with_rows node s height [] = (ok s, [])
  with_rows node s height (r ∷ []) = after_numbered node s height (numbered height r)
  with_rows node s height (r ∷ q ∷ rs) = with_paired (
      wrap row_failed (arranged lib.sort (r ∷ q ∷ rs)) >>= λ sorted.
      paired_rows node s height sorted)

  -- The query gives the rows, or the error of it or of a scan; `none` is `sql.ErrNoRows`.
  unfoldable pub get_transaction :
      MigrationNode → MigrationState lru D → ℕ → Outcome (Option X) (List Row) → Migrated
  get_transaction node s height (ok rs) = with_rows node s height rs
  get_transaction node s height (err none) = (err no_rows, [])
  get_transaction node s height (err (some x)) = (err (query_failed x), [])
  get_transaction node s height panic = (panic, [])
  get_transaction node s height block = (block, [])

  -- An error ends the loop, but for the lack of rows.
  abbrev pub then_next :
      MigrationState lru D → Migrated → (MigrationState lru D → Migrated) → Migrated
  then_next s (ok t, us) rest = let (r, vs) = rest t in (r, us ++ vs)
  then_next s (err no_rows, us) rest = let (r, vs) = rest s in (r, us ++ vs)
  then_next s (err e, us) rest = (err e, us)
  then_next s (panic, us) rest = (panic, us)
  then_next s (block, us) rest = (block, us)

  -- The loop over the heights, with the number of its rounds.
  unfoldable pub heights_loop :
      ℕ
      → ℕ
      → (ℕ → MigrationNode)
      → (ℕ → Outcome (Option X) (List Row))
      → MigrationState lru D
      → Migrated
  heights_loop zero i node query s = (ok s, [])
  heights_loop (suc n) i node query s =
      then_next s (get_transaction (node i) s i (query i)) (heights_loop n (i + 1) node query)

  -- `i < to+1` on 64 bits: with the greatest `to` there is no round.
  unfoldable pub get_transactions :
      ℕ
      → ℕ
      → (ℕ → MigrationNode)
      → (ℕ → Outcome (Option X) (List Row))
      → MigrationState lru D
      → Migrated
  get_transactions from to node query s = heights_loop ((to + 1) % 2 ^ 64 - from) from node query s
