-- ===== src/Programs/Migrate.antt =====
-- `main` of `cmd/data-migration/0001-migration-ext-id/0001-migration-ext-id.go`, with the values of
-- its flags as arguments.
use polkadot_worker.Base.{
  ℕ, List, [], ◌∷◌, Option, none, Bytes, codes, Outcome, ok, err, panic, block, ◌>>=◌,
}
use polkadot_worker.Base.Int.{pos}
use polkadot_worker.Indexer.Hashes.{Lru}
use polkadot_worker.Indexer.Block.{Settings}
use polkadot_worker.Indexer.Client.{Client, new_client}
use polkadot_worker.Migration.{
  MigrationError, MigrationNode, MigrationLibraries, MigrationState, get_transactions,
}
use polkadot_worker.Migration.Rows.{Row, Update}
use polkadot_worker.Programs.Logging
use polkadot_worker.Programs.Logging.{Logging, no_logging, log_at, info_level, error_level}
use polkadot_worker.Programs.Start.{
  Stop, Listener, Outside, listeners, despite_error, or_return, start_storage,
}

-- The flags of the program; `network` is only handed on.
pub record Flags : Type 0 where
  pub chain : Bytes
  pub from : ℕ
  pub to : ℕ
  pub polkadot_addrs : Bytes

-- The program before its loop.
pub record Migrator (lru : Lru) (D P S V : Type 0) : Type 0 where
  pub logging : Logging
  pub listeners : List Listener
  pub client : Client lru D P S V

abbrev pub chain_settings : Bytes → Settings
chain_settings chain = record { network = []; chain_id = chain; currency = []; exp = pos 0 }

module _ {E : Type 0} (lru : Lru) (out : Outside E) where
  -- The database is opened and answers a ping, or the program returns.
  unfoldable pub connect : Option E → Option E → Outcome (Stop E) Logging
  connect open_error ping_error = do
    s1 ←
        despite_error (
          Logging.init out.build (codes "json") (codes "info") (codes "stderr" ∷ []) none
            no_logging)
    s2 ← log_at info_level (codes "[DB] Connecting to database...") [] s1
    s3 ← or_return out.error_text open_error s2
    or_return out.error_text ping_error s3

  unfoldable pub start_migration :
      {D P S V : Type 0}
      → Option E
      → Option E
      → (ℕ → Option lru.Cache)
      → Flags
      → Outcome (Stop E) (Migrator lru D P S V)
  start_migration open_error ping_error new_lru flags = do
    s1 ← connect open_error ping_error
    ds ← start_storage out flags.chain
    client ← new_client lru new_lru none ds none (chain_settings flags.chain) 0
    s2 ← log_at info_level (codes "[DB] Ping successfull...") [] s1
    ok (record { logging = s2; listeners = listeners 30 flags.polkadot_addrs; client = client })

-- How the program ends, and the updates that were tried.
abbrev pub MigrationEnd : Type 0 → Type 0
MigrationEnd E = Outcome (Stop E) Logging × List Update

module _ {D E F X : Type 0} {lru : Lru} (text : MigrationError F X → Bytes) where
  abbrev pub finished :
      Logging → Outcome (MigrationError F X) (MigrationState lru D) → Outcome (Stop E) Logging
  finished s (ok _) = ok s
  finished s (err e) = log_at error_level (text e) [] s
  finished s panic = panic
  finished s block = block

  abbrev pub with_migrator :
      {P S V : Type 0}
      → (MigrationState lru D → Outcome (MigrationError F X) (MigrationState lru D) × List Update)
      → Outcome (Stop E) (Migrator lru D P S V)
      → MigrationEnd E
  with_migrator loop (ok m) =
      let (r, us) = loop (record { cache = m.client.cache; storage = m.client.ds }) in
      (finished m.logging r, us)
  with_migrator loop (err e) = (err e, [])
  with_migrator loop panic = (panic, [])
  with_migrator loop block = (block, [])

-- The whole of `main`, with the node, the database and the query of each height.
unfoldable pub migration_main :
    {B D E F X : Type 0} (lru : Lru) (out : Outside E) (lib : MigrationLibraries B D F X)
    → (MigrationError F X → Bytes)
    → Option E
    → Option E
    → (ℕ → Option lru.Cache)
    → Flags
    → (ℕ → MigrationNode)
    → (ℕ → Outcome (Option X) (List Row))
    → MigrationEnd E
migration_main lru out lib text open_error ping_error new_lru flags node query =
    with_migrator text (get_transactions lru lib flags.from flags.to node query)
      (start_migration lru out {P = Unit} {S = Unit} {V = Unit} open_error ping_error new_lru flags)
