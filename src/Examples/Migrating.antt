-- ===== src/Examples/Migrating.antt =====
-- A run of the migration of `cmd/data-migration/0001-migration-ext-id`.
use polkadot_worker.Base.{
  ℕ, ◌≡◌, refl, Bool, List, [], ◌∷◌, Option, none, some, Bytes, codes, if◌then◌else◌, Outcome, ok,
  err, All, ◌==◌, format_uint, digits, to_lower,
}
use polkadot_worker.Base.Int.{ℤ}
use polkadot_worker.Base.Maps.{find}
use polkadot_worker.Stdlib.Numbers.{
  atoi, in_int, set_string, positive, scan_number, scan, digit_value,
}
use polkadot_worker.Stdlib.Strings.{split}
use polkadot_worker.Indexer.Hashes.{get_block_hashes, ask_hashes, look_up, await_hashes}
use polkadot_worker.Indexer.Latest.{get_metadata, get_transactions_for_height}
use polkadot_worker.Indexer.Pairing.{with_id, find_extrinsic, extrinsic_id}
use polkadot_worker.Api.Session.{Response}
use polkadot_worker.Scale.Storage.{decoded, made, get_mdecoder, get_extrinsic}
use polkadot_worker.Mapper.Proto.{SubsetEvent, empty_subset_event}
use polkadot_worker.Mapper.Transaction.{TransactionEvent}
use polkadot_worker.Migration.{
  MigrationNode, MigrationLibraries, MigrationState, get_transactions, heights_loop,
  get_transaction, with_rows, paired_rows, gather_two, on_reply,
}
use polkadot_worker.Migration.Rows.{
  Row, arranged, keyed, sort_key, pair_rows, pair_row, update_rows,
}
use polkadot_worker.Migration.Ranging.{IsMigrated, get_transactions-Migrated}
use polkadot_worker.Examples.Hashing.{full_cache, chain}

abbrev sub_event : Bytes → SubsetEvent
sub_event id = record empty_subset_event { id = id }

abbrev event : Bytes → TransactionEvent
event sub = record {
  id = [];
  kind = codes "Extrinsic";
  module_ = codes "staking";
  type = codes "bond" ∷ [];
  sub = sub_event sub ∷ [];
}

abbrev row : ℕ → Bytes → Bytes → Row
row id hash sub = record { id = id; hash = hash; events = event sub ∷ [] }

-- Of two rows, the one that is before the other.
abbrev sort_two :
    ((Option ℤ × Row) → (Option ℤ × Row) → Bool) → List (Option ℤ × Row) → List (Option ℤ × Row)
sort_two less (a ∷ b ∷ []) = if less b a then b ∷ a ∷ [] else a ∷ b ∷ []
sort_two less ks = ks

-- Two extrinsics, of which the second has the hash of a row.
abbrev migration_libraries : MigrationLibraries (Unit {0}) Bytes ℕ ℕ
migration_libraries = record {
  unmarshal_version = λ s. some (record { spec_name = codes "polkadot"; spec_version = 7 });
  unmarshal_block = λ s. some tt;
  raw_extrinsics = λ b. codes "5" ∷ codes "1" ∷ [];
  process_metadata = λ s. decoded s;
  process_extrinsic =
      λ s d v. decoded (record { extrinsic_hash = s; call_module_name = codes "Staking" });
  sort = sort_two;
  marshal = λ u. none;
  exec = λ u. none;
}

abbrev reply_of : Bytes → Option Response
reply_of type = some (record { id = 1234; error = none; type = type; result = codes "{}" })

abbrev migration_node : MigrationNode
migration_node = record {
  send_hashes = λ q. none;
  hashes_replies = [];
  replies = reply_of (codes "chain_getBlock") ∷ reply_of (codes "state_getRuntimeVersion") ∷ [];
  send_metadata = none;
  metadata_replies = [];
}

abbrev migration_state : MigrationState full_cache Bytes
migration_state = record {
  cache = (8, chain 8) ∷ (7, chain 7) ∷ [];
  storage = record {
    spec_name = codes "polkadot";
    decoders = (7, made 7 (codes "m") (codes "m")) ∷ [];
  };
}

-- The first row goes behind the second; its hash is that of the second extrinsic, and the other row
-- has an extrinsic of its module in its place.
updated_two :
    get_transaction full_cache migration_libraries migration_node migration_state 8
      (ok (row 1 (codes "0x1") (codes "8-1") ∷ row 2 (codes "0x2") (codes "8-0") ∷ []))
    ≡ (
      ok migration_state,
      record { id = 2; events = with_id (codes "8-0") (event (codes "8-0")) ∷ [] }
          ∷ record { id = 1; events = with_id (codes "8-1") (event (codes "8-1")) ∷ [] }
          ∷ [],
    )
unfolding get_transaction with_rows arranged keyed sort_key split atoi in_int set_string positive
    scan_number scan digit_value paired_rows get_block_hashes ask_hashes look_up await_hashes
    gather_two on_reply get_metadata get_mdecoder find get_transactions_for_height get_extrinsic
    pair_rows pair_row find_extrinsic extrinsic_id format_uint digits to_lower update_rows
updated_two = refl

-- At the heights 8 and 9: two rows at the first, and none at the second.
abbrev rows_at : ℕ → Outcome (Option ℕ) (List Row)
rows_at height =
    if height == 8
    then ok (row 1 (codes "0x1") (codes "8-1") ∷ row 2 (codes "0x2") (codes "8-0") ∷ [])
    else err none

get_transactions-Migrated_example :
    All
      (IsMigrated 8 9)
      (get_transactions full_cache migration_libraries 8 9
        (λ height. migration_node)
        rows_at
        migration_state).1
get_transactions-Migrated_example =
    get_transactions-Migrated full_cache migration_libraries 8 9 (λ height. migration_node) rows_at
      migration_state

-- The rows of the first height are written; the second ends nothing.
migrated_heights :
    (get_transactions full_cache migration_libraries 8 9
      (λ height. migration_node)
      rows_at
      migration_state)
    ≡ (
      ok migration_state,
      record { id = 2; events = with_id (codes "8-0") (event (codes "8-0")) ∷ [] }
          ∷ record { id = 1; events = with_id (codes "8-1") (event (codes "8-1")) ∷ [] }
          ∷ [],
    )
unfolding get_transactions heights_loop get_transaction with_rows arranged keyed sort_key split atoi
    in_int set_string positive scan_number scan digit_value paired_rows get_block_hashes ask_hashes
    look_up await_hashes gather_two on_reply get_metadata get_mdecoder find
    get_transactions_for_height get_extrinsic pair_rows pair_row find_extrinsic extrinsic_id
    format_uint digits to_lower update_rows
migrated_heights = refl
