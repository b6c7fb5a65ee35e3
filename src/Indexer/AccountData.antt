-- ===== src/Indexer/AccountData.antt =====
-- `indexer/account.go`: the account that `getAccountData` reads from what the decoder returns, and the
-- responses that it accepts.
use polkadot_worker.Base.{
  ℕ, Option, some, Bytes, codes, same, is_empty, if◌then◌else◌, Outcome, ok, err, ◌>>=◌, [],
}
use polkadot_worker.Api.Session.{ConnError, Response}
use polkadot_worker.Indexer.Hashes.{HashesError}
use polkadot_worker.Indexer.Latest.{LatestError, MetadataError, no_error}

-- `PolkaAccountInfo` with its data.
pub record AccountInfo : Type 0 where
  pub nonce : ℕ
  pub consumers : ℕ
  pub providers : ℕ
  pub free : Bytes
  pub reserved : Bytes
  pub misc_frozen : Bytes
  pub fee_frozen : Bytes

abbrev pub empty_info : AccountInfo
empty_info = record {
  nonce = 0;
  consumers = 0;
  providers = 0;
  free = [];
  reserved = [];
  misc_frozen = [];
  fee_frozen = [];
}

pub data AccountError (E : Type 0) : Type 0 where
  latest_failed : LatestError → AccountError E
  hashes_failed : HashesError → AccountError E
  not_sent : ConnError → AccountError E
  wrong_response : ConnError → AccountError E
  wrong_type : AccountError E
  empty_response : AccountError E
  version_not_unmarshalled : AccountError E
  metadata_failed : MetadataError E → AccountError E
  not_decoded : Bytes → AccountError E
  timeout : AccountError E

-- What the SCALE decoder makes of an account, as far as the type assertions tell it apart.
pub data Leaf : Type 0 where
  decimal : Bytes → Leaf
  other_leaf : Leaf

pub data Datum : Type 0 where
  uint32 : ℕ → Datum
  fields : (Bytes → Option Leaf) → Datum
  other_datum : Datum

module _ {E : Type 0} where
  abbrev pub as_uint32 : Bytes → Option Datum → Outcome (AccountError E) ℕ
  as_uint32 name (some (uint32 n)) = ok n
  as_uint32 name _ = err (not_decoded name)

  abbrev pub as_fields : Option Datum → Outcome (AccountError E) (Bytes → Option Leaf)
  as_fields (some (fields f)) = ok f
  as_fields _ = err (not_decoded (codes "data"))

  -- `f2.String()`
  abbrev pub as_decimal : Bytes → Option Leaf → Outcome (AccountError E) Bytes
  as_decimal name (some (decimal s)) = ok s
  as_decimal name _ = err (not_decoded name)

  -- The fields of the account, in the order in which they are read.
  unfoldable pub account_info : (Bytes → Option Datum) → Outcome (AccountError E) AccountInfo
  account_info inf = do
    nonce ← as_uint32 (codes "nonce") (inf (codes "nonce"))
    consumers ← as_uint32 (codes "consumers") (inf (codes "consumers"))
    providers ← as_uint32 (codes "providers") (inf (codes "providers"))
    data_ ← as_fields (inf (codes "data"))
    free ← as_decimal (codes "free") (data_ (codes "free"))
    reserved ← as_decimal (codes "reserved") (data_ (codes "reserved"))
    misc ← as_decimal (codes "misc frozen") (data_ (codes "miscFrozen"))
    fee ← as_decimal (codes "fee frozen") (data_ (codes "feeFrozen"))
    ok (record {
      nonce = nonce;
      consumers = consumers;
      providers = providers;
      free = free;
      reserved = reserved;
      misc_frozen = misc;
      fee_frozen = fee;
    })

  -- A response of the wanted type, with a result.
  unfoldable pub checked_response : Bytes → Response → Outcome (AccountError E) Bytes
  checked_response type r = do
    _ ← no_error wrong_response r.error
    let result = if is_empty r.result then err empty_response else ok r.result
    if same r.type type then result else err wrong_type
