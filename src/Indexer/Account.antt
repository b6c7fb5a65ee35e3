-- ===== src/Indexer/Account.antt =====
-- `indexer/account.go`: `GetAccount`, `getAccountData` and `cleanupTimeoutedCh`. Of a wait with a
-- timeout the model has what ends it: a response, or none after the time.
pub mod Timeliness
pub mod Fates
use polkadot_worker.Base.{
  ℕ, suc, ◌+◌, ◌≡◌, Bool, true, false, List, [], ◌∷◌, ◌++◌, Option, none, some, Bytes, codes, same,
  is_empty, cut_quotes, ◌==◌, if◌then◌else◌, Outcome, ok, err, panic, block, ◌>>=◌, or_panic,
  or_err, wrap,
}
use polkadot_worker.Api.Session.{ConnError, Response}
use polkadot_worker.Scale.Storage.{Decoded, MDecoder, DecodeStorage}
use polkadot_worker.Scale.Requests.{Codecs, account_request}
use polkadot_worker.Indexer.Hashes.{Lru, HashRequest, HashesError, get_block_hashes}
use polkadot_worker.Indexer.Latest.{
  LatestError, MetadataError, get_latest_height, get_metadata, no_error,
}
use polkadot_worker.Indexer.Block.{RuntimeVersion}
use polkadot_worker.Indexer.AccountData.{
  AccountInfo, empty_info, AccountError, latest_failed, hashes_failed, not_sent,
  version_not_unmarshalled, metadata_failed, timeout, Datum, account_info, checked_response,
}

-- What becomes of the channel: `gbPool.Put`, or the goroutine that cleans it up.
pub data Fate : Type 0 where
  put_back cleaned_up : Fate

-- The rounds of `cleanupTimeoutedCh`, with its counter: a response, or none for ten minutes.
-- `true`: the channel is closed, whatever `close` says.
unfoldable pub cleanup_loop : ℕ → ℕ → List (Option Response) → Bool
cleanup_loop i num [] = false
cleanup_loop i num (none ∷ rs) = true
cleanup_loop i num (some r ∷ rs) =
    let rest = cleanup_loop (i + 1) num rs in if i + 1 == num then true else rest

-- A result, with the fates of the channel up to it.
abbrev pub Left : Type 0 → Type 0 → Type 0
Left E A = Outcome (AccountError E) A × List Fate

module _ {E : Type 0} where
  -- `if err != nil { c.gbPool.Put(ch); return … }`
  abbrev pub or_put_back : {A B : Type 0} → Outcome (AccountError E) A → (A → Left E B) → Left E B
  or_put_back (ok a) f = f a
  or_put_back (err e) f = (err e, put_back ∷ [])
  or_put_back panic f = (panic, [])
  or_put_back block f = (block, [])

  -- `errors.Is(err, ErrTimeout)`
  abbrev pub is_timeout : AccountError E → Bool
  is_timeout timeout = true
  is_timeout _ = false

  -- The end of `GetAccount`, on what `getAccountData` has returned and done.
  abbrev pub put_unless_timeout : {A : Type 0} → Left E A → Left E A
  put_unless_timeout (ok a, fs) = (ok a, fs ++ put_back ∷ [])
  put_unless_timeout (err e, fs) =
      if is_timeout e then (err e, fs) else (err e, fs ++ put_back ∷ [])
  put_unless_timeout (panic, fs) = (panic, fs)
  put_unless_timeout (block, fs) = (block, fs)

-- What the node does during one call.
pub record AccountNode : Type 0 where
  pub send_latest : Bytes → Option ConnError
  pub latest_replies : List Response
  pub send_hashes : HashRequest → Option ConnError
  pub hashes_replies : List Response
  pub send_version : Option ConnError
  pub version_reply : Option Response
  pub send_metadata : Option ConnError
  pub metadata_replies : List Response
  pub send_account : Bytes → Bytes → Option ConnError
  pub account_reply : Option Response

-- What the libraries make of their texts; `none` for an account that is not a map.
pub record AccountLibraries (E D : Type 0) : Type 0 where
  pub undefined : Bytes → ℕ
  pub header_number : Bytes → Option Bytes
  pub unmarshal_version : Bytes → Option RuntimeVersion
  pub process_metadata : Bytes → Decoded E D
  pub process_account : Bytes → D → ℕ → Option (Bytes → Option Datum)

pub record AccountShared (lru : Lru) (D : Type 0) : Type 0 where
  pub cache : lru.Cache
  pub storage : DecodeStorage D

module _ {E D : Type 0} (codecs : Codecs) (lib : AccountLibraries E D) where
  -- After the request was sent.
  abbrev pub read_account : MDecoder D → ℕ → Option Response → Left E AccountInfo
  read_account meta version none = (err timeout, cleaned_up ∷ [])
  read_account meta version (some r) = (
    (do
      result ← checked_response (codes "state_getStorage") r
      cut ← or_panic (cut_quotes result)
      inf ← or_panic (lib.process_account cut meta.decoder version)
      account_info inf),
    [],
  )

  abbrev pub await_account :
      MDecoder D → ℕ → Option Response → Option ConnError → Left E AccountInfo
  await_account meta version reply none = read_account meta version reply
  await_account meta version reply (some e) = (err (not_sent e), [])

  -- The error of `AccountRequest` is not returned: the account is then the zero value.
  abbrev pub with_request :
      AccountNode
      → MDecoder D
      → ℕ
      → Bytes
      → Outcome (Unit {0}) (Bytes × Option codecs.Fault)
      → Left E AccountInfo
  with_request node meta version block_hash (ok (request, none)) =
      await_account meta version node.account_reply (node.send_account request block_hash)
  with_request node meta version block_hash (ok (request, some e)) = (ok empty_info, [])
  with_request node meta version block_hash (err e) = (panic, [])
  with_request node meta version block_hash panic = (panic, [])
  with_request node meta version block_hash block = (block, [])

  unfoldable pub get_account_data :
      AccountNode → MDecoder D → ℕ → Bytes → Bytes → Left E AccountInfo
  get_account_data node meta version block_hash account =
      with_request node meta version block_hash (account_request codecs account)

module _ {E D : Type 0} (lru : Lru) (codecs : Codecs) (lib : AccountLibraries E D) where
  abbrev pub version_response : Response → Outcome (AccountError E) RuntimeVersion
  version_response r = do
    result ← checked_response (codes "state_getRuntimeVersion") r
    or_err version_not_unmarshalled (lib.unmarshal_version result)

  -- From the version on. The storage that is left by the metadata is left by the call.
  unfoldable pub with_version :
      AccountNode
      → Bytes
      → Bytes
      → AccountShared lru D
      → RuntimeVersion
      → Left E AccountInfo × AccountShared lru D
  with_version node block_hash account s v =
      let (found, storage) =
        get_metadata lib.process_metadata node.send_metadata v.spec_name v.spec_version s.storage
          node.metadata_replies in
      (
        or_put_back (wrap metadata_failed found) (λ m.
            put_unless_timeout
              (get_account_data codecs lib node m v.spec_version block_hash account)),
        record s { storage = storage },
      )

  -- A step whose failure puts the channel back and leaves the storage as it is.
  abbrev pub then_shared :
      {A : Type 0}
      → AccountShared lru D
      → Outcome (AccountError E) A
      → (A → Left E AccountInfo × AccountShared lru D)
      → Left E AccountInfo × AccountShared lru D
  then_shared s (ok a) f = f a
  then_shared s (err e) f = ((err e, put_back ∷ []), s)
  then_shared s panic f = ((panic, []), s)
  then_shared s block f = ((block, []), s)

  abbrev pub on_version :
      AccountNode
      → Bytes
      → Bytes
      → AccountShared lru D
      → Option Response
      → Left E AccountInfo × AccountShared lru D
  on_version node block_hash account s none = ((err timeout, cleaned_up ∷ []), s)
  on_version node block_hash account s (some r) =
      then_shared s (version_response r) (with_version node block_hash account s)

  abbrev pub account_height : AccountNode → ℕ → lru.Cache → Outcome (AccountError E) (ℕ × lru.Cache)
  account_height node height c =
      let latest =
        get_latest_height lru lib.undefined lib.header_number node.send_latest c
          node.latest_replies in
      if height == 0 then wrap latest_failed latest else ok (height, c)

  -- Between the `Get` of the channel and the return. What a `GetBlockHashes` that fails has put into
  -- the cache is left out.
  unfoldable pub get_account :
      AccountNode → AccountShared lru D → ℕ → Bytes → Left E AccountInfo × AccountShared lru D
  get_account node s height account = then_shared s (account_height node height s.cache) λ (h, c1).
      let s1 = record s { cache = c1 } in
      then_shared s1
        (wrap hashes_failed (get_block_hashes lru node.send_hashes h c1 node.hashes_replies))
        λ ((block_hash, _, _), c2).
          let s2 = record s { cache = c2 } in
          then_shared s2 (no_error not_sent node.send_version)
            λ _. on_version node block_hash account s2 node.version_reply
