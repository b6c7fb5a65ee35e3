-- ===== src/Indexer/Account/Fates.antt =====
-- What becomes of the channel that `GetAccount` of `indexer/account.go` takes from the pool.
use polkadot_worker.Base.{
  ℕ, ◌≡◌, refl, sym, subst, Bool-cases, inl, inr, List, [], ◌∷◌, Option, none, some, Bytes, codes,
  ◌==◌, if◌then◌else◌, cut_quotes, Outcome, ok, err, panic, block,
}
use polkadot_worker.Api.Session.{ConnError, Response}
use polkadot_worker.Scale.Storage.{MDecoder}
use polkadot_worker.Scale.Requests.{Codecs}
use polkadot_worker.Indexer.Hashes.{Lru}
use polkadot_worker.Indexer.Account.Timeliness.{
  InTime, bind-InTime, wrap-InTime, no_error-InTime, if-InTime, or_panic-InTime, or_err-InTime,
  account_info-InTime, checked_response-InTime,
}
use polkadot_worker.Indexer.Block.{RuntimeVersion}
use polkadot_worker.Indexer.AccountData.{
  AccountInfo, AccountError, latest_failed, hashes_failed, not_sent, version_not_unmarshalled,
  metadata_failed,
}
use polkadot_worker.Indexer.Account.{
  Fate, put_back, cleaned_up, Left, or_put_back, is_timeout, put_unless_timeout, AccountNode,
  AccountLibraries, AccountShared, read_account, await_account, with_request, get_account_data,
  version_response, with_version, then_shared, on_version, account_height, get_account,
}

module _ {E : Type 0} where
  -- Put back on each return but the timeout's, where a goroutine cleans it up; without a return
  -- neither.
  abbrev pub fates_of : {A : Type 0} → Outcome (AccountError E) A → List Fate
  fates_of (ok a) = put_back ∷ []
  fates_of (err e) = if is_timeout e then cleaned_up ∷ [] else put_back ∷ []
  fates_of panic = []
  fates_of block = []

  abbrev Settled : {A : Type 0} → Left E A → Type 0
  Settled (r, fs) = fs ≡ fates_of r

  -- What `getAccountData` has done by itself.
  abbrev data_fates : {A : Type 0} → Outcome (AccountError E) A → List Fate
  data_fates (err e) = if is_timeout e then cleaned_up ∷ [] else []
  data_fates _ = []

  put_unless_timeout-Settled :
      {A : Type 0} (r : Outcome (AccountError E) A) → Settled (put_unless_timeout (r, data_fates r))
  put_unless_timeout-Settled (ok a) = refl
  put_unless_timeout-Settled (err e) = elim (Bool-cases (is_timeout e)) [
    | inl h ↦ rw h (rw h refl)
    | inr h ↦ rw h (rw h refl)
  ]
  put_unless_timeout-Settled panic = refl
  put_unless_timeout-Settled block = refl

  or_put_back-Settled :
      {A B : Type 0} (m : Outcome (AccountError E) A) (f : A → Left E B)
      → InTime m
      → ((a : A) → Settled (f a))
      → Settled (or_put_back m f)
  or_put_back-Settled (ok a) f h k = k a
  or_put_back-Settled (err e) f h k = rw h refl
  or_put_back-Settled panic f h k = refl
  or_put_back-Settled block f h k = refl

  InTime-data_fates : {A : Type 0} (r : Outcome (AccountError E) A) → InTime r → [] ≡ data_fates r
  InTime-data_fates (ok a) h = refl
  InTime-data_fates (err e) h = rw h refl
  InTime-data_fates panic h = refl
  InTime-data_fates block h = refl

  abbrev DataSettled : {A : Type 0} → Left E A → Type 0
  DataSettled (r, fs) = fs ≡ data_fates r

module _ {E D : Type 0} (codecs : Codecs) (lib : AccountLibraries E D) where
  read_account-DataSettled :
      (m : MDecoder D) (version : ℕ) (o : Option Response)
      → DataSettled (read_account codecs lib m version o)
  read_account-DataSettled m version none = refl
  read_account-DataSettled m version (some r) = InTime-data_fates _ (
      bind-InTime _ _ (checked_response-InTime E (codes "state_getStorage") r) λ result.
        bind-InTime _ _ (or_panic-InTime E (cut_quotes result)) λ cut.
          bind-InTime _ _ (or_panic-InTime E (lib.process_account cut m.decoder version))
            λ inf. account_info-InTime E inf)

  await_account-DataSettled :
      (m : MDecoder D) (version : ℕ) (o : Option Response) (e : Option ConnError)
      → DataSettled (await_account codecs lib m version o e)
  await_account-DataSettled m version o none = read_account-DataSettled m version o
  await_account-DataSettled m version o (some e) = refl

  with_request-DataSettled :
      (node : AccountNode) (m : MDecoder D) (version : ℕ) (block_hash : Bytes)
      (r : Outcome (Unit {0}) (Bytes × Option codecs.Fault))
      → DataSettled (with_request codecs lib node m version block_hash r)
  with_request-DataSettled node m version block_hash (ok (request, none)) =
      await_account-DataSettled m version _ _
  with_request-DataSettled node m version block_hash (ok (request, some e)) = refl
  with_request-DataSettled node m version block_hash (err e) = refl
  with_request-DataSettled node m version block_hash panic = refl
  with_request-DataSettled node m version block_hash block = refl

  put_unless_timeout-settles :
      (r : Left E AccountInfo) → DataSettled r → Settled (put_unless_timeout r)
  put_unless_timeout-settles (r, fs) h =
      subst (λ x. Settled (put_unless_timeout (r, x))) (sym h) (put_unless_timeout-Settled r)

  get_account_data-settles :
      (node : AccountNode) (m : MDecoder D) (version : ℕ) (block_hash account : Bytes)
      → Settled (put_unless_timeout (get_account_data codecs lib node m version block_hash account))
  unfolding get_account_data
  get_account_data-settles node m version block_hash account =
      put_unless_timeout-settles _ (with_request-DataSettled node m version block_hash _)

module _ {E D : Type 0} (lru : Lru) (codecs : Codecs) (lib : AccountLibraries E D) where
  then_shared-Settled :
      {A : Type 0} (s : AccountShared lru D) (m : Outcome (AccountError E) A)
      (f : A → Left E AccountInfo × AccountShared lru D)
      → InTime m
      → ((a : A) → Settled (f a).0)
      → Settled (then_shared lru codecs lib s m f).0
  then_shared-Settled s (ok a) f h k = k a
  then_shared-Settled s (err e) f h k = rw h refl
  then_shared-Settled s panic f h k = refl
  then_shared-Settled s block f h k = refl

  with_version-Settled :
      (node : AccountNode) (block_hash account : Bytes) (s : AccountShared lru D)
      (v : RuntimeVersion)
      → Settled (with_version lru codecs lib node block_hash account s v).0
  unfolding with_version
  with_version-Settled node block_hash account s v =
      or_put_back-Settled _ _ (wrap-InTime metadata_failed _ (λ e. refl))
        λ m. get_account_data-settles codecs lib node m v.spec_version block_hash account

  version_response-InTime : (r : Response) → InTime (version_response lru codecs lib r)
  version_response-InTime r =
      bind-InTime _ _ (checked_response-InTime E (codes "state_getRuntimeVersion") r)
        λ s. or_err-InTime version_not_unmarshalled (lib.unmarshal_version s) refl

  on_version-Settled :
      (node : AccountNode) (block_hash account : Bytes) (s : AccountShared lru D)
      (o : Option Response)
      → Settled (on_version lru codecs lib node block_hash account s o).0
  on_version-Settled node block_hash account s none = refl
  on_version-Settled node block_hash account s (some r) =
      then_shared-Settled s _ _ (version_response-InTime r)
        (with_version-Settled node block_hash account s)

  account_height-InTime :
      (node : AccountNode) (height : ℕ) (c : lru.Cache)
      → InTime (account_height lru codecs lib node height c)
  account_height-InTime node height c =
      if-InTime (height == 0) _ _ (wrap-InTime latest_failed _ (λ e. refl)) tt

  -- The channel that a call of `GetAccount` takes is put back into the pool once, or is given once
  -- to the goroutine that cleans it up: to that exactly when the call returns the timeout, and put
  -- back on every other return. A call that panics or waits for ever does neither.
  pub get_account_fates :
      (node : AccountNode) (s : AccountShared lru D) (height : ℕ) (account : Bytes)
      → let r = (get_account lru codecs lib node s height account).0 in r.1 ≡ fates_of r.0
  unfolding get_account
  get_account_fates node s height account =
      then_shared-Settled s _ _ (account_height-InTime node height s.cache) λ (h, c1).
        then_shared-Settled _ _ _ (wrap-InTime hashes_failed _ (λ e. refl)) λ (hs, c2).
          then_shared-Settled _ _ _ (no_error-InTime not_sent node.send_version (λ e. refl))
            λ _. on_version-Settled node _ account _ node.version_reply
