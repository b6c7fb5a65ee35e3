-- ===== src/Indexer/Latest.antt =====
-- `indexer/getBlock.go`: `getLatestHeight`, `GetMetadata` and `GetTransactionsForHeight`. What the
-- node answers is the list of responses that arrive while the function runs.
pub mod Header
pub mod Fetching
use polkadot_worker.Base.{
  ℕ, ◌%◌, ◌^◌, ◌-◌, ◌+◌, ◌≡◌, Bool, List, [], ◌∷◌, Option, none, some, Bytes, codes, is_empty,
  cut_quotes, if◌then◌else◌, Outcome, ok, err, panic, block, ◌>>=◌, or_panic, or_err, wrap,
}
use polkadot_worker.Base.Int.{ℤ, pos, negsuc}
use polkadot_worker.Stdlib.Numbers.{set_string}
use polkadot_worker.Stdlib.Strings.{remove_hex_prefix}
use polkadot_worker.Api.Session.{ConnError, Response}
use polkadot_worker.Indexer.Hashes.{Lru}
use polkadot_worker.Scale.Storage.{
  Decoded, ScaleError, MDecoder, DecodeStorage, ScaleExtrinsic, get_mdecoder, set_metadata_decoder,
  get_extrinsic,
}

pub data LatestError : Type 0 where
  not_sent : ConnError → LatestError
  node_error : ConnError → LatestError
  not_unmarshalled : Bytes → LatestError
  number_empty : Bytes → LatestError

-- `resp := <-ch`: without a response the wait has no end.
abbrev pub receive :
    {E A : Type 0} → List Response → (Response → List Response → Outcome E A) → Outcome E A
receive [] f = block
receive (r ∷ rs) f = f r rs

-- `if resp.Error != nil`
abbrev pub no_error : {E : Type 0} → (ConnError → E) → Option ConnError → Outcome E (Unit {0})
no_error f none = ok tt
no_error f (some e) = err (f e)

-- `n.Uint64()`: the low 64 bits of the absolute value.
abbrev pub int_uint64 : ℤ → ℕ
int_uint64 (pos n) = n % 2 ^ 64
int_uint64 (negsuc n) = (n + 1) % 2 ^ 64

-- `n.SetString(s, 16)`, its result ignored: after a failure the value of `n` is undefined, and is
-- here whatever `undefined` says.
unfoldable pub read_hex : (Bytes → ℕ) → Bytes → ℕ
read_hex undefined s = elim (set_string 16 s) [ some z ↦ int_uint64 z | none ↦ undefined s ]

module _ (lru : Lru) (undefined : Bytes → ℕ) (header_number : Bytes → Option Bytes) where
  open lru use {Cache, add}

  -- The header of the top block; `header_number` is what `json.Unmarshal` reads for its number.
  unfoldable pub height_of : Response → Outcome LatestError ℕ
  height_of header = do
    number ← or_err (not_unmarshalled header.result) (header_number header.result)
    let n = read_hex undefined (remove_hex_prefix number)
    if is_empty number then err (number_empty header.result) else ok n

  -- `send` says what `Send` returns for each of the two methods.
  unfoldable pub get_latest_height :
      (Bytes → Option ConnError) → Cache → List Response → Outcome LatestError (ℕ × Cache)
  get_latest_height send cache rs = do
    _ ← no_error not_sent (send (codes "chain_getFinalizedHead"))
    receive rs λ resp rest. do
      _ ← no_error node_error resp.error
      _ ← no_error not_sent (send (codes "chain_getHeader"))
      receive rest λ header _. do
        _ ← no_error node_error header.error
        height ← height_of header
        hash ← or_panic (cut_quotes resp.result)
        ok (height, add cache height hash)

pub data MetadataError (E : Type 0) : Type 0 where
  storage_error : ScaleError E → MetadataError E
  metadata_not_sent : ConnError → MetadataError E
  metadata_error : ConnError → MetadataError E

module _ {E D : Type 0} (process : Bytes → Decoded E D) where
  abbrev pub with_storage :
      Outcome (ScaleError E) (MDecoder D) × DecodeStorage D
      → Outcome (MetadataError E) (MDecoder D) × DecodeStorage D
  with_storage (m, ds) = (wrap storage_error m, ds)

  abbrev pub set_cut :
      ℕ → DecodeStorage D → Option Bytes → Outcome (MetadataError E) (MDecoder D) × DecodeStorage D
  set_cut version ds none = (panic, ds)
  set_cut version ds (some s) = with_storage (set_metadata_decoder process version s ds)

  abbrev pub on_metadata :
      ℕ
      → DecodeStorage D
      → Option ConnError
      → Bytes
      → Outcome (MetadataError E) (MDecoder D) × DecodeStorage D
  on_metadata version ds (some e) result = (err (metadata_error e), ds)
  on_metadata version ds none result = set_cut version ds (cut_quotes result)

  abbrev pub await_metadata :
      ℕ → DecodeStorage D → List Response → Outcome (MetadataError E) (MDecoder D) × DecodeStorage D
  await_metadata version ds [] = (block, ds)
  await_metadata version ds (r ∷ _) = on_metadata version ds r.error r.result

  abbrev pub ask_metadata :
      Option ConnError
      → ℕ
      → DecodeStorage D
      → List Response
      → Outcome (MetadataError E) (MDecoder D) × DecodeStorage D
  ask_metadata (some e) version ds rs = (err (metadata_not_sent e), ds)
  ask_metadata none version ds rs = await_metadata version ds rs

  abbrev pub found_or_asked :
      Option ConnError
      → ℕ
      → DecodeStorage D
      → List Response
      → Outcome (ScaleError E) (Option (MDecoder D))
      → Outcome (MetadataError E) (MDecoder D) × DecodeStorage D
  found_or_asked send version ds rs (ok (some m)) = (ok m, ds)
  found_or_asked send version ds rs (ok none) = ask_metadata send version ds rs
  found_or_asked send version ds rs (err e) = (err (storage_error e), ds)
  found_or_asked send version ds rs panic = (panic, ds)
  found_or_asked send version ds rs block = (block, ds)

  -- `send` is what `Send` returns, if it is called.
  unfoldable pub get_metadata :
      Option ConnError
      → Bytes
      → ℕ
      → DecodeStorage D
      → List Response
      → Outcome (MetadataError E) (MDecoder D) × DecodeStorage D
  get_metadata send name version ds rs =
      found_or_asked send version ds rs (get_mdecoder name version ds)

-- The extrinsics of a block in their order, up to an error.
unfoldable pub get_transactions_for_height :
    {E D : Type 0}
    → (Bytes → D → ℕ → Decoded E ScaleExtrinsic)
    → D
    → ℕ
    → List Bytes
    → Outcome (ScaleError E) (List ScaleExtrinsic)
get_transactions_for_height process d version [] = ok []
get_transactions_for_height process d version (raw ∷ raws) = do
  x ← get_extrinsic process raw d version
  xs ← get_transactions_for_height process d version raws
  ok (x ∷ xs)
