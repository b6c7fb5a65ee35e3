-- ===== src/Scale/Storage.antt =====
-- `api/scale/scale.go`: `DecodeStorage`. What the decoders of `scale.go` (the library) do with a
-- text is an argument. Each method holds the lock of the map for its whole access.
pub mod Refinement
use polkadot_worker.Base.{
  ℕ, ◌≡◌, Bool, true, false, List, [], ◌∷◌, ◌++◌, Option, none, some, Bytes, codes, same,
  if◌then◌else◌, Outcome, ok, err, panic, block, ◌>>=◌,
}
use polkadot_worker.Base.Maps.{find, insert}

-- What running a decoder comes to: a value, a returned error, or a panic with a text, an error or
-- something else.
pub data Decoded (E D : Type 0) : Type 0 where
  decoded : D → Decoded E D
  refused : E → Decoded E D
  panicked_string : Bytes → Decoded E D
  panicked_error : E → Decoded E D
  panicked_other : Decoded E D

pub data ScaleError (E : Type 0) : Type 0 where
  library : E → ScaleError E
  text : Bytes → ScaleError E
  name_mismatch : Bytes → Bytes → ScaleError E
  no_network : Bytes → ScaleError E

-- The deferred `recover`, over the returned error.
abbrev pub recovered : {E D : Type 0} → Bytes → Decoded E D → Outcome (ScaleError E) D
recovered fatal (decoded d) = ok d
recovered fatal (refused e) = err (library e)
recovered fatal (panicked_string s) = err (text s)
recovered fatal (panicked_error e) = err (library e)
recovered fatal panicked_other = err (text fatal)

pub record MDecoder (D : Type 0) : Type 0 where
  pub decoder : D
  pub spec : ℕ
  pub bytes : Bytes

pub record DecodeStorage (D : Type 0) : Type 0 where
  pub spec_name : Bytes
  pub decoders : List (ℕ × MDecoder D)

-- The fields of `ScaleExtrinsic` that the indexer reads.
pub record ScaleExtrinsic : Type 0 where
  pub extrinsic_hash : Bytes
  pub call_module_name : Bytes

module _ {D : Type 0} where
  abbrev pub new_decode_storage : DecodeStorage D
  new_decode_storage = record { spec_name = []; decoders = [] }

  -- The metadata is copied.
  abbrev pub made : ℕ → Bytes → D → MDecoder D
  made version metadata d = record { decoder = d; spec = version; bytes = metadata }

module _ {E D : Type 0} where
  -- `Init`: the name is set before the file is looked for; the types that it registers are the
  -- library's.
  unfoldable pub init :
      (Bytes → Option Bytes)
      → Bytes
      → DecodeStorage D
      → Outcome (ScaleError E) (Unit {0}) × DecodeStorage D
  init read_file name ds =
      let ds' = record ds { spec_name = name } in
      elim (read_file (codes "networks/" ++ (name ++ codes ".json"))) [
        | none ↦ (err (no_network name), ds')
        | some file ↦ (ok tt, ds')
      ]

  -- `none` is a nil decoder, with `false`.
  unfoldable pub get_mdecoder :
      Bytes → ℕ → DecodeStorage D → Outcome (ScaleError E) (Option (MDecoder D))
  get_mdecoder name version ds =
      if same ds.spec_name name
      then ok (find version ds.decoders)
      else err (name_mismatch ds.spec_name name)

  -- The methods that read a field of what `GetMDecoder` returns: a nil decoder is a panic, also
  -- where there is an error.
  abbrev pub field_of :
      {F : Type 0}
      → (MDecoder D → F)
      → Outcome (ScaleError E) (Option (MDecoder D))
      → Outcome (ScaleError E) F
  field_of f (ok (some m)) = ok (f m)
  field_of f (ok none) = panic
  field_of f (err _) = panic
  field_of f panic = panic
  field_of f block = block

  unfoldable pub get_metadata_decoder : Bytes → ℕ → DecodeStorage D → Outcome (ScaleError E) D
  get_metadata_decoder name version ds = field_of (λ m. m.decoder) (get_mdecoder name version ds)

  unfoldable pub get_metadata_bytes : Bytes → ℕ → DecodeStorage D → Outcome (ScaleError E) Bytes
  get_metadata_bytes name version ds = field_of (λ m. m.bytes) (get_mdecoder name version ds)

  abbrev pub stored :
      ℕ
      → Bytes
      → DecodeStorage D
      → Outcome (ScaleError E) D
      → Outcome (ScaleError E) (MDecoder D) × DecodeStorage D
  stored version metadata ds (ok d) = (
    ok (made version metadata d),
    record ds { decoders = insert version (made version metadata d) ds.decoders },
  )
  stored version metadata ds (err e) = (err e, ds)
  stored version metadata ds panic = (panic, ds)
  stored version metadata ds block = (block, ds)

  unfoldable pub set_metadata_decoder :
      (Bytes → Decoded E D)
      → ℕ
      → Bytes
      → DecodeStorage D
      → Outcome (ScaleError E) (MDecoder D) × DecodeStorage D
  set_metadata_decoder process version metadata ds =
      stored version metadata ds
        (recovered (codes "fatal error in SetMetadataDecoder") (process metadata))

  unfoldable pub get_extrinsic :
      (Bytes → D → ℕ → Decoded E ScaleExtrinsic)
      → Bytes
      → D
      → ℕ
      → Outcome (ScaleError E) ScaleExtrinsic
  get_extrinsic process raw decoder version =
      recovered (codes "fatal error in GetExtrinsic") (process raw decoder version)
