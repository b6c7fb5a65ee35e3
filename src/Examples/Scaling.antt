-- ===== src/Examples/Scaling.antt =====
-- Runs of the packages below `api/scale`.
use mathlib.Core.List
use polkadot_worker.Base.{
  ℕ, ◌≡◌, inl, refl, List, [], ◌∷◌, ◌++◌, none, some, Bytes, codes, arith, ok, err,
}
use polkadot_worker.Base.Maps.{find, insert, delete}
use polkadot_worker.Scale.Storage.{
  Decoded, decoded, refused, library, name_mismatch, DecodeStorage, made, get_mdecoder,
  set_metadata_decoder,
}
use polkadot_worker.Scale.Storage.Refinement.{
  Call, get_call, set_call, got, did_set, observed, expected, Holds, observed_refines,
}
use polkadot_worker.Scale.Address.{address_bytes}
use polkadot_worker.Scale.Address.Keys.{one_byte, address_bytes_lem}
use polkadot_worker.Scale.Xxhash.{reverse_bytes}
use polkadot_worker.Scale.Xxhash.Reversal.{reverse_bytes-reverse}

-- A decoder that keeps its text, and refuses an empty one.
abbrev keep_text : Bytes → Decoded ℕ Bytes
keep_text [] = refused 1
keep_text (c ∷ s) = decoded (c ∷ s)

abbrev polkadot : DecodeStorage Bytes
polkadot = record { spec_name = codes "polkadot"; decoders = [] }

-- A decoder is set and found, a text that is refused changes nothing, and another network and
-- another version have none.
abbrev five_calls : List (Call keep_text)
five_calls =
    set_call 7 (codes "meta")
    ∷ set_call 7 []
    ∷ get_call (codes "polkadot") 7
    ∷ get_call (codes "kusama") 7
    ∷ get_call (codes "polkadot") 8
    ∷ []

five_seen :
    observed keep_text five_calls polkadot
    ≡ did_set (ok (made 7 (codes "meta") (codes "meta")))
      ∷ did_set (err (library 1))
      ∷ got (ok (some (made 7 (codes "meta") (codes "meta"))))
      ∷ got (err (name_mismatch (codes "polkadot") (codes "kusama")))
      ∷ got (ok none)
      ∷ []
unfolding observed get_mdecoder set_metadata_decoder find insert delete
five_seen = refl

polkadot-Holds : Holds keep_text (codes "polkadot") (λ v. none) polkadot
unfolding find
polkadot-Holds = record { named = refl; agrees = λ v. refl }

observed_refines_example :
    observed keep_text five_calls polkadot
    ≡ expected keep_text (codes "polkadot") (λ v. none) five_calls
observed_refines_example =
    observed_refines keep_text (codes "polkadot") (λ v. none) polkadot five_calls polkadot-Holds

reverse_bytes-reverse_example : reverse_bytes (1 ∷ 2 ∷ 3 ∷ []) ≡ List.reverse (1 ∷ 2 ∷ 3 ∷ [])
reverse_bytes-reverse_example = reverse_bytes-reverse (1 ∷ 2 ∷ 3 ∷ [])

-- A key of 32 bytes.
abbrev key32 : Bytes
key32 = codes "0123456789abcdef0123456789abcdef"

address_bytes_lem_example : address_bytes ((0 ∷ []) ++ (key32 ++ (1 ∷ 2 ∷ []))) ≡ ok key32
address_bytes_lem_example =
    address_bytes_lem (0 ∷ []) key32 (1 ∷ 2 ∷ []) (one_byte 0 refl) (omega arith)
      (inl (refl, inl refl))
