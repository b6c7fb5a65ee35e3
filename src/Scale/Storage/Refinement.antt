-- ===== src/Scale/Storage/Refinement.antt =====
-- What the users of a `DecodeStorage` of `api/scale/scale.go` see over any sequence of calls.
use polkadot_worker.Base.{
  ℕ, ◌≡◌, refl, ap, List, [], ◌∷◌, Option, some, Bytes, codes, same, ◌==◌, if◌then◌else◌, Outcome,
  ok, err, panic, block, arith,
}
use polkadot_worker.Base.Maps.{find, insert, find-insert}
use polkadot_worker.Scale.Storage.{
  Decoded, ScaleError, name_mismatch, recovered, MDecoder, made, DecodeStorage, get_mdecoder,
  stored, set_metadata_decoder,
}

module _ {E D : Type 0} (process : Bytes → Decoded E D) where
  pub data Call : Type 0 where
    get_call : Bytes → ℕ → Call
    set_call : ℕ → Bytes → Call

  -- What a call returns.
  pub data Seen : Type 0 where
    got : Outcome (ScaleError E) (Option (MDecoder D)) → Seen
    did_set : Outcome (ScaleError E) (MDecoder D) → Seen

  -- The results of a sequence of calls on a storage.
  unfoldable pub observed : List Call → DecodeStorage D → List Seen
  observed [] ds = []
  observed (get_call name version ∷ cs) ds = got (get_mdecoder name version ds) ∷ observed cs ds
  observed (set_call version metadata ∷ cs) ds =
      let (r, ds') = set_metadata_decoder process version metadata ds in did_set r ∷ observed cs ds'

  -- The abstract storage: a network's name, and for each version a decoder or none.
  abbrev Versions : Type 0
  Versions = ℕ → Option (MDecoder D)

  abbrev updated : ℕ → MDecoder D → Versions → Versions
  updated version m f w = if version == w then some m else f w

  -- What a decoder's outcome makes of the abstract storage, and of the calls that follow.
  abbrev after_set :
      Versions → ℕ → Bytes → (Versions → List Seen) → Outcome (ScaleError E) D → List Seen
  after_set f version metadata later (ok d) =
      did_set (ok (made version metadata d)) ∷ later (updated version (made version metadata d) f)
  after_set f version metadata later (err e) = did_set (err e) ∷ later f
  after_set f version metadata later panic = did_set panic ∷ later f
  after_set f version metadata later block = did_set block ∷ later f

  -- The results of the same calls on the abstract storage. Nothing but a metadata that the library
  -- decodes changes it.
  unfoldable pub expected : Bytes → Versions → List Call → List Seen
  expected network f [] = []
  expected network f (get_call name version ∷ cs) =
      let found = ok (f version) in
      let mismatch = err (name_mismatch network name) in
      got (if same network name then found else mismatch) ∷ expected network f cs
  expected network f (set_call version metadata ∷ cs) =
      after_set f version metadata (λ g. expected network g cs)
        (recovered (codes "fatal error in SetMetadataDecoder") (process metadata))

  -- A storage that holds what the abstract one holds.
  pub record Holds (network : Bytes) (f : Versions) (ds : DecodeStorage D) : Type 0 where
    pub named : ds.spec_name ≡ network
    pub agrees : (v : ℕ) → find v ds.decoders ≡ f v

  set-Holds :
      (network : Bytes) (f : Versions) (ds : DecodeStorage D) (version : ℕ) (m : MDecoder D)
      → Holds network f ds
      → Holds network (updated version m f) (record ds { decoders = insert version m ds.decoders })
  set-Holds network f ds version m h = record {
    named = h.named;
    agrees = λ v. ground (arith, find-insert v version m ds.decoders, h.agrees v);
  }

  set_observed :
      (network : Bytes) (f : Versions) (ds : DecodeStorage D) (version : ℕ) (metadata : Bytes)
      (cs : List Call) (r : Outcome (ScaleError E) D)
      → Holds network f ds
      → ((g : Versions) (ds' : DecodeStorage D)
          → Holds network g ds'
          → observed cs ds' ≡ expected network g cs)
      → did_set (stored version metadata ds r).0 ∷ observed cs (stored version metadata ds r).1
        ≡ after_set f version metadata (λ g. expected network g cs) r
  set_observed network f ds version metadata cs (ok d) h later =
      ap (◌∷◌ (did_set (ok (made version metadata d)))) (
        later (updated version (made version metadata d) f) _
          (set-Holds network f ds version (made version metadata d) h))
  set_observed network f ds version metadata cs (err e) h later =
      ap (◌∷◌ (did_set (err e))) (later f ds h)
  set_observed network f ds version metadata cs panic h later =
      ap (◌∷◌ (did_set panic)) (later f ds h)
  set_observed network f ds version metadata cs block h later =
      ap (◌∷◌ (did_set block)) (later f ds h)

  -- Every sequence of calls on a storage returns what it returns on the abstract storage that it
  -- holds: `GetMDecoder` finds the last decoder set for the version, under the storage's own network
  -- only, and a `SetMetadataDecoder` whose decoder fails or panics changes nothing.
  pub observed_refines :
      (network : Bytes) (f : Versions) (ds : DecodeStorage D) (cs : List Call)
      → Holds network f ds
      → observed cs ds ≡ expected network f cs
  unfolding observed expected get_mdecoder set_metadata_decoder
  observed_refines network f ds [] h = refl
  observed_refines network f ds (get_call name version ∷ cs) h =
      let e = observed_refines network f ds cs h in rw (e, h.named, h.agrees version) refl
  observed_refines network f ds (set_call version metadata ∷ cs) h =
      set_observed network f ds version metadata cs
        (recovered (codes "fatal error in SetMetadataDecoder") (process metadata)) h
        (λ g ds'. observed_refines network g ds' cs)
