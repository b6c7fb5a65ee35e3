-- ===== src/Indexer/Latest/Fetching.antt =====
-- That `GetMetadata` of `indexer/getBlock.go` asks the node once for a version.
use polkadot_worker.Base.{
  ok_inj, ℕ, ◌≡◌, refl, sym, ap, subst, ◌∙◌, Bool-cases, inl, inr, true, false, List, [], ◌∷◌,
  Option, none, some, Bytes, same, ==_refl, cut_quotes, Outcome, ok, err, panic, block,
}
use polkadot_worker.Base.Maps.{find, insert, find-insert}
use polkadot_worker.Api.Session.{ConnError, Response}
use polkadot_worker.Scale.Storage.{
  Decoded, ScaleError, name_mismatch, MDecoder, made, DecodeStorage, get_mdecoder, stored,
  set_metadata_decoder,
}
use polkadot_worker.Indexer.Latest.{
  MetadataError, get_metadata, with_storage, set_cut, on_metadata, ask_metadata, found_or_asked,
}

module _ {E D : Type 0} (process : Bytes → Decoded E D) (name : Bytes) (version : ℕ) where
  -- A result with a storage that has it.
  abbrev Keeps : Outcome (MetadataError E) (MDecoder D) × DecodeStorage D → Type 0
  Keeps (r, ds) = (m : MDecoder D) → r ≡ ok m → get_mdecoder {E = E} name version ds ≡ ok (some m)

  module _ (ds : DecodeStorage D) (named : same ds.spec_name name ≡ true) where
    get_mdecoder-insert :
        (m : MDecoder D)
        → get_mdecoder {E = E} name version (record ds { decoders = insert version m ds.decoders })
          ≡ ok (some m)
    unfolding get_mdecoder
    get_mdecoder-insert m =
        rw (named, find-insert version version m ds.decoders, ==_refl version) refl

    stored-Keeps :
        (s : Bytes) (r : Outcome (ScaleError E) D)
        → Keeps (with_storage process (stored version s ds r))
    stored-Keeps s (ok d) m e =
        get_mdecoder-insert (made version s d) ∙ ap (λ x. ok (some x)) (ok_inj e)
    stored-Keeps s (err x) m e = cc
    stored-Keeps s panic m e = cc
    stored-Keeps s block m e = cc

    set_cut-Keeps : (o : Option Bytes) → Keeps (set_cut process version ds o)
    unfolding set_metadata_decoder
    set_cut-Keeps none m e = cc
    set_cut-Keeps (some s) m e = stored-Keeps s _ m e

    on_metadata-Keeps :
        (o : Option ConnError) (s : Bytes) → Keeps (on_metadata process version ds o s)
    on_metadata-Keeps (some x) s m e = cc
    on_metadata-Keeps none s m e = set_cut-Keeps (cut_quotes s) m e

    ask_metadata-Keeps :
        (send : Option ConnError) (rs : List Response)
        → Keeps (ask_metadata process send version ds rs)
    ask_metadata-Keeps (some x) rs m e = cc
    ask_metadata-Keeps none [] m e = cc
    ask_metadata-Keeps none (r ∷ rs) m e = on_metadata-Keeps r.error r.result m e

  found-Keeps :
      (send : Option ConnError) (ds : DecodeStorage D) (rs : List Response)
      (o : Option (MDecoder D))
      → same ds.spec_name name ≡ true
      → get_mdecoder {E = E} name version ds ≡ ok o
      → Keeps (found_or_asked process send version ds rs (ok o))
  found-Keeps send ds rs (some d) e q m k = q ∙ ap (λ x. ok (some x)) (ok_inj k)
  found-Keeps send ds rs none e q m k = ask_metadata-Keeps ds e send rs m k

  get_mdecoder_named :
      (ds : DecodeStorage D)
      → same ds.spec_name name ≡ true
      → get_mdecoder {E = E} name version ds ≡ ok (find version ds.decoders)
  unfolding get_mdecoder
  get_mdecoder_named ds e = rw e refl

  get_mdecoder_other :
      (ds : DecodeStorage D)
      → same ds.spec_name name ≡ false
      → get_mdecoder {E = E} name version ds ≡ err (name_mismatch ds.spec_name name)
  unfolding get_mdecoder
  get_mdecoder_other ds e = rw e refl

  -- What `get_mdecoder` finds decides whether the node is asked.
  found_or_asked-Keeps :
      (send : Option ConnError) (ds : DecodeStorage D) (rs : List Response)
      → Keeps (found_or_asked process send version ds rs (get_mdecoder name version ds))
  found_or_asked-Keeps send ds rs m = elim (Bool-cases (same ds.spec_name name)) [
    | inl e ↦
        let q = get_mdecoder_named ds e in
        subst (λ x. Keeps (found_or_asked process send version ds rs x)) (sym q)
          (found-Keeps send ds rs (find version ds.decoders) e q) m
    | inr e ↦
        subst (λ x. Keeps (found_or_asked process send version ds rs x))
          (sym (get_mdecoder_other ds e)) (λ n k. cc) m
  ]

  -- When the metadata of a version is got, from the storage or from the node, the storage that is
  -- left has it: the next call for the same network and version returns the same decoder, leaves
  -- the storage as it is, and needs no answer of the node.
  pub get_metadata_once :
      (send send' : Option ConnError) (ds ds' : DecodeStorage D) (rs rs' : List Response)
      (m : MDecoder D)
      → get_metadata process send name version ds rs ≡ (ok m, ds')
      → get_metadata process send' name version ds' rs' ≡ (ok m, ds')
  unfolding get_metadata
  get_metadata_once send send' ds ds' rs rs' m h =
      let k : get_mdecoder {E = E} name version ds' ≡ ok (some m) =
        subst (λ d. get_mdecoder {E = E} name version d ≡ ok (some m)) (ap (λ p. p.1) h)
          (found_or_asked-Keeps send ds rs m (ap (λ p. p.0) h)) in
      ap (found_or_asked process send' version ds' rs') k
