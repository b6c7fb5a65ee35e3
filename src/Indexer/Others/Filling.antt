-- ===== src/Indexer/Others/Filling.antt =====
-- What `getOthers` of `indexer/getBlock.go` returns for seven good replies, in any order.
use polkadot_worker.Base.{
  ℕ, zero, suc, ◌+◌, ◌%◌, ◌≡◌, ◌⊎◌, inl, inr, refl, subst, List, [], ◌∷◌, Option, none, some, Bytes,
  codes, length, ◌==◌, cut_quotes, Outcome, ok, err, ◌>>=◌, arith, map, All, get_elem?, true, false,
}
use polkadot_worker.Api.Session.{ConnError, Response}
use polkadot_worker.Proxy.Client.{DecodeDataRequest}
use polkadot_worker.Indexer.Others.{
  OtherRequest, OthersError, not_sent, Gathered, empty_request, other_requests, send_all, on_result,
  on_storage, gather, get_others,
}

-- What the seven requests ask for.
pub data Part : Type 0 where
  chain block_text timestamp events next_fee_multipier current_era runtime : Part

abbrev pub id_of : Part → ℕ
id_of chain = 2
id_of block_text = 7
id_of timestamp = 8
id_of events = 9
id_of next_fee_multipier = 10
id_of current_era = 11
id_of runtime = 13

abbrev pub method_of : Part → Bytes
method_of chain = codes "system_chain"
method_of block_text = codes "chain_getBlock"
method_of runtime = codes "state_getRuntimeVersion"
method_of _ = codes "state_getStorage"

abbrev pub Occurs : Part → List Part → Type 0
Occurs p ps = (k : ℕ) × (get_elem? ps k ≡ some p)

-- The node gets all the requests of a list.
abbrev pub Sendable : (OtherRequest → Option ConnError) → List OtherRequest → Type 0
Sendable send qs = All (λ q. send q ≡ none) qs

sent_then :
    (o : Option ConnError) (rest : Outcome OthersError (Unit {0}))
    → o ≡ none
    → rest ≡ ok tt
    → elim o [ some e ↦ err (not_sent e) | none ↦ rest ] ≡ ok tt
sent_then none rest e h = h
sent_then (some x) rest e h = cc

send_all_ok :
    (send : OtherRequest → Option ConnError) (qs : List OtherRequest)
    → Sendable send qs
    → send_all send qs ≡ ok tt
unfolding send_all
send_all_ok send [] h = refl
send_all_ok send (q ∷ qs) (e, h) = sent_then (send q) _ e (send_all_ok send qs h)

pub none_fails :
    (block_hash parent_hash grandparent_hash : Bytes)
    → Sendable (λ q. none) (other_requests block_hash parent_hash grandparent_hash)
unfolding other_requests
none_fails block_hash parent_hash grandparent_hash =
    (refl, (refl, (refl, (refl, (refl, (refl, (refl, tt)))))))

module _ {B V : Type 0} (unmarshal_block : Bytes → Option B)
    (unmarshal_version : Bytes → Option V) where
  -- The node's results, in quotes or braces that are cut off, with a block and a version.
  pub record Results : Type 0 where
    pub result : Part → Bytes
    pub inside : Part → Bytes
    pub cut : (p : Part) → cut_quotes (result p) ≡ some (inside p)
    pub block_part : B
    pub block_read : unmarshal_block (result block_text) ≡ some block_part
    pub version : V
    pub version_read : unmarshal_version (result runtime) ≡ some version

  abbrev pub reply : Results → Part → Response
  reply t p = record { id = id_of p; error = none; type = method_of p; result = t.result p }

  -- The place of a part has its result.
  abbrev pub Has : Results → Gathered unmarshal_block unmarshal_version → Part → Type 0
  Has t g chain = g.ddr.chain ≡ t.inside chain
  Has t g block_text = (g.ddr.block ≡ t.inside block_text) × (g.block_part ≡ some t.block_part)
  Has t g timestamp = g.ddr.timestamp ≡ t.inside timestamp
  Has t g events = g.ddr.events ≡ t.inside events
  Has t g next_fee_multipier = g.ddr.next_fee_multipier ≡ t.inside next_fee_multipier
  Has t g current_era = g.ddr.current_era ≡ t.inside current_era
  Has t g runtime = (g.ddr.runtime_parent ≡ t.inside runtime) × (g.version ≡ some t.version)

  -- The parts that replies do not touch, and no error.
  abbrev pub Clean : Gathered unmarshal_block unmarshal_version → Type 0
  Clean g = (g.error ≡ none) × (g.ddr.block_hash ≡ []) × (g.ddr.metadata_parent ≡ [])

  -- What one reply writes.
  abbrev pub fill :
      Results
      → Part
      → Gathered unmarshal_block unmarshal_version
      → Gathered unmarshal_block unmarshal_version
  fill t chain g = record g { ddr = record g.ddr { chain = t.inside chain } }
  fill t block_text g = record g {
    ddr = record g.ddr { block = t.inside block_text };
    block_part = some t.block_part;
    error = none;
  }
  fill t timestamp g = record g { ddr = record g.ddr { timestamp = t.inside timestamp } }
  fill t events g = record g { ddr = record g.ddr { events = t.inside events } }
  fill t next_fee_multipier g = record g {
    ddr = record g.ddr { next_fee_multipier = t.inside next_fee_multipier };
  }
  fill t current_era g = record g { ddr = record g.ddr { current_era = t.inside current_era } }
  fill t runtime g = record g {
    ddr = record g.ddr { runtime_parent = t.inside runtime };
    version = some t.version;
    error = none;
  }

  on_result-fill :
      (t : Results) (p : Part) (g : Gathered unmarshal_block unmarshal_version)
      → on_result unmarshal_block unmarshal_version (reply t p) g ≡ ok (fill t p g)
  unfolding on_result on_storage
  on_result-fill t block_text g = rw (t.cut block_text, t.block_read) refl
  on_result-fill t runtime g = rw (t.cut runtime, t.version_read) refl
  on_result-fill t p g = rw (t.cut p) refl

  fill-Has :
      (t : Results) (p : Part) (g : Gathered unmarshal_block unmarshal_version)
      → Has t (fill t p g) p
  fill-Has t block_text g = (refl, refl)
  fill-Has t runtime g = (refl, refl)
  fill-Has t p g = refl

  fill-Has_other :
      (t : Results) (p q : Part) (g : Gathered unmarshal_block unmarshal_version)
      → Has t g q
      → Has t (fill t p g) q
  fill-Has_other t chain chain g h = refl
  fill-Has_other t block_text block_text g h = (refl, refl)
  fill-Has_other t timestamp timestamp g h = refl
  fill-Has_other t events events g h = refl
  fill-Has_other t next_fee_multipier next_fee_multipier g h = refl
  fill-Has_other t current_era current_era g h = refl
  fill-Has_other t runtime runtime g h = (refl, refl)
  fill-Has_other t p q g h = h

  fill-Clean :
      (t : Results) (p : Part) (g : Gathered unmarshal_block unmarshal_version)
      → Clean g
      → Clean (fill t p g)
  fill-Clean t block_text g (e, h, k) = (refl, h, k)
  fill-Clean t runtime g (e, h, k) = (refl, h, k)
  fill-Clean t p g h = h

  -- The parts in the order of their replies.
  unfoldable pub filled :
      Results
      → List Part
      → Gathered unmarshal_block unmarshal_version
      → Gathered unmarshal_block unmarshal_version
  filled t [] g = g
  filled t (p ∷ ps) g = filled t ps (fill t p g)

  filled-Has :
      (t : Results) (ps : List Part) (q : Part) (g : Gathered unmarshal_block unmarshal_version)
      → Occurs q ps ⊎ Has t g q
      → Has t (filled t ps g) q
  unfolding filled
  filled-Has t [] q g (inl (k, e)) = cc
  filled-Has t [] q g (inr h) = h
  filled-Has t (p ∷ ps) q g (inr h) =
      filled-Has t ps q (fill t p g) (inr (fill-Has_other t p q g h))
  filled-Has t (p ∷ ps) q g (inl (zero, e)) =
      let same_part : p ≡ q = cc in
      filled-Has t ps q (fill t p g) (inr (subst (Has t (fill t p g)) same_part (fill-Has t p g)))
  filled-Has t (p ∷ ps) q g (inl (suc k, e)) = filled-Has t ps q (fill t p g) (inl (k, e))

  filled-Clean :
      (t : Results) (ps : List Part) (g : Gathered unmarshal_block unmarshal_version)
      → Clean g
      → Clean (filled t ps g)
  unfolding filled
  filled-Clean t [] g h = h
  filled-Clean t (p ∷ ps) g h = filled-Clean t ps (fill t p g) (fill-Clean t p g h)

  gather-filled :
      (t : Results) (i : ℕ) (p : Part) (ps : List Part)
      (g : Gathered unmarshal_block unmarshal_version)
      → i + length ps ≡ 6
      → gather unmarshal_block unmarshal_version i (map (reply t) (p ∷ ps)) g
        ≡ ok (filled t (p ∷ ps) g)
  unfolding gather filled
  gather-filled t i p [] g l =
      let six : (i == 6) ≡ true = ground (arith, l) in rw (on_result-fill t p g, ◌>>=◌, six) refl
  gather-filled t i p (q ∷ ps) g l =
      let n : (i == 6) ≡ false = ground (arith, l) in
      let w : (i + 1) % 256 ≡ i + 1 = omega arith in
      rw (on_result-fill t p g, ◌>>=◌, n, w)
        (gather-filled t (i + 1) q ps (fill t p g) (omega arith))

  -- The request for the proxy with all results, and the other two fields empty.
  abbrev pub complete : Results → DecodeDataRequest
  complete t = record {
    block = t.inside block_text;
    chain = t.inside chain;
    block_hash = [];
    events = t.inside events;
    timestamp = t.inside timestamp;
    metadata_parent = [];
    runtime_parent = t.inside runtime;
    current_era = t.inside current_era;
    next_fee_multipier = t.inside next_fee_multipier;
  }

  abbrev pub gathered : Results → Gathered unmarshal_block unmarshal_version
  gathered t = record {
    ddr = complete t;
    block_part = some t.block_part;
    version = some t.version;
    error = none;
  }

  all_Has :
      (t : Results) (g : Gathered unmarshal_block unmarshal_version)
      → ((p : Part) → Has t g p)
      → Clean g
      → g ≡ gathered t
  all_Has t g h (e, k, m) =
      rw
        (
          e,
          k,
          m,
          h chain,
          (h block_text).0,
          (h block_text).1,
          h timestamp,
          h events,
          h next_fee_multipier,
          h current_era,
          (h runtime).0,
          (h runtime).1,
        )
        refl

  abbrev pub blank : Gathered unmarshal_block unmarshal_version
  blank = record { ddr = empty_request; block_part = none; version = none; error = none }

  -- With all requests sent and seven good replies, one for each of them in whatever order, the call
  -- returns with every result in its place and no error.
  pub get_others_complete :
      (send : OtherRequest → Option ConnError) (block_hash parent_hash grandparent_hash : Bytes)
      (t : Results) (ps : List Part)
      → Sendable send (other_requests block_hash parent_hash grandparent_hash)
      → length ps ≡ 7
      → ((p : Part) → Occurs p ps)
      → get_others unmarshal_block unmarshal_version send block_hash parent_hash grandparent_hash
          (map (reply t) ps)
        ≡ ok (gathered t)
  unfolding get_others
  get_others_complete send b p gp t [] s l o = absurd (omega arith)
  get_others_complete send b p gp t (q ∷ ps) s l o =
      let whole =
        all_Has t (filled t (q ∷ ps) blank) (λ r. filled-Has t (q ∷ ps) r blank (inl (o r)))
          (filled-Clean t (q ∷ ps) blank (refl, refl, refl)) in
      rw (send_all_ok send (other_requests b p gp) s, ◌>>=◌)
        (rw (gather-filled t 0 q ps blank (omega arith), ◌>>=◌) (rw whole refl))
