-- ===== src/Indexer/Others.antt =====
-- `indexer/getBlock.go`: `getOthers`. The responses are a list in the order of their arrival; what
-- `json.Unmarshal` makes of the block and of the runtime version are arguments.
pub mod Losing
pub mod Filling
use polkadot_worker.Base.{
  ℕ, suc, ◌+◌, ◌%◌, Bool, List, [], ◌∷◌, Option, none, some, Bytes, codes, same, ◌==◌,
  if◌then◌else◌, cut_quotes, Outcome, ok, err, panic, block, ◌>>=◌, or_panic,
}
use polkadot_worker.Api.Session.{ConnError, Response}
use polkadot_worker.Proxy.Client.{DecodeDataRequest}

pub data OthersError : Type 0 where
  not_sent : ConnError → OthersError
  node_error : ConnError → OthersError
  not_unmarshalled : OthersError

-- A request: its identifier, its method, and its parameters.
pub record OtherRequest : Type 0 where
  pub id : ℕ
  pub method : Bytes
  pub params : List Bytes

-- The seven requests, in the order in which they are sent.
unfoldable pub other_requests : Bytes → Bytes → Bytes → List OtherRequest
other_requests block_hash parent_hash grandparent_hash =
    record { id = 2; method = codes "system_chain"; params = [] }
    ∷ record { id = 7; method = codes "chain_getBlock"; params = block_hash ∷ [] }
    ∷ record {
      id = 8;
      method = codes "state_getStorage";
      params =
          codes "0xf0c365c3cf59d671eb72da0e7a4113c49f1f0515f462cdcf84e0f1d6045dfcbb"
          ∷ block_hash
          ∷ [];
    }
    ∷ record {
      id = 9;
      method = codes "state_getStorage";
      params =
          codes "0x26aa394eea5630e07c48ae0c9558cef780d41e5e16056765bc8461851072c9d7"
          ∷ block_hash
          ∷ [];
    }
    ∷ record {
      id = 10;
      method = codes "state_getStorage";
      params =
          codes "0x3f1467a096bcd71a5b6a0c8155e208103f2edf3bdf381debe331ab7446addfdc"
          ∷ parent_hash
          ∷ [];
    }
    ∷ record {
      id = 11;
      method = codes "state_getStorage";
      params =
          codes "0x5f3e4907f716ac89b6347d15ececedca0b6a45321efae92aea15e0740ec7afe7"
          ∷ parent_hash
          ∷ [];
    }
    ∷ record { id = 13; method = codes "state_getRuntimeVersion"; params = grandparent_hash ∷ [] }
    ∷ []

abbrev pub empty_request : DecodeDataRequest
empty_request = record {
  block = [];
  chain = [];
  block_hash = [];
  events = [];
  timestamp = [];
  metadata_parent = [];
  runtime_parent = [];
  current_era = [];
  next_fee_multipier = [];
}

-- The first request that is not sent ends the call.
unfoldable pub send_all :
    (OtherRequest → Option ConnError) → List OtherRequest → Outcome OthersError (Unit {0})
send_all send [] = ok tt
send_all send (q ∷ qs) =
    let rest = send_all send qs in elim (send q) [ some e ↦ err (not_sent e) | none ↦ rest ]

-- `if res.Error != nil`
abbrev pub if_error : {A : Type 0} → Option ConnError → (ConnError → A) → A → A
if_error (some e) f x = f e
if_error none f x = x

module _ {B V : Type 0} (unmarshal_block : Bytes → Option B)
    (unmarshal_version : Bytes → Option V) where
  -- The results, and the error that the call would return. `none` in the places of the block and
  -- the version is the zero value that they begin with.
  pub record Gathered : Type 0 where
    pub ddr : DecodeDataRequest
    pub block_part : Option B
    pub version : Option V
    pub error : Option OthersError

  abbrev pub unmarshal_error : {A : Type 0} → Option A → Option OthersError
  unmarshal_error none = some not_unmarshalled
  unmarshal_error (some _) = none

  -- The inner `switch`, on the identifier.
  unfoldable pub on_storage : ℕ → Bytes → Gathered → Outcome OthersError Gathered
  on_storage id result g =
      let cut = or_panic (cut_quotes result) in
      if id == 10
      then (do s ← cut; ok (record g { ddr = record g.ddr { next_fee_multipier = s } }))
      else if id == 11
      then (do s ← cut; ok (record g { ddr = record g.ddr { current_era = s } }))
      else if id == 8
      then (do s ← cut; ok (record g { ddr = record g.ddr { timestamp = s } }))
      else if id == 9
      then (do s ← cut; ok (record g { ddr = record g.ddr { events = s } }))
      else ok g

  -- The outer `switch`, on the type; `err` is overwritten by what `json.Unmarshal` returns.
  unfoldable pub on_result : Response → Gathered → Outcome OthersError Gathered
  on_result r g =
      let cut = or_panic (cut_quotes r.result) in
      if same r.type (codes "system_chain")
      then (do s ← cut; ok (record g { ddr = record g.ddr { chain = s } }))
      else if same r.type (codes "chain_getBlock")
      then (do
        s ← cut
        ok (record g {
          ddr = record g.ddr { block = s };
          block_part = unmarshal_block r.result;
          error = unmarshal_error (unmarshal_block r.result);
        }))
      else if same r.type (codes "state_getRuntimeVersion")
      then (do
        s ← cut
        ok (record g {
          ddr = record g.ddr { runtime_parent = s };
          version = unmarshal_version r.result;
          error = unmarshal_error (unmarshal_version r.result);
        }))
      else if same r.type (codes "state_getStorage")
      then on_storage r.id r.result g
      else ok g

  -- The loop, with its counter `i`, a uint8.
  unfoldable pub gather : ℕ → List Response → Gathered → Outcome OthersError Gathered
  gather i [] g = block
  gather i (r ∷ rs) g =
      let skip = gather ((i + 1) % 256) rs g in
      let take_it = (do
        g' ← on_result r g
        let rest = gather ((i + 1) % 256) rs g'
        if i == 6 then ok g' else rest) in
      if_error r.error (λ e. if i == 7 then ok (record g { error = some (node_error e) }) else skip)
        take_it

  abbrev pub closing : Gathered → Outcome OthersError Gathered
  closing g = elim g.error [ some e ↦ err e | none ↦ ok g ]

  unfoldable pub get_others :
      (OtherRequest → Option ConnError)
      → Bytes
      → Bytes
      → Bytes
      → List Response
      → Outcome OthersError Gathered
  get_others send block_hash parent_hash grandparent_hash rs = do
    _ ← send_all send (other_requests block_hash parent_hash grandparent_hash)
    g ←
        gather 0 rs
          (record { ddr = empty_request; block_part = none; version = none; error = none })
    closing g
