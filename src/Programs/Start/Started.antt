-- ===== src/Programs/Start/Started.antt =====
-- What the steps that the programs of `cmd` share leave: the storage and the client.
use polkadot_worker.Base.{
  ℕ, ◌≡◌, refl, [], Option, none, some, Bytes, Outcome, ok, err, ok_inj, subst,
}
use polkadot_worker.Scale.Storage.{no_network, DecodeStorage, init}
use polkadot_worker.Indexer.Hashes.{Lru}
use polkadot_worker.Indexer.Block.{Settings}
use polkadot_worker.Indexer.Pool.{get_block_kind}
use polkadot_worker.Indexer.Pool.Service.{Reach, start}
use polkadot_worker.Indexer.Client.{Client, new_client, or_fatal, with_cache}
use polkadot_worker.Programs.Start.{Stop, Outside, spec_name, start_storage, stored}

-- A storage that decodes for a network, with no decoder yet.
abbrev pub Decodes : {D : Type 0} → Bytes → DecodeStorage D → Type 0
Decodes name ds = ds ≡ record { spec_name = name; decoders = [] }

stored_init :
    {E D : Type 0} (file : Option Bytes) (name : Bytes) {ds : DecodeStorage D}
    → ◌≡◌ {A = Outcome (Stop E) (DecodeStorage D)}
        (stored (elim file [
          | none ↦ (err (no_network name), record { spec_name = name; decoders = [] })
          | some f ↦ (ok tt, record { spec_name = name; decoders = [] })
        ]))
        (ok ds)
    → Decodes name ds
stored_init none name h = cc
stored_init (some f) name h = cc

pub start_storage-Decodes :
    {E D : Type 0} (out : Outside E) (chain : Bytes) {ds : DecodeStorage D}
    → start_storage out chain ≡ ok ds
    → Decodes (spec_name chain) ds
unfolding start_storage init
start_storage-Decodes out chain h = stored_init (out.network_file _) (spec_name chain) h

-- A client whose pool is new, over a storage, with its settings.
pub record New {D P S V : Type 0} (lru : Lru) (proxy : Option P) (ds : DecodeStorage D)
    (set : Settings) (c : Client lru D P S V) : Type 0 where
  pub proxy_kept : c.proxy ≡ proxy
  pub storage_kept : c.ds ≡ ds
  pub settings_kept : c.settings ≡ set
  pub pool_new : Reach get_block_kind [] 300 (record { pool = c.gb_pool; held = [] })

or_fatal-New :
    {D P S V E : Type 0} (lru : Lru) (proxy : Option P) (ds : DecodeStorage D) (ss : Option S)
    (set : Settings) (n : ℕ) (o : Option lru.Cache) {c : Client lru D P S V}
    → ◌≡◌ {A = Outcome E (Client lru D P S V)}
        (or_fatal lru (with_cache lru proxy ds ss set n) o)
        (ok c)
    → New lru proxy ds set c
or_fatal-New lru proxy ds ss set n none h = cc
or_fatal-New lru proxy ds ss set n (some cache) h =
    subst (New lru proxy ds set) (ok_inj h)
      (record { proxy_kept = refl; storage_kept = refl; settings_kept = refl; pool_new = start })

pub new_client-New :
    {D P S V E : Type 0} (lru : Lru) (new_lru : ℕ → Option lru.Cache) (proxy : Option P)
    (ds : DecodeStorage D) (ss : Option S) (set : Settings) (n : ℕ) {c : Client lru D P S V}
    → ◌≡◌ {A = Outcome E (Client lru D P S V)} (new_client lru new_lru proxy ds ss set n) (ok c)
    → New lru proxy ds set c
unfolding new_client
new_client-New lru new_lru proxy ds ss set n h = or_fatal-New lru proxy ds ss set n (new_lru 3000) h
