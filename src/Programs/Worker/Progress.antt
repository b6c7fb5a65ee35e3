-- ===== src/Programs/Worker/Progress.antt =====
-- When a worker of `cmd/polkadot-worker/main.go` starts.
use polkadot_worker.Base.{
  ℕ, ◌≡◌, ◌⊎◌, inl, inr, refl, ap, List, [], ◌∷◌, ◌++◌, Option, none, some, Bytes, codes, All,
  Outcome, ok, ◌>>=◌, wrap,
}
use polkadot_worker.Programs.Logging.{Logging, error_level, info_level}
use polkadot_worker.Stdlib.Strings.{split}
use polkadot_worker.Scale.Storage.{DecodeStorage}
use polkadot_worker.Proxy.Conns.{GrpConnections, new_grp_connections, add}
use polkadot_worker.Indexer.Client.{Client, new_client, or_fatal}
use polkadot_worker.Programs.Logging.Levels.{zap_config}
use polkadot_worker.Programs.Start.{Stop, Outside, spec_name, or_server_root, no_config}
use polkadot_worker.Programs.Configuration.{Config, get_worker_config}
use polkadot_worker.Indexer.Hashes.{Lru}
use polkadot_worker.Programs.Worker.{
  ProxyClient, Worker, dial_all, create_indexer_client, start_worker, registration_of,
  WorkerOutside, Registration, register_worker, start_logs,
}
use polkadot_worker.Programs.Start.Unfailing.{
  Live, Cuttable, level_name, log_at-Live, then_Live, then_ok, start_logging-Live,
  start_metrics-Live, start_storage-ready,
}

module _ {E : Type 0} (out : Outside E) where
  register-Live :
      {F : Type 0} (r : Bytes ⊎ E) (cfg : Config F) (s : Logging)
      → Live s
      → (p : Option Registration × Logging) × (register_worker out.error_text r cfg s ≡ ok p)
  unfolding register_worker
  register-Live (inr e) cfg s v =
      then_Live _ _ (log_at-Live error_level _ _ s v) (λ t h. ((none, t), refl))
  register-Live (inl run_id) cfg s v = then_Live _ _ (log_at-Live info_level _ _ s v) (λ s1 v1.
      then_Live _ _ (log_at-Live info_level _ _ s1 v1)
        (λ s2 v2. ((some (registration_of cfg run_id), s2), refl)))

module _ {E F : Type 0} (lru : Lru) (out : WorkerOutside E F lru) where
  start_logs_returns :
      (cfg : Config F)
      → out.shared.build (zap_config (level_name cfg.app_env) (codes "stderr" ∷ [])) ≡ none
      → Cuttable cfg.rollbar_access_token
      → out.shared.add_engine ≡ none
      → (p : Option Registration × Logging) × (start_logs lru out cfg ≡ ok p)
  unfolding start_logs
  start_logs_returns cfg b c e =
      then_Live _ _ (start_logging-Live out.shared cfg.app_env _ b c) (λ s1 v1.
        then_Live _ _ (log_at-Live info_level _ _ s1 v1) (λ s2 v2.
          then_Live _ _ (start_metrics-Live out.shared s2 e v2)
            (λ s3 v3. register-Live out.shared out.run_id cfg s3 v3)))

module _ {E : Type 0} (dial : Bytes → ℕ ⊎ E) where
  -- The address can be dialled.
  abbrev pub Reachable : Bytes → Type 0
  Reachable a = (n : ℕ) × (dial a ≡ inl n)

  dial_all-ready :
      (pps : List Bytes) (c : GrpConnections)
      → All Reachable pps
      → (c' : GrpConnections) × (dial_all dial pps c ≡ ok c')
  unfolding dial_all
  dial_all-ready [] c h = (c, refl)
  dial_all-ready (pp ∷ pps) c ((n, e), h) =
      let (c', r) = dial_all-ready pps (add n c) h in (c', rw (e, ◌>>=◌) r)

or_fatal_some :
    {D P S V E A : Type 0} (lru : Lru) (f : A → Client lru D P S V) (o : Option A) {a : A}
    → o ≡ some a
    → (c : Client lru D P S V) × ◌≡◌ {A = Outcome (Stop E) (Client lru D P S V)}
        (or_fatal lru f o)
        (ok c)
or_fatal_some lru f none e = cc
or_fatal_some lru f (some a) e = (f a, refl)

create_indexer_client-ready :
    {E F D V : Type 0} (lru : Lru) (out : WorkerOutside E F lru) (cfg : Config F)
    (conns : GrpConnections) (ds : DecodeStorage D) {cache : lru.Cache}
    → out.new_lru 3000 ≡ some cache
    → (client : Client lru D ProxyClient (List Bytes) V) × (create_indexer_client lru out cfg conns
          ds
        ≡ ok client)
unfolding create_indexer_client new_client
create_indexer_client-ready lru out cfg conns ds e = or_fatal_some lru _ (out.new_lru 3000) e

-- What a worker needs of the libraries to start with a configuration.
pub record Startable {E F : Type 0} (lru : Lru) (out : WorkerOutside E F lru) (cfg : Config F)
    : Type 0 where
  pub builds : out.shared.build (zap_config (level_name cfg.app_env) (codes "stderr" ∷ [])) ≡ none
  pub cuttable : Cuttable cfg.rollbar_access_token
  pub engine : out.shared.add_engine ≡ none
  pub reachable : All (Reachable out.dial) (split b',' cfg.polkadot_proxy_addr)
  pub network : Bytes
  pub network_known :
      out.shared.network_file (codes "networks/" ++ (spec_name cfg.chain_id ++ codes ".json"))
      ≡ some network
  pub cache : lru.Cache
  pub cache_made : out.new_lru 3000 ≡ some cache

-- With a configuration, a logger that zap can build, no token of rollbar or one of five bytes at
-- least, the metrics' engine, a connection for each of the proxy's addresses, a file for the network
-- and a cache, the worker starts.
pub start_worker_starts :
    {E F D V : Type 0} (lru : Lru) (out : WorkerOutside E F lru) (path : Bytes) (cfg : Config F)
    → get_worker_config out.config out.zero path ≡ ok cfg
    → Startable lru out cfg
    → (w : Worker lru D F V) × (start_worker lru out path ≡ ok w)
unfolding start_worker
start_worker_starts {D = D} {V = V} lru out path cfg0 e v =
    let cfg : Config _ = record cfg0 {
      rollbar_server_root = or_server_root cfg0.rollbar_server_root;
    } in
    let (p, h1) = start_logs_returns lru out cfg v.builds v.cuttable v.engine in
    let (conns, h2) = dial_all-ready out.dial _ new_grp_connections v.reachable in
    let (ds, h3) = start_storage-ready {D = D} out.shared cfg.chain_id v.network_known in
    let (client, h4) =
      create_indexer_client-ready {D = D} {V = V} lru out cfg conns ds v.cache_made in
    then_ok _ _ (ap (wrap no_config) e)
      (then_ok _ _ h1 (then_ok _ _ h2 (then_ok _ _ h3 (then_ok _ _ h4 (_, refl)))))
