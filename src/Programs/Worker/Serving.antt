-- ===== src/Programs/Worker/Serving.antt =====
-- Which address of polkadothub-proxy serves the calls of a worker that has started: `main` of
-- `cmd/polkadot-worker/main.go` over `proxy/conns.go`.
use native.Mathlib.Nat.{zero-add}
use polkadot_worker.Base.{
  ℕ, zero, suc, ◌+◌, ◌%◌, ◌<◌, ◌≡◌, ◌⊎◌, inl, inr, refl, ap, sym, ◌∙◌, List, [], ◌∷◌, map, some,
  Bytes, length, get_elem?, length-map, ok, arith,
}
use polkadot_worker.Stdlib.Strings.{split}
use polkadot_worker.Stdlib.Strings.Cutting.{split-cons}
use polkadot_worker.Proxy.Conns.{Service, ServiceClient, GrpConnections}
use polkadot_worker.Proxy.Conns.RoundRobin.{calls, Served, round_robin}
use polkadot_worker.Indexer.Hashes.{Lru}
use polkadot_worker.Programs.Worker.{WorkerOutside, ProxyClient, Worker, start_worker}
use polkadot_worker.Programs.Worker.Dialling.{Dialled}
use polkadot_worker.Programs.Worker.Starting.{start_worker-Ready}

module _ {E : Type 0} (dial : Bytes → ℕ ⊎ E) where
  get_elem?-numbers :
      (addresses : List Bytes) (ns : List ℕ) (i : ℕ) {n : ℕ}
      → map dial addresses ≡ map inl ns
      → get_elem? ns i ≡ some n
      → (a : Bytes) × (get_elem? addresses i ≡ some a) × (dial a ≡ inl n)
  get_elem?-numbers [] [] i e h = cc
  get_elem?-numbers [] (m ∷ ns) i e h = cc
  get_elem?-numbers (a ∷ addresses) [] i e h = cc
  get_elem?-numbers (a ∷ addresses) (m ∷ ns) zero e h = (a, refl, cc)
  get_elem?-numbers (a ∷ addresses) (m ∷ ns) (suc i) e h = get_elem?-numbers addresses ns i (cc) h

  length-numbers :
      (addresses : List Bytes) (ns : List ℕ)
      → map dial addresses ≡ map inl ns
      → length addresses ≡ length ns
  length-numbers addresses ns e =
      sym (length-map dial addresses) ∙ (ap length e ∙ length-map inl ns)

  -- The `k`-th call is for its service, over the connection dialled for the address in its turn.
  abbrev pub Balanced : List Bytes → List Service → List ServiceClient → Type 0
  Balanced addresses ss acs =
      (k : ℕ) (s : Service)
      → get_elem? ss k ≡ some s
      → (ac : ServiceClient) × (a : Bytes) × (get_elem? acs k ≡ some ac)
        × (ac.service ≡ s)
        × (get_elem? addresses (k % length addresses) ≡ some a)
        × (dial a ≡ inl ac.conn)

  turn_of :
      (addresses : List Bytes) (c : GrpConnections) (k : ℕ)
      → Dialled dial addresses c
      → k % length addresses ≡ (c.next + k) % c.len
  turn_of addresses c k d =
      rw (d.at_first, zero-add k, d.valid.counted, length-numbers addresses c.conn d.numbers) refl

  Dialled-Balanced :
      (addresses : List Bytes) (c : GrpConnections) (ss : List Service) (acs : List ServiceClient)
      → Dialled dial addresses c
      → Served c ss acs
      → Balanced addresses ss acs
  Dialled-Balanced addresses c ss acs d v k s h =
      let (ac, e, f, g) = v k s h in
      let (a, g1, g2) =
        get_elem?-numbers addresses c.conn (k % length addresses) d.numbers
          (rw (turn_of addresses c k d) g) in
      (ac, a, e, f, g1, g2)

  Dialled-at_hand :
      (p : Bytes) (ps : List Bytes) (c : GrpConnections) → Dialled dial (p ∷ ps) c → c.next < c.len
  Dialled-at_hand p ps c d = elim d.valid.in_range [
    | inl (e, f) ↦ absurd (omega (arith, length-numbers (p ∷ ps) c.conn d.numbers, d.valid.counted))
    | inr h ↦ h
  ]

-- In a worker that has started every row of calls to the proxy is served, the `k`-th over the
-- connection that was dialled for the `k`-th of the comma-separated addresses, counted around.
pub start_worker-Balanced :
    {E F D V : Type 0} (lru : Lru) (out : WorkerOutside E F lru) (path : Bytes)
    {w : Worker lru D F V}
    → start_worker lru out path ≡ ok w
    → (ss : List Service)
    → (p : ProxyClient) × (acs : List ServiceClient) × (d : GrpConnections) × (w.client.proxy
        ≡ some p)
      × (calls ss p.conns ≡ ok (acs, d))
      × (length acs ≡ length ss)
      × Balanced out.dial (split b',' w.config.polkadot_proxy_addr) ss acs
start_worker-Balanced lru out path {w} h ss =
    let r = start_worker-Ready lru out path h in
    let (p, ps, e) = split-cons b',' w.config.polkadot_proxy_addr in
    let (acs, d, f, l, v) =
      round_robin ss r.conns r.dialled.valid
        (Dialled-at_hand out.dial p ps r.conns (rw (← e) r.dialled)) in
    (
      _,
      acs,
      d,
      r.client_new.proxy_kept,
      f,
      l,
      Dialled-Balanced out.dial _ r.conns ss acs r.dialled v,
    )
