-- ===== src/Proxy/Client/Calls.antt =====
-- What the methods of `proxy/client.go` promise, on every branch.
use polkadot_worker.Base.{
  ap, sym, ◌∙◌, ok_inj, ok, panic, inl, inr, Option-cases, ℕ, ◌<◌, ◌≡◌, refl, Option, none, some,
  Bytes, Outcome, err, get_elem?,
}
use polkadot_worker.Base.Int.{int64_bits}
use polkadot_worker.Proxy.Conns.{
  Service, ServiceClient, GrpConnections, account_service, block_service, chain_service,
  event_service, transaction_service, inc, clients, get_next,
}
use polkadot_worker.Proxy.Conns.RoundRobin.{Valid, client_of, get_next_lem}
use polkadot_worker.Proxy.Client.{
  Request, ClientError, limited, account_by_height, account_balance_by_height, events_by_height,
  event_by_height, transactions_by_height, transaction_by_height, Answer, answered, reply, fault,
  call, get_account_balance, get_block_by_height, get_events_by_height, get_meta_by_height,
  get_transactions_by_height,
}

panic_ne_ok : {E A : Type 0} {a : A} → ◌≡◌ {A = Outcome E A} panic (ok a) → ⊥
panic_ne_ok h = cc

module _ {E R : Type 0} (serve : ServiceClient → Request → Answer E R) where
  -- A call is served by the connection that `next` points at, and moves `next` by one, whether the
  -- service answers or fails.
  pub call_lem :
      (s : Service) (q : Request) (f : E → ClientError E) (c : GrpConnections)
      → Valid c
      → c.next < c.len
      → (n : ℕ) × (get_elem? c.conn c.next ≡ some n)
        × (call serve s q f c ≡ (answered serve f (serve (client_of s n) q), inc c))
  unfolding call
  call_lem s q f c v h = let (n, e, g) = get_next_lem s c v h in (n, e, rw (g, call))

  answered_ok :
      (f : E → ClientError E) (a : Answer E R) {r : R} → answered serve f a ≡ ok r → a ≡ reply r
  answered_ok f (reply x) h = ap reply (ok_inj h)
  answered_ok f (fault e) h = cc

  -- The service and the request that a result comes from.
  pub call_ok :
      (s : Service) (q : Request) (f : E → ClientError E) (c : GrpConnections) {r : R}
      → (call serve s q f c).0 ≡ ok r
      → (ac : ServiceClient) × (get_elem? (clients s c) c.next ≡ some ac) × (serve ac q ≡ reply r)
  unfolding call get_next
  call_ok s q f c h = elim (Option-cases (get_elem? (clients s c) c.next)) [
    | inl e ↦
        let stuck : (call serve s q f c).0 ≡ panic = rw (e, call) refl in
        absurd (panic_ne_ok (sym stuck ∙ h))
    | inr (ac, e) ↦
        let served : (call serve s q f c).0 ≡ answered serve f (serve ac q) = rw (e, call) refl in
        (ac, e, answered_ok f (serve ac q) (sym served ∙ h))
  ]

  -- The five methods that wait for the limiter, each with its service, its request and the error
  -- that it wraps a fault in.
  pub data Limited
      : (Option E → GrpConnections → Outcome (ClientError E) R × GrpConnections)
        → Service
        → Request
        → (E → ClientError E)
        → Type 0 where
    account_balance :
        (a : Bytes) (h : ℕ)
        → Limited
            (λ w c. get_account_balance serve w a h c)
            account_service
            (account_by_height (int64_bits h) a)
            (account_balance_by_height h)
    block :
        (h : ℕ)
        → Limited
            (λ w c. get_block_by_height serve w h c)
            block_service
            (Request.block_by_height (int64_bits h))
            (ClientError.block_by_height h)
    events :
        (h : ℕ)
        → Limited
            (λ w c. get_events_by_height serve w h c)
            event_service
            (events_by_height (int64_bits h))
            (event_by_height h)
    meta :
        (h : ℕ)
        → Limited
            (λ w c. get_meta_by_height serve w h c)
            chain_service
            (Request.meta_by_height (int64_bits h))
            (ClientError.meta_by_height h)
    transactions :
        (h : ℕ)
        → Limited
            (λ w c. get_transactions_by_height serve w h c)
            transaction_service
            (transactions_by_height (int64_bits h))
            (transaction_by_height h)

  -- When the limiter refuses, each of the five returns the limiter's error and uses up no
  -- connection: the state of the round robin is what it was.
  pub refused :
      {m : Option E → GrpConnections → Outcome (ClientError E) R × GrpConnections} {s : Service}
      {q : Request} {f : E → ClientError E}
      → Limited m s q f
      → (e : E) (c : GrpConnections) → m (some e) c ≡ (err (limited e), c)
  unfolding get_account_balance get_block_by_height get_events_by_height get_meta_by_height
      get_transactions_by_height
  refused (account_balance a h) e c = refl
  refused (block h) e c = refl
  refused (events h) e c = refl
  refused (meta h) e c = refl
  refused (transactions h) e c = refl

  -- When the limiter lets it through, each of the five sends its request once, to its service on
  -- the connection in turn; it returns the reply, or the fault wrapped in the error of the method,
  -- and in both cases the next call goes one connection on.
  pub let_through :
      {m : Option E → GrpConnections → Outcome (ClientError E) R × GrpConnections} {s : Service}
      {q : Request} {f : E → ClientError E}
      → Limited m s q f
      → (c : GrpConnections) → Valid c
      → c.next < c.len
      → (n : ℕ) × (get_elem? c.conn c.next ≡ some n)
        × (m none c ≡ (answered serve f (serve (client_of s n) q), inc c))
  unfolding get_account_balance get_block_by_height get_events_by_height get_meta_by_height
      get_transactions_by_height
  let_through (account_balance a h) c v r = call_lem _ _ _ c v r
  let_through (block h) c v r = call_lem _ _ _ c v r
  let_through (events h) c v r = call_lem _ _ _ c v r
  let_through (meta h) c v r = call_lem _ _ _ c v r
  let_through (transactions h) c v r = call_lem _ _ _ c v r
