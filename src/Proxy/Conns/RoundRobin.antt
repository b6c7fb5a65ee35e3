-- ===== src/Proxy/Conns/RoundRobin.antt =====
-- The round robin of `proxy/conns.go`: which connection each call is served by.
use native.Mathlib.Nat.{mod-eq_of_lt, add-mod_left, add-zero}
use polkadot_worker.Base.{
  ℕ, zero, suc, ◌+◌, ◌%◌, ◌<◌, ◌≡◌, ◌⊎◌, inl, inr, refl, sym, ap, ◌∙◌, List, [], ◌∷◌, ◌++◌, none,
  some, length, get_elem?, length-append, get_elem?-some, arith, map, Outcome, ok, panic, ◌>>=◌,
}
use polkadot_worker.Proxy.Conns.{
  Service, ServiceClient, GrpConnections, account_service, block_service, chain_service,
  event_service, transaction_service, decode_service, new_grp_connections, inc, add, clients,
  get_next,
}

abbrev pub client_of : Service → ℕ → ServiceClient
client_of s n = record { service = s; conn = n }

-- The slices run in step with the connections, and `next` points at one of them.
pub record Valid (c : GrpConnections) : Type 0 where
  pub counted : c.len ≡ length c.conn
  pub in_step : (s : Service) → clients s c ≡ map (client_of s) c.conn
  pub in_range : (c.len ≡ 0) × (c.next ≡ 0) ⊎ (c.next < c.len)

pub new_grp_connections-Valid : Valid new_grp_connections
unfolding clients
new_grp_connections-Valid = record {
  counted = refl;
  in_step = elim [
    | account_service ↦ refl
    | block_service ↦ refl
    | chain_service ↦ refl
    | event_service ↦ refl
    | transaction_service ↦ refl
    | decode_service ↦ refl
  ];
  in_range = inl (refl, refl);
}

map-client_of :
    (s : Service) (l : List ℕ) (n : ℕ)
    → map (client_of s) (l ++ n ∷ []) ≡ map (client_of s) l ++ client_of s n ∷ []
map-client_of s [] n = refl
map-client_of s (x ∷ l) n = ap (◌∷◌ (client_of s x)) (map-client_of s l n)

clients-add :
    (s : Service) (n : ℕ) (c : GrpConnections)
    → clients s (add n c) ≡ clients s c ++ client_of s n ∷ []
unfolding clients add
clients-add account_service n c = refl
clients-add block_service n c = refl
clients-add chain_service n c = refl
clients-add event_service n c = refl
clients-add transaction_service n c = refl
clients-add decode_service n c = refl

pub add-Valid : (n : ℕ) (c : GrpConnections) → Valid c → Valid (add n c)
unfolding add
add-Valid n c v = record {
  counted = omega (arith, v.counted, length-append c.conn (n ∷ []));
  in_step = λ s.
      clients-add s n c
      ∙ (ap (λ l. l ++ client_of s n ∷ []) (v.in_step s) ∙ sym (map-client_of s c.conn n));
  in_range = inr (ground arith);
}

clients-inc : (s : Service) (c : GrpConnections) → clients s (inc c) ≡ clients s c
unfolding clients inc
clients-inc account_service c = refl
clients-inc block_service c = refl
clients-inc chain_service c = refl
clients-inc event_service c = refl
clients-inc transaction_service c = refl
clients-inc decode_service c = refl

pub inc-Valid : (c : GrpConnections) → c.next < c.len → Valid c → Valid (inc c)
unfolding inc
inc-Valid c h v = record {
  counted = v.counted;
  in_step = λ s. clients-inc s c ∙ v.in_step s;
  in_range = inr (ground arith);
}

pub inc-in_range : (c : GrpConnections) → c.next < c.len → (inc c).next < (inc c).len
unfolding inc
inc-in_range c h = ground arith

-- The pointer after `k` more calls.
pub inc-next :
    (c : GrpConnections) (k : ℕ)
    → c.next < c.len
    → ((inc c).next + k) % c.len ≡ (c.next + (suc k)) % c.len
unfolding inc
inc-next c k h = grind (arith, add-mod_left c.len k)

get_elem?-map :
    (s : Service) (l : List ℕ) (i : ℕ) {n : ℕ}
    → get_elem? l i ≡ some n
    → get_elem? (map (client_of s) l) i ≡ some (client_of s n)
get_elem?-map s [] i h = cc
get_elem?-map s (x ∷ l) zero h = ground arith
get_elem?-map s (x ∷ l) (suc i) h = get_elem?-map s l i h

-- One call of a `GetNext…`.
pub get_next_lem :
    (s : Service) (c : GrpConnections)
    → Valid c
    → c.next < c.len
    → (n : ℕ) × (get_elem? c.conn c.next ≡ some n) × (get_next s c ≡ ok (client_of s n, inc c))
unfolding get_next
get_next_lem s c v h =
    let (n, e) = get_elem?-some c.conn c.next (omega (arith, v.counted)) in
    (n, e, rw (v.in_step s, get_elem?-map s c.conn c.next e))

-- A row of calls, each for some service.
unfoldable pub calls :
    List Service → GrpConnections → Outcome (Unit {0}) (List ServiceClient × GrpConnections)
calls [] c = ok ([], c)
calls (s ∷ ss) c = do (ac, d) ← get_next s c; (rest, e) ← calls ss d; ok (ac ∷ rest, e)

-- The connection that the `k`-th of them is served by, and the service.
abbrev pub Served : GrpConnections → List Service → List ServiceClient → Type 0
Served c ss acs =
    (k : ℕ) (s : Service)
    → get_elem? ss k ≡ some s
    → (ac : ServiceClient) × (get_elem? acs k ≡ some ac)
      × (ac.service ≡ s)
      × (get_elem? c.conn ((c.next + k) % c.len) ≡ some ac.conn)

Served-cons :
    (c : GrpConnections) (s : Service) (ss : List Service) (acs : List ServiceClient) (n : ℕ)
    → c.next < c.len
    → get_elem? c.conn c.next ≡ some n
    → Served (inc c) ss acs
    → Served c (s ∷ ss) (client_of s n ∷ acs)
unfolding inc
Served-cons c s ss acs n h e v zero t f = (
  client_of s n,
  refl,
  ground arith,
  rw (add-zero c.next, mod-eq_of_lt {n = c.next} {m = c.len} h) e,
)
Served-cons c s ss acs n h e v (suc k) t f =
    let (ac, a, b, d) = v k t f in (ac, a, b, rw (← inc-next c k h) d)

-- With a connection at hand every row of calls is served, the `k`-th call by the connection `k`
-- places after `next`, around the circle, whatever services the calls are for.
pub round_robin :
    (ss : List Service) (c : GrpConnections)
    → Valid c
    → c.next < c.len
    → (acs : List ServiceClient) × (d : GrpConnections) × (calls ss c ≡ ok (acs, d))
      × (length acs ≡ length ss)
      × Served c ss acs
unfolding calls
round_robin [] c v h = ([], c, refl, refl, λ k s e. cc)
round_robin (s ∷ ss) c v h =
    let (n, a, g) = get_next_lem s c v h in
    let (acs, d, r, l, t) = round_robin ss (inc c) (inc-Valid c h v) (inc-in_range c h) in
    (client_of s n ∷ acs, d, rw (g, ◌>>=◌) (rw r refl), ap suc l, Served-cons c s ss acs n h a t)

get_elem?-map_nil :
    (s : Service) (l : List ℕ) (i : ℕ) → length l ≡ 0 → get_elem? (map (client_of s) l) i ≡ none
get_elem?-map_nil s [] i e = refl
get_elem?-map_nil s (x ∷ l) i e = absurd (omega arith)

-- Without a connection every `GetNext…` panics on its empty slice.
pub get_next-panic : (s : Service) (c : GrpConnections) → Valid c → c.len ≡ 0 → get_next s c ≡ panic
unfolding get_next
get_next-panic s c v e =
    rw (v.in_step s, get_elem?-map_nil s c.conn c.next (omega (arith, v.counted)))
