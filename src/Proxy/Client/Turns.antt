-- ===== src/Proxy/Client/Turns.antt =====
-- A row of calls of `proxy/client.go`, which share the connections of `proxy/conns.go`.
use native.Mathlib.Nat.{mod-eq_of_lt, add-zero}
use polkadot_worker.Base.{
  ℕ, ◌+◌, ◌%◌, ◌<◌, ◌≡◌, refl, ap, sym, ◌∙◌, subst, List, [], ◌∷◌, Option, none, some, Outcome, err,
  get_elem?,
}
use polkadot_worker.Proxy.Conns.{Service, ServiceClient, GrpConnections, inc}
use polkadot_worker.Proxy.Conns.RoundRobin.{Valid, client_of, inc-Valid, inc-in_range, inc-next}
use polkadot_worker.Proxy.Client.{Request, ClientError, limited, Answer, answered}
use polkadot_worker.Proxy.Client.Calls.{Limited, refused, let_through}

next-inc : (c : GrpConnections) → Valid c → c.next < c.len → (inc c).next ≡ (c.next + 1) % c.len
unfolding inc
next-inc c v h =
    sym (mod-eq_of_lt {n = (inc c).next} {m = c.len} (inc-in_range c h))
    ∙ (ap (λ n. n % c.len) (sym (add-zero (inc c).next)) ∙ inc-next c 0 h)

module _ {E R : Type 0} (serve : ServiceClient → Request → Answer E R) where
  -- One of the five methods with its arguments, and what the limiter says to the call.
  pub data LimitedCall : Type 0 where
    limited_call :
        {m : Option E → GrpConnections → Outcome (ClientError E) R × GrpConnections} {s : Service}
        {q : Request} {f : E → ClientError E}
        → Limited serve m s q f
        → Option E
        → LimitedCall

  -- The calls one after the other, with what each returns.
  abbrev pub make_calls :
      List LimitedCall → GrpConnections → List (Outcome (ClientError E) R) × GrpConnections
  make_calls [] c = ([], c)
  make_calls (limited_call {m = m} l wait ∷ cs) c =
      let (o, d) = m wait c in let (os, e) = make_calls cs d in (o ∷ os, e)

  -- What the calls return, with the connection in turn at the place `i` of `len`: a call that the
  -- limiter refuses returns its error, and the turn stays; another one returns what its service on
  -- the connection answers, and the turn goes on around the circle.
  abbrev pub InTurn : List ℕ → ℕ → ℕ → List LimitedCall → List (Outcome (ClientError E) R) → Type 0
  InTurn conn len i [] os = os ≡ []
  InTurn conn len i (limited_call l (some e) ∷ cs) os =
      (rest : List (Outcome (ClientError E) R)) × (os ≡ err (limited e) ∷ rest)
      × InTurn conn len i cs rest
  InTurn conn len i (limited_call {s = s} {q = q} {f = f} l none ∷ cs) os =
      (n : ℕ) × (rest : List (Outcome (ClientError E) R)) × (get_elem? conn i ≡ some n)
      × (os ≡ answered serve f (serve (client_of s n) q) ∷ rest)
      × InTurn conn len ((i + 1) % len) cs rest

  -- With connections that are in step and one at hand, a row of calls of the five methods that wait
  -- for the limiter, whatever it says to each: a call that it refuses returns its error and takes
  -- no turn; each other one returns the reply of its service on the connection in turn, or the
  -- fault wrapped in the error of the method, and whether it is a reply or a fault the next call is
  -- served by the next connection around the circle.
  pub make_calls-InTurn :
      (cs : List LimitedCall) (c : GrpConnections)
      → Valid c
      → c.next < c.len
      → InTurn c.conn c.len c.next cs (make_calls cs c).0
  unfolding inc
  make_calls-InTurn [] c v h = refl
  make_calls-InTurn (limited_call l (some e) ∷ cs) c v h =
      subst
        (λ x.
          InTurn c.conn c.len c.next (limited_call l (some e) ∷ cs) (x.0 ∷ (make_calls cs x.1).0))
        (sym (refused serve l e c)) ((make_calls cs c).0, refl, make_calls-InTurn cs c v h)
  make_calls-InTurn (limited_call l none ∷ cs) c v h =
      let (n, e, g) = let_through serve l c v h in
      subst
        (λ x. InTurn c.conn c.len c.next (limited_call l none ∷ cs) (x.0 ∷ (make_calls cs x.1).0))
        (sym g)
        (
          n,
          (make_calls cs (inc c)).0,
          e,
          refl,
          subst (λ i. InTurn c.conn c.len i cs (make_calls cs (inc c)).0) (next-inc c v h)
              (make_calls-InTurn cs (inc c) (inc-Valid c h v) (inc-in_range c h)),
        )
