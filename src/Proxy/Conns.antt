-- ===== src/Proxy/Conns.antt =====
-- `proxy/conns.go`: `GRPConnections`. A gRPC connection is a number, its place among all dialled;
-- the client of a service on it is the pair of both. The mutex makes each call one step.
pub mod RoundRobin
use polkadot_worker.Base.{
  ℕ, suc, ◌+◌, ◌≡◌, Bool, List, [], ◌∷◌, ◌++◌, Option, none, some, length, get_elem?, ◌==◌,
  if◌then◌else◌, Outcome, ok, err, panic, block, ◌>>=◌, or_panic,
}

pub data Service : Type 0 where
  account_service block_service chain_service event_service transaction_service decode_service :
      Service

pub record ServiceClient : Type 0 where
  pub service : Service
  pub conn : ℕ

-- `next` is an `int` that only `inc` moves, and `closed` the connections that `Close` has closed.
pub record GrpConnections : Type 0 where
  pub next : ℕ
  pub len : ℕ
  pub conn : List ℕ
  pub account_client : List ServiceClient
  pub block_client : List ServiceClient
  pub chain_client : List ServiceClient
  pub event_service_client : List ServiceClient
  pub transaction_service_client : List ServiceClient
  pub decode_service_client : List ServiceClient
  pub closed : List ℕ

abbrev pub new_grp_connections : GrpConnections
new_grp_connections = record {
  next = 0;
  len = 0;
  conn = [];
  account_client = [];
  block_client = [];
  chain_client = [];
  event_service_client = [];
  transaction_service_client = [];
  decode_service_client = [];
  closed = [];
}

-- `c.next == c.len-1` on `int`: with no connection the right side is -1, which `next` never is.
unfoldable pub inc : GrpConnections → GrpConnections
inc c = record c { next = if c.next + 1 == c.len then 0 else c.next + 1 }

unfoldable pub close_all : GrpConnections → GrpConnections
close_all c = record c { closed = c.closed ++ c.conn }

unfoldable pub add : ℕ → GrpConnections → GrpConnections
add n c = record c {
  conn = c.conn ++ n ∷ [];
  len = c.len + 1;
  account_client = c.account_client ++ record { service = account_service; conn = n } ∷ [];
  block_client = c.block_client ++ record { service = block_service; conn = n } ∷ [];
  chain_client = c.chain_client ++ record { service = chain_service; conn = n } ∷ [];
  event_service_client =
      c.event_service_client ++ record { service = event_service; conn = n } ∷ [];
  transaction_service_client =
      c.transaction_service_client ++ record { service = transaction_service; conn = n } ∷ [];
  decode_service_client =
      c.decode_service_client ++ record { service = decode_service; conn = n } ∷ [];
}

-- The slice that a `GetNext…` reads.
unfoldable pub clients : Service → GrpConnections → List ServiceClient
clients account_service c = c.account_client
clients block_service c = c.block_client
clients chain_service c = c.chain_client
clients event_service c = c.event_service_client
clients transaction_service c = c.transaction_service_client
clients decode_service c = c.decode_service_client

-- The six `GetNext…` functions: one body over six slices.
unfoldable pub get_next :
    Service → GrpConnections → Outcome (Unit {0}) (ServiceClient × GrpConnections)
unfolding inc clients
get_next s c = do ac ← or_panic (get_elem? (clients s c) c.next); ok (ac, inc c)
