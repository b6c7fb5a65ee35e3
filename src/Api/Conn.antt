-- ===== src/Api/Conn.antt =====
-- `Conn` of `api/api.go`: the status of each node's connection, `Send`, and the pause before a
-- reconnect in `Run`. The calls of `run` show here by what they write under the status lock,
-- and by the end of their loops.
pub mod Laws
use polkadot_worker.Base.{
  ℕ, suc, ◌+◌, ◌≡◌, Bool, true, false, List, [], ◌∷◌, Option, none, some, Bytes, same, length,
  get_elem?, leb, if◌then◌else◌, Outcome, ok, err, panic, block, or_panic,
}

pub data ConnStatus : Type 0 where
  offline online : ConnStatus

-- The connection of one node: `run` reads `Requests` in its loop; it has left the loop, but `Run` has
-- not yet handled that, and the status is what it was; the status is offline.
pub data Link : Type 0 where
  reading left down : Link

abbrev pub status_of : Link → ConnStatus
status_of reading = online
status_of left = online
status_of down = offline

-- `status` and the loops of `run`, by address, and `statusEvenOne`.
pub record Conn : Type 0 where
  pub links : List (Bytes × Link)
  pub status_even_one : ConnStatus

abbrev pub new_conn : Conn
new_conn = record { links = []; status_even_one = offline }

abbrev pub set_link : Bytes → Link → List (Bytes × Link) → List (Bytes × Link)
set_link addr l [] = (addr, l) ∷ []
set_link addr l ((a, k) ∷ m) =
    let rest = set_link addr l m in if same a addr then (a, l) ∷ m else (a, k) ∷ rest

abbrev pub left_by : Link → Link
left_by reading = left
left_by left = left
left_by down = down

abbrev pub leave : Bytes → List (Bytes × Link) → List (Bytes × Link)
leave addr [] = []
leave addr ((a, k) ∷ m) =
    let rest = leave addr m in if same a addr then (a, left_by k) ∷ m else (a, k) ∷ rest

-- `getStatus`: online if one connection is.
unfoldable pub any_online : List (Bytes × Link) → ConnStatus
any_online [] = offline
any_online ((a, reading) ∷ m) = online
any_online ((a, left) ∷ m) = online
any_online ((a, down) ∷ m) = any_online m

abbrev pub get_status : Conn → ConnStatus
get_status c = any_online c.links

unfoldable pub any_reading : List (Bytes × Link) → Bool
any_reading [] = false
any_reading ((a, reading) ∷ m) = true
any_reading ((a, left) ∷ m) = any_reading m
any_reading ((a, down) ∷ m) = any_reading m

-- What the goroutines do: `run` behind a successful dial, and at the end of its loop; `Run` when `run`
-- has ended.
pub data Change : Type 0 where
  dialled loop_left lost : Bytes → Change

unfoldable pub change : Conn → Change → Conn
change c (dialled addr) = record c {
  links = set_link addr reading c.links;
  status_even_one = online;
}
change c (loop_left addr) = record c { links = leave addr c.links }
change c (lost addr) = record c { links = set_link addr down c.links }

unfoldable pub history : Conn → List Change → Conn
history c [] = c
history c (e ∷ es) = history (change c e) es

-- `Send`: `Requests` has no buffer, so the call waits for a loop that reads it. Where there is none
-- it waits on.
unfoldable pub send_on : ConnStatus → Bool → Outcome (Unit {0}) (Unit {0})
send_on offline r = err tt
send_on online false = block
send_on online true = ok tt

abbrev pub send : Conn → Outcome (Unit {0}) (Unit {0})
send c = send_on c.status_even_one (any_reading c.links)

abbrev pub multipliers : List ℕ
multipliers = 1 ∷ 1 ∷ 1 ∷ 2 ∷ 3 ∷ 4 ∷ 6 ∷ 10 ∷ []

-- The seconds before the reconnect that follows `i` earlier ones.
unfoldable pub try_m : ℕ → Outcome (Unit {0}) ℕ
try_m i =
    if leb (length multipliers) i
    then or_panic (get_elem? multipliers 7)
    else or_panic (get_elem? multipliers i)
