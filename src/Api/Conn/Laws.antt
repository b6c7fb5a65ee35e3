-- ===== src/Api/Conn/Laws.antt =====
-- What `Conn` of `api/api.go` keeps to over any history of its connections.
use polkadot_worker.Base.{
  Bool-cases, true, false, inl, inr, ℕ, zero, suc, ◌≤◌, ◌≡◌, ◌⊎◌, refl, List, [], ◌∷◌, Bytes, arith,
  ok, block,
}
use polkadot_worker.Api.Conn.{
  online, Conn, Link, reading, left, down, set_link, any_online, any_reading, get_status, Change,
  dialled, change, history, send_on, send, try_m,
}

change-online :
    (c : Conn) (e : Change) → c.status_even_one ≡ online → (change c e).status_even_one ≡ online
unfolding change
change-online c e h = ground arith

history-online :
    (c : Conn) (es : List Change)
    → c.status_even_one ≡ online
    → (history c es).status_even_one ≡ online
unfolding history
history-online c [] h = h
history-online c (e ∷ es) h = history-online (change c e) es (change-online c e h)

set_link-reading :
    (addr : Bytes) (m : List (Bytes × Link)) → any_reading (set_link addr reading m) ≡ true
unfolding any_reading
set_link-reading addr [] = refl
set_link-reading addr ((a, reading) ∷ m) = ground arith
set_link-reading addr ((a, left) ∷ m) = ground (arith, set_link-reading addr m)
set_link-reading addr ((a, down) ∷ m) = ground (arith, set_link-reading addr m)

-- As soon as a connection has been dialled `Send` is accepted.
dialled-send : (c : Conn) (addr : Bytes) → send (change c (dialled addr)) ≡ ok tt
unfolding change send_on
dialled-send c addr = rw (set_link-reading addr c.links)

any_reading-online : (m : List (Bytes × Link)) → any_reading m ≡ true → any_online m ≡ online
unfolding any_reading any_online
any_reading-online [] h = cc
any_reading-online ((a, reading) ∷ m) h = refl
any_reading-online ((a, left) ∷ m) h = refl
any_reading-online ((a, down) ∷ m) h = any_reading-online m h

-- Once a connection has been dialled, whatever happens to it and to the others, `Send` no longer
-- returns ErrConnectionClosed: while no loop of a connection reads the requests it waits;
-- otherwise the status is online, and it sends.
pub send_after_dial :
    (c : Conn) (addr : Bytes) (es : List Change)
    → let d = history (change c (dialled addr)) es in
      ((any_reading d.links ≡ false) × (send d ≡ block))
      ⊎ ((any_reading d.links ≡ true) × (get_status d ≡ online) × (send d ≡ ok tt))
unfolding change send_on
send_after_dial c addr es =
    let d = history (change c (dialled addr)) es in
    let dialled_once = history-online (change c (dialled addr)) es refl in
    elim (Bool-cases (any_reading d.links)) [
      | inl e ↦ inr (e, any_reading-online d.links e, rw (dialled_once, e) refl)
      | inr e ↦ inl (e, rw (dialled_once, e) refl)
    ]

-- The seconds that the table gives, the last entry for good.
abbrev pub delay : ℕ → ℕ
delay zero = 1
delay (suc zero) = 1
delay (suc (suc zero)) = 1
delay (suc (suc (suc zero))) = 2
delay (suc (suc (suc (suc zero)))) = 3
delay (suc (suc (suc (suc (suc zero))))) = 4
delay (suc (suc (suc (suc (suc (suc zero)))))) = 6
delay (suc (suc (suc (suc (suc (suc (suc i))))))) = 10

try_m-delay : (i : ℕ) → try_m i ≡ ok (delay i)
unfolding try_m
try_m-delay zero = refl
try_m-delay (suc zero) = refl
try_m-delay (suc (suc zero)) = refl
try_m-delay (suc (suc (suc zero))) = refl
try_m-delay (suc (suc (suc (suc zero)))) = refl
try_m-delay (suc (suc (suc (suc (suc zero))))) = refl
try_m-delay (suc (suc (suc (suc (suc (suc zero)))))) = refl
try_m-delay (suc (suc (suc (suc (suc (suc (suc zero))))))) = refl
try_m-delay (suc (suc (suc (suc (suc (suc (suc (suc i)))))))) = ground arith

delay_bounds : (i : ℕ) → (1 ≤ delay i) × (delay i ≤ 10) × (delay i ≤ delay (suc i))
delay_bounds zero = omega arith
delay_bounds (suc zero) = omega arith
delay_bounds (suc (suc zero)) = omega arith
delay_bounds (suc (suc (suc zero))) = omega arith
delay_bounds (suc (suc (suc (suc zero)))) = omega arith
delay_bounds (suc (suc (suc (suc (suc zero))))) = omega arith
delay_bounds (suc (suc (suc (suc (suc (suc zero)))))) = omega arith
delay_bounds (suc (suc (suc (suc (suc (suc (suc i))))))) = omega arith

-- The pause before a reconnect is found in the table, without a panic, for every number of earlier
-- reconnects; it is between one and ten seconds, and the pause after it is not shorter.
pub try_m_bounds :
    (i : ℕ) → (m n : ℕ) × (try_m i ≡ ok m) × (try_m (suc i) ≡ ok n) × (1 ≤ m) × (m ≤ 10) × (m ≤ n)
try_m_bounds i =
    let (a, b, c) = delay_bounds i in
    (delay i, delay (suc i), try_m-delay i, try_m-delay (suc i), a, b, c)
