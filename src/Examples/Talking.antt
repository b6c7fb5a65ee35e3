-- ===== src/Examples/Talking.antt =====
-- Runs of `api/api.go`.
use polkadot_worker.Base.{
  ℕ, ◌+◌, ◌-◌, ◌≤◌, ◌≡◌, ◌⊎◌, refl, true, false, List, [], ◌∷◌, ◌++◌, none, some, codes, All, total,
  length, arith, ok, block,
}
use polkadot_worker.Api.Session.{
  Send, Response, ResponseStore, JsonRpcResponse, Event, sent, not_encoded, requested, received,
  ticked, ended, start, find, run, step, step_when, on_request, register, on_message, on_entry,
  insert, finish,
}
use polkadot_worker.Api.Session.Accounting.{Ticket, start-Valid, asked, books, answers, drops}
use polkadot_worker.Api.Session.Delivery.{session_books, ended_settles}
use polkadot_worker.Api.Session.Routing.{answer_to_sender, answered_once, reply_to, store_of}
use polkadot_worker.Api.Session.Pending.{Taken}
use polkadot_worker.Api.Session.Timeout.{ticked_timeout, TimedOut, Settled}
use polkadot_worker.Api.Conn.{
  dialled, loop_left, lost, any_reading, any_online, send_on, new_conn, change, history, get_status,
  send, online, try_m,
}
use polkadot_worker.Api.Conn.Laws.{send_after_dial, try_m_bounds}
use polkadot_worker.Api.Health.{
  Round, timed_out, answered, healthy_start, rounds, handle_ws_healthcheck_response,
}
use polkadot_worker.Api.Health.Counting.{rounds-Streak, Streak}

abbrev head_request : Send
head_request = record {
  request = record { id = 3; jsonrpc = []; method = codes "chain_getFinalizedHead"; params = [] };
  resp_ch = 7;
}

abbrev hash_request : Send
hash_request = record {
  request = record {
    id = 1;
    jsonrpc = [];
    method = codes "chain_getBlockHash";
    params = codes "[5]";
  };
  resp_ch = 8;
}

abbrev head_answer : JsonRpcResponse
head_answer = record { id = 0; result = codes "abc" }

abbrev between : List Event
between =
    requested hash_request 11 sent
    ∷ received (some (record { id = 1; result = codes "d" })) true
    ∷ ticked 12
    ∷ []

abbrev whole : List Event
whole =
    requested head_request 10 sent
    ∷ requested hash_request 11 not_encoded
    ∷ received (some head_answer) true
    ∷ requested hash_request 12 sent
    ∷ ended
    ∷ []

answer_to_sender_example :
    let u = run 30 (step 30 start (requested head_request 10 sent)) between in
    let u' = step 30 u (received (some head_answer) true) in
    ((find 0 u.response_map ≡ some (store_of head_request 10))
      × (u'.delivered ≡ reply_to head_request head_answer.result ∷ u.delivered)
      × (find 0 u'.response_map ≡ none))
    ⊎ ((find 0 u.response_map ≡ none) × Taken 30 0 10 between × (u' ≡ u))
answer_to_sender_example =
    answer_to_sender 30 start head_request 10 between head_answer start-Valid refl (omega arith)
      refl

-- In this run the answer is delivered.
answer_delivered :
    (run 30 start
      (requested head_request 10 sent ∷ received (some head_answer) true ∷ [])).delivered
    ≡ reply_to head_request (codes "abc") ∷ []
unfolding run step step_when on_request register on_message on_entry find insert
answer_delivered = refl

abbrev by_channel : Ticket → ℕ
by_channel k = k.ch

whole_ended : (run 30 start whole).running ≡ false
unfolding run step step_when on_request register on_message on_entry find insert finish
whole_ended = refl

ended_settles_example :
    answers by_channel (run 30 start whole).delivered
      + drops by_channel (run 30 start whole).dropped
    ≡ total by_channel (asked 30 start whole)
ended_settles_example = ended_settles by_channel 30 whole (omega arith) whole_ended

booked : books by_channel (run 30 start between) ≡ total by_channel (asked 30 start between)
booked = session_books by_channel 30 between (omega arith)

once_only :
    let s = step 30 start (requested head_request 10 sent) in
    let u = step 30 s (received (some head_answer) true) in
    step 30 u (received (some head_answer) true) ≡ u
once_only =
    answered_once 30 (step 30 start (requested head_request 10 sent)) head_answer head_answer true
      true refl

ticked_timeout_example :
    let s = step 30 start (requested head_request 10 sent) in
    let u = step 30 s (ticked 50) in
    (new : List (ℕ × Response)) × (u.delivered ≡ new ++ s.delivered)
    × All (TimedOut 30 50 s.response_map) new
    × All (Settled 30 50 new u.response_map) s.response_map
    × (length new + length u.response_map ≡ length s.response_map)
    × All (λ p. 50 - p.1.time ≤ 30) u.response_map
    × ((k : ℕ) (st : ResponseStore)
        → find k s.response_map ≡ some st
        → 50 - st.time ≤ 30
        → find k u.response_map ≡ some st)
ticked_timeout_example = ticked_timeout 30 (step 30 start (requested head_request 10 sent)) 50

send_after_dial_example :
    let d =
      history
        (change new_conn (dialled (codes "a")))
        (dialled (codes "b") ∷ lost (codes "a") ∷ loop_left (codes "b") ∷ []) in
    ((any_reading d.links ≡ false) × (send d ≡ block))
    ⊎ ((any_reading d.links ≡ true) × (get_status d ≡ online) × (send d ≡ ok tt))
send_after_dial_example =
    send_after_dial new_conn (codes "a")
      (dialled (codes "b") ∷ lost (codes "a") ∷ loop_left (codes "b") ∷ [])

-- Here the second connection is still online when nothing reads the requests any more.
waits_while_online :
    let d =
      history
        (change new_conn (dialled (codes "a")))
        (dialled (codes "b") ∷ lost (codes "a") ∷ loop_left (codes "b") ∷ []) in
    (get_status d ≡ online) × (send d ≡ block)
unfolding change history any_online any_reading send_on
waits_while_online = (refl, refl)

eighth_pause : (m n : ℕ) × (try_m 7 ≡ ok m) × (try_m 8 ≡ ok n) × (1 ≤ m) × (m ≤ 10) × (m ≤ n)
eighth_pause = try_m_bounds 7

abbrev bad_rounds : List Round
bad_rounds = timed_out ∷ answered none ∷ timed_out ∷ []

rounds-Streak_example : Streak healthy_start 3 (rounds healthy_start bad_rounds)
unfolding handle_ws_healthcheck_response
rounds-Streak_example =
    rounds-Streak healthy_start bad_rounds (refl, (refl, (refl, tt))) refl (omega arith)
