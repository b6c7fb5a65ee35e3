-- ===== src/Examples/Proxying.antt =====
-- Runs of `proxy/conns.go` and `proxy/client.go`.
use polkadot_worker.Base.{
  ℕ, zero, suc, ◌<◌, ◌≡◌, refl, List, [], ◌∷◌, none, some, Bytes, codes, length, arith, ok, err,
  panic,
}
use polkadot_worker.Proxy.Conns.{
  Service, ServiceClient, GrpConnections, account_service, block_service, chain_service,
  new_grp_connections, add, get_next,
}
use polkadot_worker.Proxy.Conns.RoundRobin.{
  Valid, calls, Served, new_grp_connections-Valid, add-Valid, round_robin, get_next-panic,
}
use polkadot_worker.Proxy.Client.{
  Request, limited, Answer, reply, fault, get_account_balance, get_block_by_height,
  get_events_by_height, get_transactions_by_height, event_by_height,
}
use polkadot_worker.Proxy.Client.Calls.{refused, account_balance, block, events, transactions}
use polkadot_worker.Proxy.Client.Turns.{
  LimitedCall, limited_call, make_calls, InTurn, make_calls-InTurn,
}

abbrev pub two_conns : GrpConnections
two_conns = add 1 (add 0 new_grp_connections)

pub two_conns-Valid : Valid two_conns
two_conns-Valid =
    add-Valid 1 (add 0 new_grp_connections)
      (add-Valid 0 new_grp_connections new_grp_connections-Valid)

pub two_conns_next : two_conns.next < two_conns.len
unfolding add
two_conns_next = omega arith

abbrev three_calls : List Service
three_calls = block_service ∷ account_service ∷ chain_service ∷ []

round_robin_example :
    (acs : List ServiceClient) × (d : GrpConnections) × (calls three_calls two_conns ≡ ok (acs, d))
    × (length acs ≡ 3)
    × Served two_conns three_calls acs
round_robin_example = round_robin three_calls two_conns two_conns-Valid two_conns_next

no_conns_panic : get_next block_service new_grp_connections ≡ panic
no_conns_panic = get_next-panic block_service new_grp_connections new_grp_connections-Valid refl

-- Services that answer with the number of their connection, but for the second, which fails.
abbrev serve : ServiceClient → Request → Answer Bytes ℕ
serve ac q = elim ac.conn [ zero ↦ reply 0 | suc n ↦ fault (codes "down") ]

rate_limited :
    get_account_balance serve (some (codes "rate")) (codes "1a") 9 two_conns
    ≡ (err (limited (codes "rate")), two_conns)
rate_limited = refused serve (account_balance (codes "1a") 9) (codes "rate") two_conns

-- Four calls, of which the second is refused.
abbrev four_calls : List (LimitedCall serve)
four_calls =
    limited_call (account_balance (codes "1a") 9) none
    ∷ limited_call (block 9) (some (codes "rate"))
    ∷ limited_call (events 9) none
    ∷ limited_call (transactions 9) none
    ∷ []

make_calls-InTurn_example :
    InTurn serve two_conns.conn two_conns.len two_conns.next four_calls
      (make_calls serve four_calls two_conns).0
make_calls-InTurn_example =
    make_calls-InTurn serve four_calls two_conns two_conns-Valid two_conns_next

-- The second connection fails, and the last call is back on the first one.
four_results :
    (make_calls serve four_calls two_conns).0
    ≡ ok 0 ∷ err (limited (codes "rate")) ∷ err (event_by_height 9 (codes "down")) ∷ ok 0 ∷ []
unfolding add get_account_balance get_block_by_height get_events_by_height
    get_transactions_by_height get_next
four_results = refl
