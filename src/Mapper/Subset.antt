-- ===== src/Mapper/Subset.antt =====
-- `mapper/event_mapper.go`: `getEvent` with `handleError`, `appendAmounts` and `appendAccounts`, and
-- `parseEvents`.
pub mod Indices
pub mod Unique
pub mod Transfer
use polkadot_worker.Base.{
  ℕ, ◌+◌, Bool, true, false, ◌&&◌, List, [], ◌∷◌, ◌++◌, some, Bytes, codes, to_lower, ◌==◌,
  if◌then◌else◌, is_empty, length, format_uint, Outcome, ok, ◌>>=◌, or_panic,
}
use polkadot_worker.Base.Int.{ℤ}
use polkadot_worker.Stdlib.Numbers.{format_int}
use polkadot_worker.Mapper.Amount.{MapperError, Floats, TransactionAmount, get_amount}
use polkadot_worker.Mapper.Proto.{RawEvent, SubsetEvent, EventTransfer, UnixTime, same_int}
use polkadot_worker.Mapper.Event.{Event, empty_event, parse_event_description}

unfoldable pub handle_error : Bytes → Bytes → Event → Event
handle_error message signer e = record e {
  sub = record e.sub { error = some message };
  signer_id = signer;
}

abbrev pub is_nil : List Bytes → Bool
is_nil [] = true
is_nil (_ ∷ _) = false

abbrev pub add_node : Bytes → List Bytes → Event → Event
add_node key accounts e = record e {
  sub = record e.sub { node = e.sub.node ++ (key, accounts) ∷ [] };
}

abbrev pub transfer_of : Bytes → Event → EventTransfer
transfer_of account e = record { account = account; amounts = e.amount ∷ [] }

unfoldable pub append_sender : Event → Event
append_sender e =
    if is_empty e.sender_account_id
    then e
    else add_node (codes "sender") (e.sender_account_id ∷ [])
        (record e { sub = record e.sub { sender = transfer_of e.sender_account_id e ∷ [] } })

unfoldable pub append_signer : Event → Event
append_signer e = if is_empty e.signer_id then e else add_node (codes "signer") (e.signer_id ∷ []) e

unfoldable pub append_recipient : Event → Event
append_recipient e =
    if is_empty e.recipient_account_id
    then e
    else add_node (codes "recipient") (e.recipient_account_id ∷ []) (record e {
      sub = record e.sub {
        recipient = transfer_of e.recipient_account_id e ∷ [];
        transfers = (e.recipient_account_id, transfer_of e.recipient_account_id e ∷ []) ∷ [];
      };
    })

unfoldable pub append_versions : Event → Event
append_versions e = if is_nil e.account_ids then e else add_node (codes "versions") e.account_ids e

-- `e.Node` is made anew: nothing else has written it before.
unfoldable pub append_accounts : Event → Event
append_accounts e =
    if is_nil e.account_ids
      && (is_empty e.sender_account_id && (is_empty e.recipient_account_id && is_empty e.signer_id))
    then e
    else append_recipient (
        append_signer
          (append_sender (append_versions (record e { sub = record e.sub { node = [] } }))))

abbrev pub add_amount : ℕ → TransactionAmount → Event → Event
add_amount i a e = record e {
  sub = record e.sub { amount = e.sub.amount ++ (format_uint i, a) ∷ [] };
}

abbrev pub if_single : Bool → TransactionAmount → Event → Event
if_single single a e = if single then record e { amount = some a } else e

-- `fmt.Sprintf("%d-%d", height, e.Index)`
abbrev pub event_id : ℕ → ℤ → Bytes
event_id height index = format_uint height ++ b'-' ∷ format_int index

abbrev pub member_int : ℤ → List ℤ → Bool
member_int i [] = false
member_int i (j ∷ js) = if same_int i j then true else member_int i js

unfoldable pub finish_event : RawEvent → Event → SubsetEvent
finish_event ev e = record e.sub { module_ = ev.section; type = to_lower ev.method ∷ e.event_type }

module _ (fl : Floats) (exp : ℤ) (currency : Bytes) where
  open fl use {Float}

  -- The loop of `appendAmounts` from index `i`; the pointer is dereferenced without a test.
  unfoldable pub append_each : Float → Bool → List Bytes → ℕ → Event → Outcome MapperError Event
  append_each divider single [] i e = ok e
  append_each divider single (v ∷ vs) i e = do
    amount ← get_amount fl v exp currency divider
    a ← or_panic amount
    append_each divider single vs (i + 1) (if_single (single && i == 0) a (add_amount i a e))

  unfoldable pub append_amounts : Float → Event → Outcome MapperError Event
  append_amounts divider e =
      append_each divider (length e.values == 1) e.values 0
        (record e { sub = record e.sub { amount = [] } })

  unfoldable pub get_event : Float → RawEvent → Bytes → Outcome MapperError SubsetEvent
  get_event divider ev signer = do
    e ← parse_event_description ev empty_event
    let e' = if is_empty ev.error then e else handle_error ev.error signer e
    e'' ← append_amounts divider e'
    ok (finish_event ev (append_accounts e''))

  -- The loop of `parseEvents`; `seen` holds the keys of `evIndexMap`.
  unfoldable pub parse_loop :
      Float
      → UnixTime
      → ℕ
      → Bytes
      → Bytes
      → List ℤ
      → List RawEvent
      → Outcome MapperError (List SubsetEvent × List Bytes)
  parse_loop divider time height nonce signer seen [] = ok ([], [])
  parse_loop divider time height nonce signer seen (e ∷ es) =
      let skip = parse_loop divider time height nonce signer seen es in
      let take_it = (do
        sub ← get_event divider e signer
        (subs, raw) ← parse_loop divider time height nonce signer (e.index ∷ seen) es
        ok (
          record sub { id = event_id height e.index; completion = some time; nonce = nonce } ∷ subs,
          e.raw ∷ raw,
        )) in
      if member_int e.index seen then skip else take_it

  abbrev pub parse_events :
      Float
      → UnixTime
      → ℕ
      → Bytes
      → Bytes
      → List RawEvent
      → Outcome MapperError (List SubsetEvent × List Bytes)
  parse_events divider time height nonce signer es =
      parse_loop divider time height nonce signer [] es
