-- ===== src/Mapper/Event.antt =====
-- `mapper/event_mapper.go`: `parseEventDescription` and what it calls. The log is left out.
pub mod Values
pub mod Attributes
use polkadot_worker.Base.{
  ℕ, zero, suc, ◌+◌, ◌-◌, ◌≡◌, Bool, true, false, ◌||◌, List, [], ◌∷◌, ◌++◌, Option, none, some,
  Bytes, codes, same, member, to_lower, ltb, ◌==◌, if◌then◌else◌, is_empty, length, take, drop, map,
  Outcome, ok, err, panic, block, ◌>>=◌, wrap,
}
use polkadot_worker.Stdlib.Strings.{split, trim_space, desc_find, is_number}
use polkadot_worker.Mapper.Amount.{
  MapperError, unexpected_name, not_enough_data, parsing_event, TransactionAmount,
}
use polkadot_worker.Mapper.Proto.{EventData, RawEvent, SubsetEvent, empty_subset_event}

-- The struct `event`; its slices are nil as long as nothing has been appended. `none` in `amount` is
-- the zero `TransactionAmount`.
pub record Event : Type 0 where
  pub sub : SubsetEvent
  pub account_ids : List Bytes
  pub recipient_account_id : Bytes
  pub sender_account_id : Bytes
  pub signer_id : Bytes
  pub values : List Bytes
  pub amount : Option TransactionAmount
  pub event_type : List Bytes

abbrev pub empty_event : Event
empty_event = record {
  sub = empty_subset_event;
  account_ids = [];
  recipient_account_id = [];
  sender_account_id = [];
  signer_id = [];
  values = [];
  amount = none;
  event_type = [];
}

abbrev pub cut_description : Bytes → List Bytes
cut_description vls =
    if ltb (length vls) 5
    then []
    else map trim_space (split b',' (drop 2 (take (length vls - 2) vls)))

unfoldable pub get_values : Bytes → List Bytes
get_values description = cut_description (desc_find description)

unfoldable pub get_value : EventData → Bytes → Outcome MapperError Bytes
get_value d expected =
    if same d.name expected then ok d.value else err (unexpected_name d.name expected d.value)

abbrev pub get_account_id : EventData → Outcome MapperError Bytes
get_account_id d = get_value d (codes "AccountId")

abbrev pub get_balance : EventData → Outcome MapperError Bytes
get_balance d = get_value d (codes "Balance")

-- The kinds of parameter that the `switch` of `parseEventDescription` tells apart.
pub data Parameter : Type 0 where
  account from to amount error ignored unknown : Parameter

abbrev account_names : List Bytes
account_names =
    codes "account"
    ∷ codes "approving"
    ∷ codes "authority_id"
    ∷ codes "multisig"
    ∷ codes "stash"
    ∷ codes "unvested"
    ∷ codes "target"
    ∷ codes "sub"
    ∷ codes "main"
    ∷ codes "cancelling"
    ∷ codes "lost"
    ∷ codes "rescuer"
    ∷ codes "sender"
    ∷ codes "voter"
    ∷ codes "founder"
    ∷ codes "candidate"
    ∷ codes "candidate_id"
    ∷ codes "vouching"
    ∷ codes "nominator"
    ∷ codes "validator"
    ∷ codes "finder"
    ∷ codes "real"
    ∷ codes "primary"
    ∷ codes "restorer"
    ∷ codes "dest"
    ∷ codes "deployer"
    ∷ codes "contract"
    ∷ codes "creator"
    ∷ codes "owner"
    ∷ codes "origin"
    ∷ []

abbrev amount_names : List Bytes
amount_names =
    codes "deposit"
    ∷ codes "free_balance"
    ∷ codes "value"
    ∷ codes "balance"
    ∷ codes "amount"
    ∷ codes "offer"
    ∷ codes "validator_payout"
    ∷ codes "bond"
    ∷ codes "remainder"
    ∷ codes "payout"
    ∷ codes "award"
    ∷ codes "slashed"
    ∷ codes "budget_remaining"
    ∷ codes "burn"
    ∷ codes "rent_allowance"
    ∷ []

abbrev ignored_names : List Bytes
ignored_names =
    codes "info"
    ∷ codes "tip_hash"
    ∷ codes "call_hash"
    ∷ codes "index"
    ∷ codes "new_members"
    ∷ codes "proposal_index"
    ∷ codes "compute"
    ∷ codes "destination_status"
    ∷ codes "is_ok"
    ∷ codes "threshold"
    ∷ codes "until"
    ∷ codes "authority_set"
    ∷ codes "registrar_index"
    ∷ codes "timepoint"
    ∷ codes "when"
    ∷ codes "task"
    ∷ codes "id"
    ∷ codes "result"
    ∷ codes "judged"
    ∷ codes "era_index"
    ∷ codes "session_index"
    ∷ codes "total_supply"
    ∷ codes "proposal_hash"
    ∷ codes "yes"
    ∷ codes "no"
    ∷ codes "proxy"
    ∷ codes "voted"
    ∷ codes "disambiguation_index"
    ∷ codes "proxy_type"
    ∷ codes "anonymous"
    ∷ codes "kind"
    ∷ codes "timeslot"
    ∷ codes "applied"
    ∷ codes "offline"
    ∷ codes "candidates"
    ∷ codes "depositors"
    ∷ codes "ref_index"
    ∷ codes "version"
    ∷ codes "code_hash"
    ∷ codes "data"
    ∷ codes "asset_id"
    ∷ codes "symbol"
    ∷ codes "decimals"
    ∷ codes "name"
    ∷ codes "max_zombies"
    ∷ codes "remark_hash"
    ∷ codes "parachain_id"
    ∷ codes "leaser"
    ∷ codes "period_begin"
    ∷ codes "period_count"
    ∷ codes "extra_reseved"
    ∷ codes "total_amount"
    ∷ []

unfoldable pub classify : Bytes → Parameter
classify v =
    if member v account_names
    then account
    else if member v (codes "from" ∷ codes "provider" ∷ [])
    then from
    else if member v (codes "to" ∷ codes "who" ∷ codes "beneficiary" ∷ codes "reaper" ∷ [])
    then to
    else if member v amount_names
    then amount
    else if same v (codes "error")
    then error
    else if member v ignored_names
    then ignored
    else unknown

abbrev pub is_method : RawEvent → Bytes → Bool
is_method ev m = same (to_lower ev.method) m

abbrev pub add_account : Bytes → Event → Event
add_account a e = record e { account_ids = e.account_ids ++ a ∷ [] }

abbrev pub add_value : Bytes → Event → Event
add_value v e = record e { values = e.values ++ v ∷ [] }

-- An `err` that the code only tests is swallowed.
abbrev pub if_ok : Outcome MapperError Bytes → (Bytes → Event) → Event → Event
if_ok (ok a) f e = f a
if_ok (err _) f e = e
if_ok panic f e = e
if_ok block f e = e

-- One case of the `switch`.
unfoldable pub parse_named : Parameter → RawEvent → EventData → Event → Outcome MapperError Event
parse_named account ev d e = ok (
    if_ok (get_account_id d)
      (λ a.
        if is_method ev (codes "endowed")
        then record e { recipient_account_id = a }
        else add_account a e)
      e)
parse_named from ev d e = do a ← get_account_id d; ok (record e { sender_account_id = a })
parse_named to ev d e = ok (
    if same d.name (codes "AccountIndex")
    then e
    else if_ok (get_account_id d)
        (λ a.
          if is_method ev (codes "delegated")
          then add_account a e
          else record e { recipient_account_id = a })
        e)
parse_named amount ev d e = ok (if_ok (get_balance d) (λ v. add_value v e) e)
parse_named error ev d e = ok (record e { event_type = codes "error" ∷ [] })
parse_named ignored ev d e = ok e
parse_named unknown ev d e = ok e

-- `[]rune(val)[0]` panics on an empty value.
abbrev pub quoted : ℕ → Bytes → Bytes
quoted c val =
    if c == b'{' || (c == b'[' || c == b'-')
    then val
    else if is_number val
    then val
    else b'"' ∷ (val ++ b'"' ∷ [])

abbrev pub render : Bytes → Bytes → Bytes
render name val = codes "{\"name\": \"" ++ (name ++ (codes "\", \"value\": " ++ (val ++ codes "}")))

unfoldable pub stringify_value : Bytes → Bytes → Outcome MapperError Bytes
stringify_value name [] = panic
stringify_value name (c ∷ s) = ok (render name (quoted c (c ∷ s)))

abbrev pub stringify_event_data : EventData → Outcome MapperError Bytes
stringify_event_data d = stringify_value d.name d.value

-- The data behind the named parameters.
unfoldable pub parse_unnamed : EventData → Event → Event
parse_unnamed d e =
    if same d.name (codes "Balance")
    then if_ok (get_balance d) (λ v. add_value v e) e
    else if same d.name (codes "AccountId")
    then if_ok (get_account_id d) (λ a. add_account a e) e
    else e

unfoldable pub parse_rest :
    List EventData → Event → List Bytes → Outcome MapperError (Event × List Bytes)
parse_rest [] e attributes = ok (e, attributes)
parse_rest (d ∷ ds) e attributes = do
  a ← stringify_event_data d
  parse_rest ds (parse_unnamed d e) (attributes ++ a ∷ [])

-- The loop over the named parameters, with its index, and the loop over the rest behind it.
unfoldable pub parse_values :
    RawEvent
    → List Bytes
    → List EventData
    → ℕ
    → Event
    → List Bytes
    → Outcome MapperError (Event × List Bytes)
parse_values ev [] ds i e attributes = parse_rest ds e attributes
parse_values ev (v ∷ vs) [] i e attributes = err not_enough_data
parse_values ev (v ∷ vs) (d ∷ ds) i e attributes = do
  e' ← wrap (parsing_event i) (parse_named (classify v) ev d e)
  a ← stringify_event_data d
  parse_values ev vs ds (i + 1) e' (attributes ++ a ∷ [])

abbrev pub with_attributes : List Bytes → Event → Event
with_attributes [] e = e
with_attributes (a ∷ rest) e = record e {
  sub = record e.sub { additional = (codes "attributes", a ∷ rest) ∷ [] };
}

unfoldable pub parse_event_description : RawEvent → Event → Outcome MapperError Event
parse_event_description ev e = do
  (e', attributes) ← parse_values ev (get_values ev.description) ev.params 0 e []
  ok (with_attributes attributes e')
