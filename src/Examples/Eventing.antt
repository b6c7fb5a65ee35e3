-- ===== src/Examples/Eventing.antt =====
-- A run of `parseEvents` of `mapper/event_mapper.go`.
use polkadot_worker.Base.{
  ◌≡◌, refl, true, List, [], ◌∷◌, map, some, Bytes, codes, Distinct, ok, format_uint, digits,
  to_lower,
}
use polkadot_worker.Base.Int.{ℤ, pos}
use polkadot_worker.Stdlib.Numbers.{
  format_int, set_string, positive, scan_number, scan, digit_value,
}
use polkadot_worker.Stdlib.Strings.{desc_find, match_list, split, trim_space, trim_left, trim_right}
use polkadot_worker.Mapper.Event.{
  parse_event_description, parse_values, get_values, parse_rest, classify,
}
use polkadot_worker.Mapper.Proto.{RawEvent, SubsetEvent, UnixTime, empty_subset_event}
use polkadot_worker.Mapper.Subset.{
  parse_events, parse_loop, get_event, append_amounts, append_each, append_accounts, finish_event,
  event_id, member_int,
}
use polkadot_worker.Mapper.Amount.{TransactionAmount, get_amount, count_currency_amount, to_int32}
use polkadot_worker.Mapper.Subset.Transfer.{
  Transfer, transfer_data, transferred, get_event-transferred,
}
use polkadot_worker.Mapper.Subset.Unique.{event_index, parse_events_once}
use polkadot_worker.Examples.Mapping.{int_floats, dot}

abbrev silent_event : ℤ → RawEvent
silent_event i = record {
  index = i;
  description = [];
  params = [];
  method = codes "NewSession";
  section = codes "session";
  error = [];
  raw = codes "{}";
}

-- An index that occurs twice.
abbrev three_events : List RawEvent
three_events = silent_event (pos 2) ∷ silent_event (pos 0) ∷ silent_event (pos 2) ∷ []

abbrev noon : UnixTime
noon = record { sec = pos 12; nsec = pos 0 }

abbrev subset_of : Bytes → SubsetEvent
subset_of id = record empty_subset_event {
  id = id;
  type = codes "newsession" ∷ [];
  module_ = codes "session";
  completion = some noon;
  nonce = codes "1";
}

two_subsets :
    parse_events int_floats (pos 10) dot (pos 1) noon 8 (codes "1") [] three_events
    ≡ ok (subset_of (codes "8-2") ∷ subset_of (codes "8-0") ∷ [], codes "{}" ∷ codes "{}" ∷ [])
unfolding parse_loop get_event append_amounts append_each append_accounts finish_event format_uint
    digits format_int to_lower parse_event_description parse_values get_values desc_find parse_rest
two_subsets = refl

parse_events_once_example :
    (indices : List ℤ) × (codes "8-2" ∷ codes "8-0" ∷ [] ≡ map (event_id 8) indices)
    × Distinct (codes "8-2" ∷ codes "8-0" ∷ [])
    × ((i : ℤ) → member_int i (map event_index three_events) ≡ true → member_int i indices ≡ true)
parse_events_once_example =
    parse_events_once int_floats (pos 10) dot 8 (pos 1) noon (codes "1") [] three_events
      (subset_of (codes "8-2") ∷ subset_of (codes "8-0") ∷ []) (codes "{}" ∷ codes "{}" ∷ [])
      two_subsets

abbrev payment : RawEvent
payment = record {
  index = pos 1;
  description = codes "Moved. \\[from, to, value\\]";
  params = transfer_data 97 (codes "1") 98 (codes "2") b'2' (codes "5");
  method = codes "Transfer";
  section = codes "balances";
  error = [];
  raw = codes "{}";
}

payment-Transfer : Transfer payment
unfolding get_values desc_find classify to_lower match_list split trim_space trim_left trim_right
payment-Transfer = record {
  sender_name = codes "from";
  recipient_name = codes "to";
  amount_name = codes "value";
  described = refl;
  sender_kind = refl;
  recipient_kind = refl;
  amount_kind = refl;
  no_error = refl;
  not_delegated = refl;
}

abbrev twenty_five : TransactionAmount
twenty_five = record { text = codes "25DOT"; currency = dot; numeric = pos 25; exp = pos 10 }

twenty_five_read : get_amount int_floats (codes "25") (pos 10) dot (pos 1) ≡ ok (some twenty_five)
unfolding get_amount set_string positive scan_number scan digit_value count_currency_amount
    format_int to_int32 format_uint
twenty_five_read = refl

get_event-transferred_example :
    get_event int_floats (pos 10) dot (pos 1) payment []
    ≡ ok (transferred payment (codes "a1") (codes "b2") twenty_five)
get_event-transferred_example =
    get_event-transferred int_floats (pos 10) dot [] (pos 1) payment payment-Transfer 97 98 b'2'
      (codes "1") (codes "2") (codes "5") refl twenty_five_read
