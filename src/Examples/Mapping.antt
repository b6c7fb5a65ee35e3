-- ===== src/Examples/Mapping.antt =====
-- Runs of the package `mapper`.
use polkadot_worker.Base.{
  ◌^◌, ◌≤◌, ◌<◌, ◌≡◌, ◌≢◌, ◌⊎◌, refl, true, false, List, [], ◌∷◌, ◌++◌, map, Option, none, some,
  Bytes, codes, if◌then◌else◌, member, format_uint, digits, to_lower, All, Distinct, length, arith,
  ok, err,
}
use polkadot_worker.Base.Int.{ℤ, pos, is_zero, ◌+ℤ◌}
use polkadot_worker.Stdlib.Numbers.{
  set_string, format_int, atoi, in_int, positive, scan_number, scan, digit_value,
}
use polkadot_worker.Mapper.Amount.{
  Floats, bad_integer, bad_partial_fee, bad_tip, empty_balance, exp_divider, get_amount,
  init_exp_divider, to_int32,
}
use polkadot_worker.Mapper.Amount.Exact.{get_amount_lem, exp_divider_exact, exp_divider_nonzero}
use polkadot_worker.Mapper.Balance.{AccountResponse, account_balance_mapper}
use polkadot_worker.Mapper.Balance.Laws.{Mapped, account_balance_mapper_lem}
use polkadot_worker.Mapper.Proto.{RawEvent, Extrinsic, RawBlock}
use polkadot_worker.Stdlib.Strings.{
  split, trim_space, trim_left, trim_right, desc_find, match_list, is_number, all_digits,
}
use polkadot_worker.Mapper.Event.{
  Event, empty_event, render, with_attributes, get_values, get_value, classify, parse_named,
  stringify_value, parse_values, parse_rest, parse_event_description,
}
use polkadot_worker.Mapper.Event.Attributes.{stringify_all, attributes_complete}
use polkadot_worker.Mapper.Event.Values.{IsName, listed, bracketed, get_values-listed}
use polkadot_worker.Mapper.Transaction.{
  Transaction, get_transaction_fee, parse_time, transactions_mapper, transactions_loop,
  to_transaction, parse_parts, parse_int, read_big, fee_of, to_uint64, join,
}
use polkadot_worker.Mapper.Subset.{parse_loop}
use polkadot_worker.Mapper.Transaction.Fee.{counts, Charged, get_transaction_fee_lem}
use polkadot_worker.Mapper.Transaction.Time.{parse_time_printed}
use polkadot_worker.Mapper.Transaction.Listing.{
  MadeFrom, transaction_hash, extrinsic_hash, transactions_mapper_once,
}

-- Integers in place of floats.
abbrev quo_int : ℤ → ℤ → Option ℤ
quo_int x y = if is_zero y then none else some x

abbrev pub int_floats : Floats
int_floats = record {
  Float = ℤ;
  float_of_string = set_string 10;
  float_of_int64 = λ z. z;
  quo = quo_int;
  text_f = format_int;
  reads_integers = λ s z e. (z, e);
  quo_by_nonzero = λ x z e. (x, rw e refl);
}

abbrev pub dot : Bytes
dot = codes "DOT"

ten_decimals :
    (10 ≤ 18 → exp_divider (pos 10) ≡ pos (10 ^ 10)) × (64 ≤ 10 → exp_divider (pos 10) ≡ pos 0)
ten_decimals = exp_divider_exact 10

get_amount_lem_example :
    ((set_string 10 (codes "25") ≡ none)
      × (get_amount int_floats (codes "25") (pos 10) dot (init_exp_divider int_floats (pos 10))
          ≡ err (bad_integer (codes "25"))))
    ⊎ ((z : ℤ) × (x : ℤ) × (set_string 10 (codes "25") ≡ some z)
        × (get_amount int_floats (codes "25") (pos 10) dot (init_exp_divider int_floats (pos 10))
            ≡ ok (
                some (record {
                  text = format_int x ++ dot;
                  currency = dot;
                  numeric = z;
                  exp = to_int32 (pos 10);
                }))))
get_amount_lem_example =
    get_amount_lem int_floats (codes "25") (pos 10) (pos 10) dot (λ e. cc)
      (exp_divider_nonzero 10 (omega arith))

abbrev rich : AccountResponse
rich = record { free = codes "120" }

account_balance_mapper_lem_example :
    (account_balance_mapper int_floats (pos 10) dot none 8 ≡ err empty_balance)
    × (account_balance_mapper int_floats (pos 10) dot (some rich) 0 ≡ err empty_balance)
    × (0 < 8
        → Mapped int_floats 10 dot rich.free 8
            (account_balance_mapper int_floats (pos 10) dot (some rich) 8))
account_balance_mapper_lem_example =
    account_balance_mapper_lem int_floats 10 dot rich 8 (omega arith)

get_transaction_fee_lem_example :
    (counts (codes "12") ≡ none
      → get_transaction_fee int_floats (pos 10) (codes "d") dot (codes "12") (codes "3")
        ≡ err (bad_partial_fee (codes "12")))
    × ((f : ℤ)
        → counts (codes "12") ≡ some f
        → (counts (codes "3") ≡ none
            → get_transaction_fee int_floats (pos 10) (codes "d") dot (codes "12") (codes "3")
              ≡ err (bad_tip (codes "3")))
          × ((t : ℤ)
              → counts (codes "3") ≡ some t
              → Charged int_floats (codes "d") dot 10 (f +ℤ t) (
                  get_transaction_fee int_floats
                    (pos 10)
                    (codes "d")
                    dot
                    (codes "12")
                    (codes "3"))))
get_transaction_fee_lem_example =
    get_transaction_fee_lem int_floats (codes "d") dot 10 (codes "12") (codes "3") (omega arith)

parse_time_printed_example :
    (parse_time (format_uint 1600000000 ++ b'.' ∷ format_uint 25)
      ≡ ok (record { sec = pos 1600000000; nsec = pos 25 }))
    × (parse_time (format_uint 1600000000) ≡ ok (record { sec = pos 1600000000; nsec = pos 0 }))
parse_time_printed_example = parse_time_printed 1600000000 25 (omega arith) (omega arith)

abbrev plain : Bytes → Extrinsic
plain hash = record {
  hash = hash;
  time = codes "12";
  nonce = pos 1;
  method = codes "Set";
  section = codes "Timestamp";
  signer = [];
  partial_fee = [];
  tip = [];
  epoch = codes "1";
  is_success = true;
  raw = [];
  events = [];
}

abbrev pub small_block : RawBlock
small_block = record {
  block_hash = codes "0xb";
  height = pos 8;
  time = 12;
  extrinsics = plain (codes "0x1") ∷ plain (codes "0x2") ∷ plain (codes "0x1") ∷ [];
}

abbrev pub mapped : Bytes → Transaction
mapped hash = record {
  hash = hash;
  block_hash = codes "0xb";
  height = 8;
  epoch = codes "1";
  chain_id = codes "d";
  time = record { sec = pos 12; nsec = pos 0 };
  fee = [];
  version = codes "0.0.1";
  events =
      record {
        kind = codes "Extrinsic";
        module_ = codes "timestamp";
        id = [];
        type = codes "set" ∷ [];
        sub = [];
      }
      ∷ [];
  has_errors = false;
  raw = [];
  raw_log = codes "[]";
}

pub small_block_maps :
    transactions_mapper int_floats (pos 10) (codes "d") dot (some small_block)
    ≡ ok (mapped (codes "0x1") ∷ mapped (codes "0x2") ∷ [])
unfolding transactions_mapper transactions_loop to_transaction parse_time parse_parts split
    parse_int atoi in_int set_string positive scan_number scan digit_value parse_loop
    get_transaction_fee read_big fee_of to_lower to_uint64 format_uint digits join
small_block_maps = refl

transactions_mapper_once_example :
    MadeFrom int_floats
      (pos 10)
      (codes "d")
      dot
      small_block
      small_block.extrinsics
      (mapped (codes "0x1") ∷ mapped (codes "0x2") ∷ [])
    × Distinct (map transaction_hash (mapped (codes "0x1") ∷ mapped (codes "0x2") ∷ []))
    × ((h : Bytes)
        → member h (map extrinsic_hash small_block.extrinsics) ≡ true
        → member h (map transaction_hash (mapped (codes "0x1") ∷ mapped (codes "0x2") ∷ [])) ≡ true)
transactions_mapper_once_example =
    transactions_mapper_once int_floats (pos 10) (codes "d") dot small_block
      (mapped (codes "0x1") ∷ mapped (codes "0x2") ∷ []) small_block_maps

abbrev names_text : Bytes
names_text = bracketed (codes "from, to, value") []

abbrev transferred : RawEvent
transferred = record {
  index = pos 2;
  description = codes "A transfer. " ++ names_text;
  params =
      record { name = codes "AccountId"; value = codes "1a" }
      ∷ record { name = codes "AccountId"; value = codes "1b" }
      ∷ record { name = codes "Balance"; value = codes "25" }
      ∷ [];
  method = codes "Transfer";
  section = codes "balances";
  error = [];
  raw = [];
}

abbrev transfer_parsed : Event
transfer_parsed =
    with_attributes
      (render (codes "AccountId") (codes "\"1a\"")
        ∷ render (codes "AccountId") (codes "\"1b\"")
        ∷ render (codes "Balance") (codes "25")
        ∷ [])
      (record empty_event {
        sender_account_id = codes "1a";
        recipient_account_id = codes "1b";
        values = codes "25" ∷ [];
      })

transfer_parses : parse_event_description transferred empty_event ≡ ok transfer_parsed
unfolding parse_event_description parse_values get_values desc_find match_list split parse_named
    classify trim_space trim_left trim_right get_value stringify_value parse_rest to_lower is_number
    all_digits
transfer_parses = refl

attributes_complete_example :
    (attrs : List Bytes) × (stringify_all transferred.params ≡ ok attrs)
    × (transfer_parsed.sub ≡ (with_attributes attrs empty_event).sub)
    × (length attrs ≡ length transferred.params)
    × (length (get_values transferred.description) ≤ length transferred.params)
    × All (λ d. d.value ≢ []) transferred.params
attributes_complete_example =
    attributes_complete transferred empty_event transfer_parsed transfer_parses

to_IsName : IsName (codes "to")
to_IsName = (((refl, omega arith, omega arith), ((refl, omega arith, omega arith), tt)), λ e. cc)

value_IsName : IsName (codes "amt")
value_IsName = (
  (
    (refl, omega arith, omega arith),
    ((refl, omega arith, omega arith), ((refl, omega arith, omega arith), tt)),
  ),
  λ e. cc,
)

get_values-listed_example :
    get_values (codes "A" ++ bracketed (listed (codes "to") (codes "amt" ∷ [])) (codes "."))
    ≡ codes "to" ∷ codes "amt" ∷ []
get_values-listed_example =
    get_values-listed (codes "A") (codes "to") (codes "amt" ∷ []) (codes ".") (omega arith, tt)
      to_IsName (value_IsName, tt)
