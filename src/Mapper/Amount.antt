-- ===== src/Mapper/Amount.antt =====
-- Amounts: `getAmount` of `mapper/event_mapper.go`, `initExpDivider` and `countCurrencyAmount` of
-- `mapper/transaction_mapper.go`, and the errors of the package.
pub mod Exact
use polkadot_worker.Base.{
  ℕ, ◌+◌, ◌-◌, ◌%◌, ◌^◌, ◌≡◌, Bool, true, false, List, [], ◌∷◌, ◌++◌, Option, none, some, Bytes,
  ltb, if◌then◌else◌, is_empty, Outcome, ok, err, panic, block, ◌>>=◌, or_panic, or_err,
}
use polkadot_worker.Base.Int.{ℤ, pos, negsuc, is_zero, int64_bits}
use polkadot_worker.Stdlib.Numbers.{set_string}

pub data MapperError : Type 0 where
  bad_integer : Bytes → MapperError
  no_currency_amount : MapperError
  bad_float : Bytes → MapperError
  unexpected_name : Bytes → Bytes → Bytes → MapperError
  not_enough_data : MapperError
  parsing_event : ℕ → MapperError → MapperError
  empty_block : MapperError
  empty_balance : MapperError
  bad_free_amount : Bytes → MapperError → MapperError
  bad_time : Bytes → MapperError
  bad_partial_fee : Bytes → MapperError
  bad_tip : Bytes → MapperError

-- `math/big`'s floats. `quo` has no value where `Quo` panics; the laws are that `SetString` reads
-- every decimal integer, and that a quotient by a divisor other than zero is no panic.
pub record Floats : Type 1 where
  pub Float : Type 0
  pub float_of_string : Bytes → Option Float
  pub float_of_int64 : ℤ → Float
  pub quo : Float → Float → Option Float
  pub text_f : Float → Bytes
  pub reads_integers :
      (s : Bytes) (z : ℤ) → set_string 10 s ≡ some z → (x : Float) × (float_of_string s ≡ some x)
  pub quo_by_nonzero :
      (x : Float) (z : ℤ) → is_zero z ≡ false → (y : Float) × (quo x (float_of_int64 z) ≡ some y)

pub record TransactionAmount : Type 0 where
  pub text : Bytes
  pub currency : Bytes
  pub numeric : ℤ
  pub exp : ℤ

-- The conversion `int32(exp)`.
abbrev pub int32_bits : ℕ → ℤ
int32_bits n = let w = n % 2 ^ 32 in if ltb w (2 ^ 31) then pos w else negsuc (2 ^ 32 - w - 1)

unfoldable pub to_int32 : ℤ → ℤ
to_int32 (pos n) = int32_bits n
to_int32 (negsuc n) = int32_bits (2 ^ 32 - 1 - n % 2 ^ 32)

-- `new(big.Int).Exp(10, precision, nil)` is 1 for a precision below 1; `div.Int64()` keeps 64 bits.
unfoldable pub exp_divider : ℤ → ℤ
exp_divider (pos n) = int64_bits (10 ^ n)
exp_divider (negsuc n) = pos 1

module _ (fl : Floats) where
  open fl use {Float, float_of_string, float_of_int64, quo, text_f}

  abbrev pub init_exp_divider : ℤ → Float
  init_exp_divider precision = float_of_int64 (exp_divider precision)

  unfoldable pub count_currency_amount : Bytes → Float → Outcome MapperError Float
  count_currency_amount value divider = do
    amount ← or_err (bad_float value) (float_of_string value)
    or_panic (quo amount divider)

  -- The error of the callee is not passed on.
  abbrev pub currency_amount : Bytes → Float → Outcome MapperError Float
  currency_amount value divider = elim (count_currency_amount value divider) [
    | ok x ↦ ok x
    | err _ ↦ err no_currency_amount
    | panic ↦ panic
    | block ↦ block
  ]

  unfoldable pub get_amount :
      Bytes → ℤ → Bytes → Float → Outcome MapperError (Option TransactionAmount)
  get_amount [] exp currency divider = ok none
  get_amount (c ∷ s) exp currency divider = do
    n ← or_err (bad_integer (c ∷ s)) (set_string 10 (c ∷ s))
    amount ← currency_amount (c ∷ s) divider
    ok (
        some (record {
          text = text_f amount ++ currency;
          currency = currency;
          numeric = n;
          exp = to_int32 exp;
        }))
