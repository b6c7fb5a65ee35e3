-- ===== src/Mapper/Transaction.antt =====
-- `mapper/transaction_mapper.go`: `parseTime`, `getTransactionFee`, `TransactionsMapper`; and
-- `mapper/block_mapper.go`. A message of the proxy that is present has its parts.
pub mod Fee
pub mod Time
pub mod Listing
use polkadot_worker.Base.{
  ℕ, ◌+◌, ◌-◌, ◌%◌, ◌^◌, ◌≡◌, Bool, true, false, not, List, [], ◌∷◌, ◌++◌, Option, none, some,
  Bytes, codes, member, to_lower, if◌then◌else◌, is_empty, length, format_uint, ◌==◌, Outcome, ok,
  err, panic, block, ◌>>=◌, or_err,
}
use polkadot_worker.Base.Int.{ℤ, pos, negsuc, ◌+ℤ◌, is_zero}
use polkadot_worker.Stdlib.Numbers.{set_string, format_int, atoi}
use polkadot_worker.Stdlib.Strings.{split}
use polkadot_worker.Mapper.Amount.{
  MapperError, bad_time, bad_partial_fee, bad_tip, empty_block, no_currency_amount, Floats,
  TransactionAmount, count_currency_amount, init_exp_divider, to_int32,
}
use polkadot_worker.Mapper.Proto.{RawEvent, Extrinsic, RawBlock, UnixTime, SubsetEvent, same_int}
use polkadot_worker.Mapper.Subset.{parse_events}

-- The conversion `uint64(n)`.
unfoldable pub to_uint64 : ℤ → ℕ
to_uint64 (pos n) = n % 2 ^ 64
to_uint64 (negsuc n) = 2 ^ 64 - 1 - n % 2 ^ 64

unfoldable pub parse_int : Bytes → Outcome MapperError ℤ
parse_int s = or_err (bad_time s) (atoi s)

-- `strings.Split` gives one part exactly when the text has no point.
unfoldable pub parse_parts : Bytes → List Bytes → Outcome MapperError UnixTime
parse_parts s (a ∷ b ∷ _) = do
  nsec ← parse_int b
  sec ← parse_int a
  ok (record { sec = sec; nsec = nsec })
parse_parts s _ = do sec ← parse_int s; ok (record { sec = sec; nsec = pos 0 })

unfoldable pub parse_time : Bytes → Outcome MapperError UnixTime
parse_time s = parse_parts s (split b'.' s)

-- `none` is a nil pointer.
unfoldable pub read_big : MapperError → Bytes → Outcome MapperError (Option ℤ)
read_big e [] = ok none
read_big e (c ∷ s) = do n ← or_err e (set_string 10 (c ∷ s)); ok (some n)

abbrev pub add_tip : Option ℤ → Option ℤ → Option ℤ
add_tip fee none = fee
add_tip none (some tip) = some tip
add_tip (some fee) (some tip) = some (fee +ℤ tip)

pub record Block : Type 0 where
  pub chain_id : Bytes
  pub epoch : Bytes
  pub hash : Bytes
  pub height : ℕ
  pub number_of_transactions : ℕ
  pub time : ℕ

unfoldable pub block_mapper : Option RawBlock → Bytes → Bytes → Outcome MapperError Block
block_mapper none chain_id epoch = err empty_block
block_mapper (some b) chain_id epoch = ok (record {
  chain_id = chain_id;
  epoch = epoch;
  hash = b.block_hash;
  height = to_uint64 b.height;
  number_of_transactions = length b.extrinsics;
  time = b.time;
})

-- `to_transaction` leaves the identifier of an event empty.
pub record TransactionEvent : Type 0 where
  pub id : Bytes
  pub kind : Bytes
  pub module_ : Bytes
  pub type : List Bytes
  pub sub : List SubsetEvent

pub record Transaction : Type 0 where
  pub hash : Bytes
  pub block_hash : Bytes
  pub height : ℕ
  pub epoch : Bytes
  pub chain_id : Bytes
  pub time : UnixTime
  pub fee : List TransactionAmount
  pub version : Bytes
  pub events : List TransactionEvent
  pub has_errors : Bool
  pub raw : Bytes
  pub raw_log : Bytes

-- `strings.Join(logs, ",")`
unfoldable pub join : List Bytes → Bytes
join [] = []
join (l ∷ []) = l
join (l ∷ m ∷ ls) = l ++ b',' ∷ join (m ∷ ls)

module _ (fl : Floats) (exp : ℤ) (chain_id currency : Bytes) where
  open fl use {Float, text_f}

  -- What follows the reading of the two texts; the error of the callee is not passed on.
  unfoldable pub fee_of : Option ℤ → Outcome MapperError (List TransactionAmount)
  fee_of none = ok []
  fee_of (some amount) =
      elim (count_currency_amount fl (format_int amount) (init_exp_divider fl exp)) [
        | ok x ↦
            if is_zero amount
            then ok []
            else ok (
                record {
                  text = text_f x ++ currency;
                  currency = currency;
                  numeric = amount;
                  exp = to_int32 exp;
                }
                ∷ [])
        | err _ ↦ err no_currency_amount
        | panic ↦ panic
        | block ↦ block
      ]

  unfoldable pub get_transaction_fee : Bytes → Bytes → Outcome MapperError (List TransactionAmount)
  get_transaction_fee partial_fee tip = do
    fee ← read_big (bad_partial_fee partial_fee) partial_fee
    t ← read_big (bad_tip tip) tip
    fee_of (add_tip fee t)

  unfoldable pub to_transaction : RawBlock → Extrinsic → Outcome MapperError Transaction
  to_transaction b t = do
    time ← parse_time t.time
    (subs, logs) ←
        parse_events fl exp currency (init_exp_divider fl exp) time (to_uint64 b.height)
          (format_uint (to_uint64 t.nonce)) t.signer t.events
    fee ← get_transaction_fee t.partial_fee t.tip
    ok (record {
      hash = t.hash;
      block_hash = b.block_hash;
      height = to_uint64 b.height;
      epoch = t.epoch;
      chain_id = chain_id;
      time = time;
      fee = fee;
      version = codes "0.0.1";
      events =
          record {
            id = [];
            kind = codes "Extrinsic";
            module_ = to_lower t.section;
            type = to_lower t.method ∷ [];
            sub = subs;
          }
          ∷ [];
      has_errors = not t.is_success;
      raw = t.raw;
      raw_log = b'[' ∷ join logs ++ b']' ∷ [];
    })

  -- The loop over the extrinsics; `seen` holds the keys of `transactionMap`.
  unfoldable pub transactions_loop :
      RawBlock → List Bytes → List Extrinsic → Outcome MapperError (List Transaction)
  transactions_loop b seen [] = ok []
  transactions_loop b seen (t ∷ ts) =
      let skip = transactions_loop b seen ts in
      let take_it = (do
        tx ← to_transaction b t
        txs ← transactions_loop b (t.hash ∷ seen) ts
        ok (tx ∷ txs)) in
      if member t.hash seen then skip else take_it

  unfoldable pub transactions_mapper : Option RawBlock → Outcome MapperError (List Transaction)
  transactions_mapper none = err empty_block
  transactions_mapper (some b) = transactions_loop b [] b.extrinsics
