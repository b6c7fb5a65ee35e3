-- ===== src/Mapper/Balance.antt =====
-- `mapper/account_balance_mapper.go`. A pointer that may be nil is an
-- `Option`; the messages below it are taken as present.
pub mod Laws
use polkadot_worker.Base.{
  ℕ, zero, suc, ◌≡◌, Bool, true, false, ◌||◌, List, [], ◌∷◌, Option, none, some, Bytes, codes, same,
  if◌then◌else◌, is_empty, length, ◌==◌, Outcome, ok, err, panic, block, ◌>>=◌, or_panic, wrap,
}
use polkadot_worker.Base.Int.{ℤ, pos, negsuc}
use polkadot_worker.Mapper.Amount.{
  MapperError, empty_block, empty_balance, bad_free_amount, Floats, TransactionAmount,
  init_exp_divider, get_amount,
}

-- `accountpb.GetByHeightResponse`, its field `Account.Free`.
pub record AccountResponse : Type 0 where
  pub free : Bytes

pub record AccountBalance : Type 0 where
  pub height : ℕ
  pub balances : List TransactionAmount

abbrev pub asks_amount : Bytes → Bool
asks_amount [] = false
asks_amount (c ∷ s) = if same (c ∷ s) (codes "0") then false else true

module _ (fl : Floats) where
  -- The receiver, `AccountBalanceMapper`, holds the divider for its `exp`.
  unfoldable pub account_balance_of :
      ℤ → Bytes → AccountResponse → ℕ → Outcome MapperError AccountBalance
  account_balance_of exp currency r height =
      if asks_amount r.free
      then (do
        amount ←
            wrap (bad_free_amount r.free)
              (get_amount fl r.free exp currency (init_exp_divider fl exp))
        a ← or_panic amount
        ok (record { height = height; balances = a ∷ [] }))
      else ok (record { height = height; balances = [] })

  unfoldable pub account_balance_mapper :
      ℤ → Bytes → Option AccountResponse → ℕ → Outcome MapperError AccountBalance
  account_balance_mapper exp currency none height = err empty_balance
  account_balance_mapper exp currency (some r) zero = err empty_balance
  account_balance_mapper exp currency (some r) (suc h) = account_balance_of exp currency r (suc h)
