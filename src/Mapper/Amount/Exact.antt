-- ===== src/Mapper/Amount/Exact.antt =====
-- When the divider is the power of ten that it stands for, and what `getAmount` returns.
use native.Mathlib.Nat.{pow-suc, pow-le-pow_right, one-le-pow}
use polkadot_worker.Base.{
  ℕ, zero, suc, ◌+◌, ◌%◌, ◌^◌, ◌-◌, ◌≤◌, ◌≡◌, ◌≢◌, refl, sym, subst, ◌⊎◌, inl, inr, Option-cases,
  false, [], ◌∷◌, ◌++◌, none, some, Bytes, arith, ok, err, ◌>>=◌,
}
use polkadot_worker.Base.Int.{ℤ, pos, negsuc, is_zero}
use polkadot_worker.Stdlib.Numbers.{set_string}
use polkadot_worker.Mapper.Amount.{
  bad_integer, Floats, to_int32, exp_divider, init_exp_divider, count_currency_amount,
  currency_amount, get_amount,
}

ten_pow_le : (n : ℕ) → n ≤ 18 → 10 ^ n ≤ 10 ^ 18
ten_pow_le n h = pow-le-pow_right (omega arith) h

ten_pow_64 : (k : ℕ) → 10 ^ (k + 64) % 2 ^ 64 ≡ 0
ten_pow_64 zero = refl
ten_pow_64 (suc k) =
    let e : suc k + 64 ≡ suc (k + 64) = omega arith in
    subst (λ m. 10 ^ m % 2 ^ 64 ≡ 0) (sym e)
      (rw (pow-suc 10 (k + 64)) (omega (arith, ten_pow_64 k)))

-- With 18 decimals at most the divider is the power of ten that is meant; with 64 or more it is
-- zero.
pub exp_divider_exact :
    (n : ℕ) → (n ≤ 18 → exp_divider (pos n) ≡ pos (10 ^ n)) × (64 ≤ n → exp_divider (pos n) ≡ pos 0)
unfolding exp_divider
exp_divider_exact n = (
  (λ h. ground (arith, ten_pow_le n h)),
  (λ h. let e : n ≡ (n - 64) + 64 = omega arith in rw e (ground (arith, ten_pow_64 (n - 64)))),
)

-- With 19 decimals the divider is negative.
exp_divider_19 : exp_divider (pos 19) ≡ negsuc 8446744073709551615
unfolding exp_divider
exp_divider_19 = refl

ten_pow_pos : (n : ℕ) → 1 ≤ 10 ^ n
ten_pow_pos n = one-le-pow n 10 (omega arith)

-- No divider of 18 decimals at most is zero.
pub exp_divider_nonzero : (n : ℕ) → n ≤ 18 → is_zero (exp_divider (pos n)) ≡ false
exp_divider_nonzero n h = rw ((exp_divider_exact n).0 h) (ground (arith, ten_pow_pos n))

module _ (fl : Floats) where
  open fl use {Float, float_of_string, float_of_int64, quo, text_f, reads_integers, quo_by_nonzero}

  -- A value that reads as an integer is counted, unless the divider is zero.
  pub count_currency_amount_lem :
      (v : Bytes) (z d : ℤ)
      → set_string 10 v ≡ some z
      → is_zero (exp_divider d) ≡ false
      → (x : Float) × (count_currency_amount fl v (init_exp_divider fl d) ≡ ok x)
  unfolding count_currency_amount
  count_currency_amount_lem v z d e n =
      let (x, f) = reads_integers v z e in
      let (y, q) = quo_by_nonzero x (exp_divider d) n in (y, rw (f, ◌>>=◌) (rw q refl))

  pub currency_amount_lem :
      (v : Bytes) (z d : ℤ)
      → set_string 10 v ≡ some z
      → is_zero (exp_divider d) ≡ false
      → (x : Float) × (currency_amount fl v (init_exp_divider fl d) ≡ ok x)
  currency_amount_lem v z d e n =
      let (x, f) = count_currency_amount_lem v z d e n in (x, rw (f, currency_amount))

  -- A value that is no integer is an error, and names the value; any other that is not empty gives
  -- an amount with that integer, the currency and the number of decimals. No other error and no
  -- panic is possible as long as the divider is not zero.
  pub get_amount_lem :
      (v : Bytes) (exp d : ℤ) (currency : Bytes)
      → v ≢ []
      → is_zero (exp_divider d) ≡ false
      → ((set_string 10 v ≡ none)
          × (get_amount fl v exp currency (init_exp_divider fl d) ≡ err (bad_integer v)))
        ⊎ ((z : ℤ) × (x : Float) × (set_string 10 v ≡ some z)
            × (get_amount fl v exp currency (init_exp_divider fl d)
                ≡ ok (
                    some (record {
                      text = text_f x ++ currency;
                      currency = currency;
                      numeric = z;
                      exp = to_int32 exp;
                    }))))
  unfolding get_amount
  get_amount_lem [] exp d currency h n = absurd (h refl)
  get_amount_lem (c ∷ s) exp d currency h n = elim (Option-cases (set_string 10 (c ∷ s))) [
    | inl e ↦ inl (e, rw e)
    | inr (z, e) ↦
        let (x, f) = currency_amount_lem (c ∷ s) z d e n in inr (z, x, e, rw (e, ◌>>=◌) (rw f refl))
  ]
