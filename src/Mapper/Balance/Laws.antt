-- ===== src/Mapper/Balance/Laws.antt =====
-- What `mapper/account_balance_mapper.go` returns on every branch.
use polkadot_worker.Base.{
  codes, same, same→eq, if◌then◌else◌, ◌⊎◌, sym, subst, ◌∙◌, Bool, ℕ, zero, suc, ◌≤◌, ◌<◌, ◌≡◌, ◌≢◌,
  inl, inr, refl, true, false, [], ◌∷◌, ◌++◌, none, some, Bytes, Outcome, ok, err, Bool-cases,
  arith, ◌>>=◌,
}
use polkadot_worker.Base.Int.{ℤ, pos}
use polkadot_worker.Stdlib.Numbers.{set_string}
use polkadot_worker.Mapper.Amount.{
  MapperError, bad_integer, bad_free_amount, empty_balance, Floats, to_int32,
}
use polkadot_worker.Mapper.Amount.Exact.{get_amount_lem, exp_divider_nonzero}
use polkadot_worker.Mapper.Balance.{
  AccountResponse, AccountBalance, asks_amount, account_balance_of, account_balance_mapper,
}

true_ne_false : true ≢ false
true_ne_false e = cc

asks_amount-true : (s : Bytes) → asks_amount s ≡ true → (s ≢ []) × (s ≢ codes "0")
asks_amount-true [] h = cc
asks_amount-true (c ∷ s) h =
    (λ e. cc, λ e. true_ne_false (sym h ∙ subst (λ x. asks_amount x ≡ false) (sym e) refl))

zero_text :
    (s : Bytes) (b : Bool)
    → same s (codes "0") ≡ b
    → (if b then false else true) ≡ false
    → s ≡ codes "0"
zero_text s true e h = same→eq s (codes "0") e
zero_text s false e h = cc

asks_amount-false : (s : Bytes) → asks_amount s ≡ false → (s ≡ []) ⊎ (s ≡ codes "0")
asks_amount-false [] h = inl refl
asks_amount-false (c ∷ s) h = inr (zero_text (c ∷ s) (same (c ∷ s) (codes "0")) refl h)

module _ (fl : Floats) where
  open fl use {Float, text_f}

  -- What the mapper returns for an account at a height other than zero.
  pub data Mapped (exp : ℕ) (currency free : Bytes) (height : ℕ)
      : Outcome MapperError AccountBalance → Type 0 where
    nothing :
        (free ≡ []) ⊎ (free ≡ codes "0")
        → Mapped exp currency free height (ok (record { height = height; balances = [] }))
    refused :
        free ≢ []
        → free ≢ codes "0"
        → set_string 10 free ≡ none
        → Mapped exp currency free height (err (bad_free_amount free (bad_integer free)))
    one :
        (z : ℤ) (x : Float)
        → free ≢ []
        → free ≢ codes "0"
        → set_string 10 free ≡ some z
        → Mapped exp currency free height (
            ok (record {
              height = height;
              balances =
                  record {
                    text = text_f x ++ currency;
                    currency = currency;
                    numeric = z;
                    exp = to_int32 (pos exp);
                  }
                  ∷ [];
            }))

  account_balance_of-Mapped :
      (exp : ℕ) (currency : Bytes) (r : AccountResponse) (height : ℕ)
      → exp ≤ 18
      → Mapped exp currency r.free height (account_balance_of fl (pos exp) currency r height)
  unfolding account_balance_of
  account_balance_of-Mapped exp currency r height h = elim (Bool-cases (asks_amount r.free)) [
    | inl e ↦
        let (n1, n2) = asks_amount-true r.free e in
        rw e
          (elim (get_amount_lem fl r.free (pos exp) (pos exp) currency n1
            (exp_divider_nonzero exp h)) [
              | inl (n, f) ↦ rw (f, ◌>>=◌) (refused n1 n2 n)
              | inr (z, x, n, f) ↦ rw (f, ◌>>=◌) (one z x n1 n2 n)
            ])
    | inr e ↦ rw e (nothing (asks_amount-false r.free e))
  ]

  -- For a missing answer, and for height zero, the mapper returns its error; with 18 decimals at
  -- most it returns otherwise an empty list for a free balance of "" or "0" and for no other one;
  -- else one amount with the balance's integer, or, for a balance that is no integer, an error that
  -- names it. It never panics.
  pub account_balance_mapper_lem :
      (exp : ℕ) (currency : Bytes) (r : AccountResponse) (height : ℕ)
      → exp ≤ 18
      → (account_balance_mapper fl (pos exp) currency none height ≡ err empty_balance)
        × (account_balance_mapper fl (pos exp) currency (some r) 0 ≡ err empty_balance)
        × (0 < height
            → Mapped exp currency r.free height
                (account_balance_mapper fl (pos exp) currency (some r) height))
  unfolding account_balance_mapper
  account_balance_mapper_lem exp currency r zero h = (refl, refl, λ k. absurd (omega arith))
  account_balance_mapper_lem exp currency r (suc n) h =
      (refl, refl, λ k. account_balance_of-Mapped exp currency r (suc n) h)
