-- ===== src/Mapper/Transaction/Fee.antt =====
-- What `getTransactionFee` of `mapper/transaction_mapper.go` returns on every branch.
use polkadot_worker.Base.{
  ℕ, ◌≤◌, ◌≡◌, refl, sym, subst, inl, inr, true, false, List, [], ◌∷◌, ◌++◌, Option, none, some,
  Bytes, arith, Outcome, ok, err, ◌>>=◌, Bool-cases,
}
use polkadot_worker.Base.Int.{ℤ, pos, negsuc, ◌+ℤ◌, is_zero}
use polkadot_worker.Stdlib.Numbers.{set_string, format_int}
use polkadot_worker.Stdlib.Numbers.RoundTrip.{set_string-format_int}
use polkadot_worker.Mapper.Amount.{
  MapperError, bad_partial_fee, bad_tip, Floats, TransactionAmount, to_int32,
}
use polkadot_worker.Mapper.Amount.Exact.{count_currency_amount_lem, exp_divider_nonzero}
use polkadot_worker.Mapper.Transaction.{read_big, fee_of, get_transaction_fee}

-- What a text counts for: nothing at all is zero.
unfoldable pub counts : Bytes → Option ℤ
counts [] = some (pos 0)
counts (c ∷ s) = set_string 10 (c ∷ s)

+ℤ-zero : (z : ℤ) → z +ℤ pos 0 ≡ z
unfolding ◌+ℤ◌
+ℤ-zero (pos n) = ground arith
+ℤ-zero (negsuc n) = ground arith

zero-+ℤ : (z : ℤ) → pos 0 +ℤ z ≡ z
unfolding ◌+ℤ◌
zero-+ℤ (pos n) = ground arith
zero-+ℤ (negsuc n) = ground arith

some_inj : {x y : ℤ} → some x ≡ some y → x ≡ y
some_inj e = cc

zero_zero : is_zero (pos 0 +ℤ pos 0) ≡ true
unfolding ◌+ℤ◌
zero_zero = refl

module _ (fl : Floats) (chain_id currency : Bytes) where
  open fl use {Float, text_f}

  -- The fee that is shown for an amount: none for zero, else one with the amount's integer.
  pub data Charged (exp : ℕ) (z : ℤ) : Outcome MapperError (List TransactionAmount) → Type 0 where
    free_of_charge : is_zero z ≡ true → Charged exp z (ok [])
    charged :
        (x : Float)
        → is_zero z ≡ false
        → Charged exp z (
            ok (
              record {
                text = text_f x ++ currency;
                currency = currency;
                numeric = z;
                exp = to_int32 (pos exp);
              }
              ∷ []))

  fee_of-Charged :
      (exp : ℕ) (z : ℤ) → exp ≤ 18 → Charged exp z (fee_of fl (pos exp) chain_id currency (some z))
  unfolding fee_of
  fee_of-Charged exp z h =
      let (x, e) =
        count_currency_amount_lem fl (format_int z) z (pos exp) (set_string-format_int z)
          (exp_divider_nonzero exp h) in
      rw (e, fee_of)
        (elim (Bool-cases (is_zero z)) [
          | inl k ↦ rw k (free_of_charge k)
          | inr k ↦ rw k (charged x k)
        ])

  fee_texts-Charged :
      (exp : ℕ) (fee tip : Bytes) (f t : ℤ)
      → exp ≤ 18
      → counts fee ≡ some f
      → counts tip ≡ some t
      → Charged exp (f +ℤ t) (get_transaction_fee fl (pos exp) chain_id currency fee tip)
  unfolding get_transaction_fee read_big counts fee_of
  fee_texts-Charged exp [] [] f t h p q =
      subst (λ z. Charged exp (z +ℤ t) (ok [])) (some_inj p)
        (subst (λ z. Charged exp (pos 0 +ℤ z) (ok [])) (some_inj q) (free_of_charge zero_zero))
  fee_texts-Charged exp [] (c ∷ tip) f t h p q =
      let e = subst (λ z. z +ℤ t ≡ t) (some_inj p) (zero-+ℤ t) in
      rw (q, ◌>>=◌)
        (subst (λ z. Charged exp z (fee_of fl (pos exp) chain_id currency (some t))) (sym e)
          (fee_of-Charged exp t h))
  fee_texts-Charged exp (c ∷ fee) [] f t h p q =
      let e = subst (λ z. f +ℤ z ≡ f) (some_inj q) (+ℤ-zero f) in
      rw (p, ◌>>=◌)
        (subst (λ z. Charged exp z (fee_of fl (pos exp) chain_id currency (some f))) (sym e)
          (fee_of-Charged exp f h))
  fee_texts-Charged exp (c ∷ fee) (d ∷ tip) f t h p q =
      rw (p, ◌>>=◌) (rw q (fee_of-Charged exp (f +ℤ t) h))

  no_fee_read :
      (exp : ℤ) (fee tip : Bytes)
      → counts fee ≡ none
      → get_transaction_fee fl exp chain_id currency fee tip ≡ err (bad_partial_fee fee)
  unfolding get_transaction_fee read_big counts
  no_fee_read exp [] tip p = cc
  no_fee_read exp (c ∷ fee) tip p = rw p

  no_tip_read :
      (exp : ℤ) (fee tip : Bytes) (f : ℤ)
      → counts fee ≡ some f
      → counts tip ≡ none
      → get_transaction_fee fl exp chain_id currency fee tip ≡ err (bad_tip tip)
  unfolding get_transaction_fee read_big counts
  no_tip_read exp fee [] f p q = cc
  no_tip_read exp [] (d ∷ tip) f p q = rw q
  no_tip_read exp (c ∷ fee) (d ∷ tip) f p q = rw (p, ◌>>=◌) (rw q refl)

  -- With 18 decimals at most, where an empty text counts for zero: a partial fee that is no integer
  -- is the error that names it; else a tip that is no integer is the error that names it; else the
  -- fee is the sum of both, as one amount, or nothing when the sum is zero. There is no panic.
  pub get_transaction_fee_lem :
      (exp : ℕ) (fee tip : Bytes)
      → exp ≤ 18
      → (counts fee ≡ none
          → get_transaction_fee fl (pos exp) chain_id currency fee tip ≡ err (bad_partial_fee fee))
        × ((f : ℤ)
            → counts fee ≡ some f
            → (counts tip ≡ none
                → get_transaction_fee fl (pos exp) chain_id currency fee tip ≡ err (bad_tip tip))
              × ((t : ℤ)
                  → counts tip ≡ some t
                  → Charged exp
                      (f +ℤ t)
                      (get_transaction_fee fl (pos exp) chain_id currency fee tip)))
  get_transaction_fee_lem exp fee tip h = (
    no_fee_read (pos exp) fee tip,
    (λ f p. (no_tip_read (pos exp) fee tip f p, (λ t. fee_texts-Charged exp fee tip f t h p))),
  )
