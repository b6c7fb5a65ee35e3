-- ===== src/Stdlib/Numbers/RoundTrip.antt =====
-- Decimal numbers are read back from their print.
use polkadot_worker.Base.{
  ℕ, zero, suc, ◌+◌, ◌*◌, ◌/◌, ◌%◌, ◌^◌, ◌<◌, ◌≤◌, ◌≡◌, refl, sym, ◌∙◌, ap, [], ◌∷◌, ◌++◌, some,
  Bytes, ltb, lt→ltb, format_uint, digits, arith, Bool-cases, inl, inr, append_assoc, append-nil,
}
use polkadot_worker.Base.Int.{ℤ, pos, negsuc}
use polkadot_worker.Stdlib.Numbers.{
  digit_value, scan, scan_number, set_string, format_int, negated, positive, atoi, in_int,
  parse_uint, in_uint64,
}

digit_value-digit : (d : ℕ) → d < 10 → digit_value (b'0' + d) ≡ d
unfolding digit_value
digit_value-digit d h = ground arith

scan_digit :
    (n d m : ℕ) (rest : Bytes)
    → d < 10
    → n * 10 + d ≡ m
    → scan 10 n ((b'0' + d) ∷ rest) ≡ scan 10 m rest
unfolding scan
scan_digit n d m rest h e = rw (digit_value-digit d h, lt→ltb d 10 h) (ap (λ k. scan 10 k rest) e)

-- Reading the digits of `n` behind the number `m`, with a rest to read.
digits-scan : (f n : ℕ) (rest : Bytes) → n < f → scan 10 0 (digits f n ++ rest) ≡ scan 10 n rest
unfolding digits
digits-scan zero n rest h = elim h [ ]
digits-scan (suc f) n rest h = elim (Bool-cases (ltb n 10)) [
  | inl e ↦ rw e (scan_digit 0 n n rest (ground (arith, e)) (omega arith))
  | inr e ↦
      rw (e, append_assoc)
        (digits-scan f (n / 10) ((b'0' + n % 10) ∷ rest) (ground (arith, e))
          ∙ scan_digit (n / 10) (n % 10) n rest (omega arith) (omega arith))
]

-- The print of a number begins with a digit.
abbrev pub StartsWithDigit : Bytes → Type 0
StartsWithDigit [] = ⊥
StartsWithDigit (c ∷ s) = (b'0' ≤ c) × (c ≤ b'9')

StartsWithDigit-append : (s t : Bytes) → StartsWithDigit s → StartsWithDigit (s ++ t)
StartsWithDigit-append [] t h = elim h [ ]
StartsWithDigit-append (c ∷ s) t h = h

digits-StartsWithDigit : (f n : ℕ) → n < f → StartsWithDigit (digits f n)
unfolding digits
digits-StartsWithDigit zero n h = elim h [ ]
digits-StartsWithDigit (suc f) n h = elim (Bool-cases (ltb n 10)) [
  | inl e ↦ rw e (ground (arith, e))
  | inr e ↦ rw e (
      StartsWithDigit-append (digits f (n / 10)) _
        (digits-StartsWithDigit f (n / 10) (ground (arith, e))))
]

pub format_uint-StartsWithDigit : (n : ℕ) → StartsWithDigit (format_uint n)
unfolding format_uint
format_uint-StartsWithDigit n = digits-StartsWithDigit (suc n) n (omega arith)

scan_number-scan : (s : Bytes) → StartsWithDigit s → scan_number 10 s ≡ scan 10 0 s
unfolding scan_number
scan_number-scan [] h = elim h [ ]
scan_number-scan (c ∷ s) h = refl

format_uint-scan : (n : ℕ) → scan 10 0 (format_uint n) ≡ some n
unfolding format_uint
format_uint-scan n =
    ap (scan 10 0) (sym (append-nil (digits (suc n) n)))
    ∙ (digits-scan (suc n) n [] (omega arith) ∙ unfold scan in refl)

pub scan_number-format_uint : (n : ℕ) → scan_number 10 (format_uint n) ≡ some n
scan_number-format_uint n =
    scan_number-scan (format_uint n) (format_uint-StartsWithDigit n) ∙ format_uint-scan n

set_string_digit : (s : Bytes) → StartsWithDigit s → set_string 10 s ≡ positive (scan_number 10 s)
unfolding set_string
set_string_digit [] h = elim h [ ]
set_string_digit (c ∷ s) h = ground arith

-- `SetString` reads back what `String` prints, for every integer.
pub set_string-format_int : (z : ℤ) → set_string 10 (format_int z) ≡ some z
unfolding format_int positive
set_string-format_int (pos n) =
    set_string_digit (format_uint n) (format_uint-StartsWithDigit n)
    ∙ ap positive (scan_number-format_uint n)
set_string-format_int (negsuc n) =
    unfold set_string negated in (ap negated (scan_number-format_uint (suc n)) ∙ ground arith)

-- `Atoi` reads back the print of every number that fits an `int`.
pub atoi-format_uint : (n : ℕ) → n < 2 ^ 63 → atoi (format_uint n) ≡ some (pos n)
unfolding atoi in_int format_int
atoi-format_uint n h = ap in_int (set_string-format_int (pos n)) ∙ ground arith

-- `ParseUint` reads back the print of every `uint64`.
pub parse_uint-format_uint : (n : ℕ) → n < 2 ^ 64 → parse_uint (format_uint n) ≡ some n
unfolding parse_uint in_uint64
parse_uint-format_uint n h = ap in_uint64 (scan_number-format_uint n) ∙ ground arith
