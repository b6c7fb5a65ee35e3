-- ===== src/Indexer/Latest/Header.antt =====
-- The height that `getLatestHeight` of `indexer/getBlock.go` reads from a header.
use polkadot_worker.Base.{
  ℕ, zero, suc, ◌+◌, ◌-◌, ◌*◌, ◌/◌, ◌%◌, ◌^◌, ◌≤◌, ◌<◌, ◌≡◌, ◌≢◌, refl, sym, ap, ◌∙◌, false, List,
  [], ◌∷◌, ◌++◌, append-nil, append_assoc, Option, none, some, Bytes, codes, ltb, lt→ltb, ◌==◌,
  if◌then◌else◌, All, All-append, ok, ◌>>=◌, or_err, arith, Bool-cases, inl, inr,
}
use polkadot_worker.Base.Int.{ℤ, pos}
use polkadot_worker.Stdlib.Numbers.{digit_value, scan, scan_number, set_string, positive}
use polkadot_worker.Stdlib.Strings.{remove_hex_prefix}
use polkadot_worker.Api.Session.{Response}
use polkadot_worker.Indexer.Hashes.{Lru}
use polkadot_worker.Indexer.Hashes.Chain.{quoted, cut-quoted}
use polkadot_worker.Indexer.Latest.{read_hex, int_uint64, height_of, get_latest_height}

-- A digit in base 16, in lower case.
abbrev pub hex_digit : ℕ → ℕ
hex_digit d = if ltb d 10 then b'0' + d else b'a' + (d - 10)

-- The number in base 16, with fuel; `n + 1` rounds are enough.
unfoldable pub hex_digits : ℕ → ℕ → Bytes
hex_digits zero n = []
hex_digits (suc f) n =
    let more = hex_digits f (n / 16) ++ hex_digit (n % 16) ∷ [] in
    if ltb n 16 then hex_digit n ∷ [] else more

unfoldable pub format_hex : ℕ → Bytes
unfolding hex_digits
format_hex n = hex_digits (suc n) n

digit_value-hex_digit : (d : ℕ) → d < 16 → digit_value (hex_digit d) ≡ d
unfolding digit_value
digit_value-hex_digit d h = ground arith

scan_hex :
    (n d m : ℕ) (rest : Bytes)
    → d < 16
    → n * 16 + d ≡ m
    → scan 16 n (hex_digit d ∷ rest) ≡ scan 16 m rest
unfolding scan
scan_hex n d m rest h e = rw (digit_value-hex_digit d h, lt→ltb d 16 h) (ap (λ k. scan 16 k rest) e)

hex_digits-scan :
    (f n : ℕ) (rest : Bytes) → n < f → scan 16 0 (hex_digits f n ++ rest) ≡ scan 16 n rest
unfolding hex_digits
hex_digits-scan zero n rest h = elim h [ ]
hex_digits-scan (suc f) n rest h = elim (Bool-cases (ltb n 16)) [
  | inl e ↦ rw e (scan_hex 0 n n rest (ground (arith, e)) (omega arith))
  | inr e ↦
      rw (e, append_assoc)
        (hex_digits-scan f (n / 16) (hex_digit (n % 16) ∷ rest) (ground (arith, e))
          ∙ scan_hex (n / 16) (n % 16) n rest (omega arith) (omega arith))
]

-- What stands in a number in base 16: neither a sign nor an `x`.
abbrev IsHexByte : ℕ → Type 0
IsHexByte c = (b'0' ≤ c) × (c ≢ b'x')

hex_digit-IsHexByte : (d : ℕ) → d < 16 → IsHexByte (hex_digit d)
hex_digit-IsHexByte d h = ground arith

hex_digits-IsHexByte : (f n : ℕ) → All IsHexByte (hex_digits f n)
unfolding hex_digits
hex_digits-IsHexByte zero n = tt
hex_digits-IsHexByte (suc f) n = elim (Bool-cases (ltb n 16)) [
  | inl e ↦ rw e (hex_digit-IsHexByte n (ground (arith, e)), tt)
  | inr e ↦ rw e (
      All-append IsHexByte (hex_digits f (n / 16)) _ (hex_digits-IsHexByte f (n / 16))
        (hex_digit-IsHexByte (n % 16) (omega arith), tt))
]

append_ne_nil : (s : Bytes) (b : ℕ) → s ++ b ∷ [] ≢ []
append_ne_nil [] b = λ e. cc
append_ne_nil (c ∷ s) b = λ e. cc

hex_digits-ne-nil : (f n : ℕ) → hex_digits (suc f) n ≢ []
unfolding hex_digits
hex_digits-ne-nil f n = elim (Bool-cases (ltb n 16)) [
  | inl e ↦ rw e (λ q. cc)
  | inr e ↦ rw e (append_ne_nil (hex_digits f (n / 16)) (hex_digit (n % 16)))
]

-- Such a text is read as its digits say.
set_string-hex : (s : Bytes) → s ≢ [] → All IsHexByte s → set_string 16 s ≡ positive (scan 16 0 s)
unfolding set_string scan_number
set_string-hex [] n h = absurd (n refl)
set_string-hex (c ∷ s) n (p, h) =
    let a : (c == b'-') ≡ false = ground arith in
    let b : (c == b'+') ≡ false = ground arith in rw (a, b) refl

remove_hex_prefix-hex : (s : Bytes) → All IsHexByte s → remove_hex_prefix s ≡ s
unfolding remove_hex_prefix
remove_hex_prefix-hex [] h = refl
remove_hex_prefix-hex (a ∷ []) h = refl
remove_hex_prefix-hex (a ∷ b ∷ s) (p, (q, h)) =
    let e : (b == b'x') ≡ false = ground arith in
    let ih : remove_hex_prefix (b ∷ s) ≡ b ∷ s = remove_hex_prefix-hex (b ∷ s) (q, h) in
    ground (arith, e, ih)

read_hex-set_string :
    (undefined : Bytes → ℕ) (s : Bytes) (z : ℤ)
    → set_string 16 s ≡ some z
    → read_hex undefined s ≡ int_uint64 z
unfolding read_hex
read_hex-set_string undefined s z e = rw (e, read_hex) refl

-- A number below 2^64, printed with its prefix, is read back.
read_hex-format_hex :
    (undefined : Bytes → ℕ) (n : ℕ)
    → n < 2 ^ 64
    → read_hex undefined (remove_hex_prefix (codes "0x" ++ format_hex n)) ≡ n
unfolding format_hex remove_hex_prefix positive
read_hex-format_hex undefined n h =
    let s = hex_digits (suc n) n in
    let scanned : scan 16 0 s ≡ some n =
      ap (scan 16 0) (sym (append-nil s))
      ∙ (hex_digits-scan (suc n) n [] (omega arith) ∙ unfold scan in refl) in
    let a = hex_digits-IsHexByte (suc n) n in
    rw (remove_hex_prefix-hex s a) (
      read_hex-set_string undefined s (pos n)
        (set_string-hex s (hex_digits-ne-nil n n) a ∙ ap positive scanned)
      ∙ omega arith)

module _ (lru : Lru) (undefined : Bytes → ℕ) (header_number : Bytes → Option Bytes) where
  open lru use {Cache, add}

  -- When both requests are sent and answered, with the hash of the top block and with a header that
  -- has a number below 2^64 in base 16 behind `0x`: that number is returned, and the cache gets the
  -- hash under it.
  pub latest_height_read :
      (c : Cache) (n id id' : ℕ) (hash result type type' : Bytes) (rest : List Response)
      → n < 2 ^ 64
      → header_number result ≡ some (codes "0x" ++ format_hex n)
      → get_latest_height lru undefined header_number
          (λ _. none)
          c
          (record { id = id; error = none; type = type; result = quoted hash }
            ∷ record { id = id'; error = none; type = type'; result = result }
            ∷ rest)
        ≡ ok (n, add c n hash)
  unfolding get_latest_height height_of
  latest_height_read c n id id' hash result type type' rest h e =
      rw (e, or_err, ◌>>=◌) (rw (cut-quoted hash, read_hex-format_hex undefined n h) refl)
