-- ===== src/Stdlib/Numbers.antt =====
-- `math/big` and `strconv`: reading and printing integers.
pub mod RoundTrip
use polkadot_worker.Base.{
  ℕ, zero, suc, ◌+◌, ◌-◌, ◌*◌, ◌/◌, ◌%◌, ◌^◌, ◌<◌, ◌≤◌, ◌≡◌, Bool, true, false, ◌&&◌, ◌||◌, List,
  [], ◌∷◌, ◌++◌, Option, none, some, Bytes, ltb, leb, ◌==◌, if◌then◌else◌, format_uint,
}
use polkadot_worker.Base.Int.{ℤ, pos, negsuc, neg}

-- The value of a digit; letters count from ten in both cases, anything else is above every base.
unfoldable pub digit_value : ℕ → ℕ
digit_value c =
    if leb b'0' c && leb c b'9'
    then c - b'0'
    else if leb b'a' c && leb c b'z'
    then c - b'a' + 10
    else if leb b'A' c && leb c b'Z'
    then c - b'A' + 10
    else 63

-- The number that digits spell behind `n`.
unfoldable pub scan : ℕ → ℕ → Bytes → Option ℕ
scan base n [] = some n
scan base n (c ∷ s) =
    let d = digit_value c in
    let rest = scan base (n * base + d) s in if ltb d base then rest else none

-- One digit at least.
unfoldable pub scan_number : ℕ → Bytes → Option ℕ
scan_number base [] = none
scan_number base (c ∷ s) = scan base 0 (c ∷ s)

unfoldable pub negated : Option ℕ → Option ℤ
negated none = none
negated (some n) = some (neg (pos n))

unfoldable pub positive : Option ℕ → Option ℤ
positive none = none
positive (some n) = some (pos n)

-- `(*big.Int).SetString(s, base)` for a base other than 0.
unfoldable pub set_string : ℕ → Bytes → Option ℤ
set_string base [] = none
set_string base (c ∷ s) =
    if c == b'-'
    then negated (scan_number base s)
    else if c == b'+'
    then positive (scan_number base s)
    else positive (scan_number base (c ∷ s))

-- `(*big.Int).String()`
unfoldable pub format_int : ℤ → Bytes
format_int (pos n) = format_uint n
format_int (negsuc n) = b'-' ∷ format_uint (suc n)

-- `strconv.Atoi` on a 64-bit `int`.
unfoldable pub in_int : Option ℤ → Option ℤ
in_int none = none
in_int (some (pos n)) = if ltb n (2 ^ 63) then some (pos n) else none
in_int (some (negsuc n)) = if ltb n (2 ^ 63) then some (negsuc n) else none

unfoldable pub atoi : Bytes → Option ℤ
atoi s = in_int (set_string 10 s)

-- `strconv.ParseUint(s, 10, 64)`: no sign.
unfoldable pub in_uint64 : Option ℕ → Option ℕ
in_uint64 none = none
in_uint64 (some n) = if ltb n (2 ^ 64) then some n else none

unfoldable pub parse_uint : Bytes → Option ℕ
parse_uint s = in_uint64 (scan_number 10 s)
