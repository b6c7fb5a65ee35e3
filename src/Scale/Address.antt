-- ===== src/Scale/Address.antt =====
-- `api/scale/address/address.go` and `api/scale/blake128/blake128.go`, over what the library's hash
-- returns.
pub mod Keys
use Prim.Native.Nat.{bit_and, bit_or}
use polkadot_worker.Base.{
  ℕ, ◌+◌, ◌-◌, ◌*◌, ◌/◌, ◌%◌, ◌^◌, ◌≡◌, Bool, List, [], ◌∷◌, ◌++◌, Option, none, some, Bytes, codes,
  ltb, leb, ◌==◌, ◌||◌, ◌&&◌, if◌then◌else◌, length, get_elem?, take, drop, Outcome, ok, err, panic,
  block, ◌>>=◌, or_panic,
}
use polkadot_worker.Base.Int.{sub_uint64}

pub record Checked : Type 0 where
  pub end_pos : ℕ
  pub ss58_length : ℕ
  pub ss58_decoded : ℕ

-- The prefix of two bytes; a byte shifted to the left by eight is zero.
unfoldable pub two_bytes : ℕ → ℕ → ℕ
two_bytes a b =
    bit_or (bit_or (bit_and a 63 * 2 ^ 2 % 256) (b / 2 ^ 6)) (bit_and b 63 * 2 ^ 8 % 256)

unfoldable pub prefix_length : ℕ → ℕ
prefix_length a = if bit_and a 64 == 0 then 1 else 2

unfoldable pub end_of : ℕ → ℕ → ℕ
end_of n p = if p == sub_uint64 n 34 || p == sub_uint64 n 35 then sub_uint64 n 2 else sub_uint64 n 1

-- `decoded[1]` is read for a prefix of two bytes only.
unfoldable pub decoded_prefix : ℕ → ℕ → Bytes → Outcome (Unit {0}) ℕ
decoded_prefix a p decoded =
    if p == 2 then (do b ← or_panic (get_elem? decoded 1); ok (two_bytes a b)) else ok a

unfoldable pub check_address : Bytes → Outcome (Unit {0}) Checked
check_address decoded = do
  a ← or_panic (get_elem? decoded 0)
  ss ← decoded_prefix a (prefix_length a) decoded
  ok (record {
    end_pos = end_of (length decoded) (prefix_length a);
    ss58_length = prefix_length a;
    ss58_decoded = ss;
  })

-- `s[lo:hi]`; the capacity of a decoded text is its length.
abbrev pub slice : ℕ → ℕ → Bytes → Option Bytes
slice lo hi s = if leb lo hi && leb hi (length s) then some (take (hi - lo) (drop lo s)) else none

unfoldable pub address_bytes : Bytes → Outcome (Unit {0}) Bytes
address_bytes decoded = do
  c ← check_address decoded
  or_panic (slice c.ss58_length c.end_pos decoded)

-- `ToBlakeSum`, over what `blake2b.New(16, nil)` and `Write` return and what `Sum` reads off a state.
unfoldable pub to_blake_sum :
    {H E : Type 0} → Option E → (Bytes → H × Option E) → (H → Bytes) → Bytes → Bytes × Option E
to_blake_sum (some e) write sum address = ([], some e)
to_blake_sum none write sum address = let (h, e) = write address in (sum h, e)
