-- ===== src/Scale/Address/Keys.antt =====
-- Which bytes of a decoded address `CheckAddress` of `api/scale/address/address.go` points at.
use Prim.Native.Nat.{bit_and}
use polkadot_worker.Base.{
  ℕ, suc, ◌+◌, ◌-◌, ◌^◌, ◌≤◌, ◌<◌, ◌≡◌, ◌≢◌, ◌⊎◌, refl, ap, ◌∙◌, true, false, [], ◌∷◌, ◌++◌, some,
  Bytes, length, length-append, take, drop, leb, ◌==◌, ◌||◌, ◌&&◌, if◌then◌else◌, ok, ◌>>=◌, arith,
  Bool-cases, inl, inr,
}
use polkadot_worker.Base.Int.{sub_uint64}
use polkadot_worker.Scale.Address.{
  Checked, two_bytes, prefix_length, end_of, decoded_prefix, check_address, slice, address_bytes,
}

take-length : (s t : Bytes) → take (length s) (s ++ t) ≡ s
take-length [] t = refl
take-length (c ∷ s) t = ap (◌∷◌ c) (take-length s t)

-- The end of the address in a text of `n` bytes behind a prefix of `p`.
end_of_lem :
    (n p : ℕ)
    → 2 ≤ n
    → n < 2 ^ 64
    → p ≤ 2
    → end_of n p ≡ (if n == p + 34 || n == p + 35 then n - 2 else n - 1)
unfolding end_of sub_uint64
end_of_lem n p h l k = elim (Bool-cases (leb 35 n)) [
  | inl b ↦ ground (arith, b)
  | inr b ↦ ground (arith, b)
]

-- The prefix of an address: one byte, or two if the first has its bit 6 set.
pub data Prefix : Bytes → Type 0 where
  one_byte : (a : ℕ) → bit_and a 64 ≡ 0 → Prefix (a ∷ [])
  both_bytes : (a b : ℕ) → bit_and a 64 ≢ 0 → Prefix (a ∷ b ∷ [])

-- The lengths of a key and of the checksum behind it: public keys of 32 and of 33 bytes carry two
-- bytes, all else one.
abbrev pub Fits : ℕ → ℕ → Type 0
Fits key sum = ((sum ≡ 2) × ((key ≡ 32) ⊎ (key ≡ 33))) ⊎ ((sum ≡ 1) × (key ≢ 33) × (key ≢ 34))

end_of-Fits :
    (p key sum : ℕ)
    → 1 ≤ p
    → p ≤ 2
    → p + (key + sum) < 2 ^ 64
    → Fits key sum
    → end_of (p + (key + sum)) p ≡ p + key
end_of-Fits p key sum l h b (inl (e, k)) =
    rw (end_of_lem (p + (key + sum)) p (omega arith) b h) (ground arith)
end_of-Fits p key sum l h b (inr (e, k, m)) =
    rw (end_of_lem (p + (key + sum)) p (omega arith) b h) (ground arith)

drop-length : (s t : Bytes) → drop (length s) (s ++ t) ≡ t
drop-length [] t = refl
drop-length (c ∷ s) t = drop-length s t

slice_middle :
    (pre key sum : Bytes)
    → slice (length pre) (length pre + length key) (pre ++ (key ++ sum)) ≡ some key
slice_middle pre key sum =
    let n : length (pre ++ (key ++ sum)) ≡ length pre + (length key + length sum) =
      omega (arith, length-append pre (key ++ sum), length-append key sum) in
    let w : length pre + length key - length pre ≡ length key = omega arith in
    let g : (leb (length pre) (length pre + length key)
          && leb (length pre + length key) (length pre + (length key + length sum)))
        ≡ true =
      ground arith in
    rw (n, w, drop-length pre (key ++ sum), g) (ap some (take-length key sum))

check_address_lem :
    (pre rest : Bytes)
    → Prefix pre
    → (c : Checked) × (check_address (pre ++ rest) ≡ ok c)
      × (c.end_pos ≡ end_of (length pre + length rest) (length pre))
      × (c.ss58_length ≡ length pre)
unfolding check_address prefix_length decoded_prefix
check_address_lem pre rest (one_byte a e) =
    let n : suc (length rest) ≡ 1 + length rest = omega arith in
    (
      record { end_pos = end_of (1 + length rest) 1; ss58_length = 1; ss58_decoded = a },
      rw (e, n) refl,
      refl,
      refl,
    )
check_address_lem pre rest (both_bytes a b e) =
    let n : suc (suc (length rest)) ≡ 2 + length rest = omega arith in
    let f : (bit_and a 64 == 0) ≡ false = ground (arith, e) in
    (
      record {
        end_pos = end_of (2 + length rest) 2;
        ss58_length = 2;
        ss58_decoded = two_bytes a b;
      },
      rw (f, n) refl,
      refl,
      refl,
    )

Prefix-length : (pre : Bytes) → Prefix pre → (1 ≤ length pre) × (length pre ≤ 2)
Prefix-length pre (one_byte a e) = omega arith
Prefix-length pre (both_bytes a b e) = omega arith

-- From a decoded address of fewer than 2^64 bytes, a prefix, a key and a checksum, the key is cut
-- out, without a panic: a key of 32 or 33 bytes before a checksum of two, and a key of any length
-- but 33 and 34 before a checksum of one.
pub address_bytes_lem :
    (pre key sum : Bytes)
    → Prefix pre
    → length pre + (length key + length sum) < 2 ^ 64
    → Fits (length key) (length sum)
    → address_bytes (pre ++ (key ++ sum)) ≡ ok key
unfolding address_bytes
address_bytes_lem pre key sum p b f =
    let (c, e, ends, len) = check_address_lem pre (key ++ sum) p in
    let (lo, hi) = Prefix-length pre p in
    let ends' =
      ends
      ∙ (ap (λ n. end_of (length pre + n) (length pre)) (length-append key sum)
          ∙ end_of-Fits (length pre) (length key) (length sum) lo hi b f) in
    rw (e, ◌>>=◌) (rw (len, ends', slice_middle pre key sum) refl)
