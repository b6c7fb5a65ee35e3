-- ===== src/Scale/Xxhash.antt =====
-- `api/scale/xxhash/xxhash.go`. A state of the library's hash is the text that was written to it,
-- and its sum over a seed and a text is an argument.
pub mod Reversal
use polkadot_worker.Base.{
  ℕ, zero, suc, ◌+◌, ◌-◌, List, [], ◌∷◌, ◌++◌, Option, none, some, Bytes, length, get_elem?, set,
  ltb, if◌then◌else◌,
}

pub record Digest : Type 0 where
  pub xxhash : Bytes  -- seed 0
  pub xxhash2 : Bytes  -- seed 1

abbrev pub new64x2 : Digest
new64x2 = record { xxhash = []; xxhash2 = [] }

abbrev pub reset : Digest → Digest
reset d = record { xxhash = []; xxhash2 = [] }

unfoldable pub write : Bytes → Digest → Digest
write p d = record { xxhash = d.xxhash ++ p; xxhash2 = d.xxhash2 ++ p }

-- `s[i], s[j] = s[j], s[i]`; the loop below keeps both in bounds.
abbrev pub swapped : ℕ → ℕ → Option ℕ → Option ℕ → Bytes → Bytes
swapped i j (some a) (some b) s = set (set s i b) j a
swapped i j none b s = s
swapped i j (some a) none s = s

abbrev pub swap : ℕ → ℕ → Bytes → Bytes
swap i j s = swapped i j (get_elem? s i) (get_elem? s j) s

-- The loop, one swap for a unit of fuel.
unfoldable pub reverse_loop : ℕ → ℕ → ℕ → Bytes → Bytes
reverse_loop zero i j s = s
reverse_loop (suc fuel) i j s =
    let more = reverse_loop fuel (i + 1) (j - 1) (swap i j s) in if ltb i j then more else s

-- For the empty text `j` begins at -1 in the source and at 0 here, and the loop ends at once in both.
unfoldable pub reverse_bytes : Bytes → Bytes
reverse_bytes s = reverse_loop (length s) 0 (length s - 1) s

-- `Sum(nil)`, the one way in which it is called.
unfoldable pub sum : (ℕ → Bytes → Bytes) → Digest → Bytes
sum hash64 d = reverse_bytes (hash64 0 d.xxhash) ++ reverse_bytes (hash64 1 d.xxhash2)
