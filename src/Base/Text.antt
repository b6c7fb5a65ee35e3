-- ===== src/Base/Text.antt =====
-- Go strings as lists of bytes: equality, slices, ASCII lower case, and the decimal print of a
-- number (`%d`, `strconv.FormatUint`).
use Prim.Native.Nat.{ℕ, zero, suc, ◌+◌, ◌-◌, ◌/◌, ◌%◌}
use Prim.Native.Char.{code}
use Prim.Native.String.{String}
use mathlib.Core.Path.{◌≡◌, refl}
use mathlib.Core.Logic.{◌↔◌}
use mathlib.Core.Bool.{Bool, true, false, ◌&&◌}
use mathlib.Core.List.{List, [], ◌∷◌, ◌++◌, map}
use mathlib.Core.Option.{Option, none, some}
use native.Mathlib.Omega.{arith}
use polkadot_worker.Base.Tests.{ltb, leb, ◌==◌, if◌then◌else◌}
use polkadot_worker.Base.Lists.{length, take, drop}

abbrev pub Bytes : Type 0
Bytes = List ℕ

-- The bytes of an ASCII literal.
abbrev pub codes : String → Bytes
codes String.[] = []
codes (String.◌∷◌ c s) = code c ∷ codes s

-- Go's `==` on strings.
abbrev pub same : Bytes → Bytes → Bool
same [] [] = true
same (x ∷ xs) (y ∷ ys) = x == y && same xs ys
same _ _ = false

pub same_refl : (s : Bytes) → same s s ≡ true
same_refl [] = refl
same_refl (x ∷ s) = ground (arith, same_refl s)

pub same→eq : (s t : Bytes) → same s t ≡ true → s ≡ t
same→eq [] [] h = refl
same→eq [] (y ∷ t) h = cc
same→eq (x ∷ s) [] h = cc
same→eq (x ∷ s) (y ∷ t) h = ground (arith, same→eq s t)

pub same_iff : (s t : Bytes) → (same s t ≡ true) ↔ (s ≡ t)
same_iff s t = (same→eq s t, λ e. rw e (same_refl t))

abbrev pub member : Bytes → List Bytes → Bool
member s [] = false
member s (t ∷ ts) = if same s t then true else member s ts

abbrev pub is_empty : Bytes → Bool
is_empty [] = true
is_empty (_ ∷ _) = false

-- `s[lo:]`
abbrev pub slice_from : ℕ → Bytes → Option Bytes
slice_from lo s = if leb lo (length s) then some (drop lo s) else none

-- `s[1 : len(s)-1]`: for a shorter text than two bytes the upper bound is below the lower one.
abbrev pub cut_quotes : Bytes → Option Bytes
cut_quotes s = if leb 2 (length s) then some (take (length s - 2) (drop 1 s)) else none

-- `strings.ToLower` on ASCII.
abbrev pub lower_byte : ℕ → ℕ
lower_byte c = if leb b'A' c && leb c b'Z' then c + 32 else c

unfoldable pub to_lower : Bytes → Bytes
to_lower = map lower_byte

-- The digits of `n`, with fuel; `n + 1` rounds are enough.
unfoldable pub digits : ℕ → ℕ → Bytes
digits zero n = []
digits (suc f) n =
    let more = digits f (n / 10) ++ (b'0' + n % 10) ∷ [] in
    if ltb n 10 then (b'0' + n) ∷ [] else more

unfoldable pub format_uint : ℕ → Bytes
unfolding digits
format_uint n = digits (suc n) n
