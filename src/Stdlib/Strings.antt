-- ===== src/Stdlib/Strings.antt =====
-- `strings` and `regexp`: cutting texts up.
pub mod Cutting
use polkadot_worker.Base.{
  ℕ, zero, suc, ◌+◌, ◌-◌, ◌≡◌, Bool, true, false, ◌&&◌, ◌||◌, List, [], ◌∷◌, ◌++◌, Option, none,
  some, Bytes, ltb, leb, ◌==◌, if◌then◌else◌, map, is_empty, length, take, drop,
}

abbrev pub cons_head : ℕ → List Bytes → List Bytes
cons_head c [] = (c ∷ []) ∷ []
cons_head c (p ∷ ps) = (c ∷ p) ∷ ps

-- `strings.Split(s, sep)` for a separator of one byte.
unfoldable pub split : ℕ → Bytes → List Bytes
split sep [] = [] ∷ []
split sep (c ∷ s) = let rest = split sep s in if c == sep then [] ∷ rest else cons_head c rest

-- `strings.Join(parts, sep)` for a separator of one byte.
unfoldable pub join : ℕ → List Bytes → Bytes
join sep [] = []
join sep (p ∷ []) = p
join sep (p ∷ q ∷ ps) = p ++ sep ∷ join sep (q ∷ ps)

abbrev pub is_space : ℕ → Bool
is_space c = c == 32 || (leb 9 c && leb c 13)

unfoldable pub trim_left : Bytes → Bytes
trim_left [] = []
trim_left (c ∷ s) = let rest = trim_left s in if is_space c then rest else c ∷ s

unfoldable pub trim_right : Bytes → Bytes
trim_right [] = []
trim_right (c ∷ s) = let rest = trim_right s in if is_space c && is_empty rest then [] else c ∷ rest

-- `strings.TrimSpace`
unfoldable pub trim_space : Bytes → Bytes
trim_space s = trim_left (trim_right s)

unfoldable pub strip_prefix : Bytes → Bytes → Option Bytes
strip_prefix [] s = some s
strip_prefix (p ∷ ps) [] = none
strip_prefix (p ∷ ps) (c ∷ s) = let rest = strip_prefix ps s in if p == c then rest else none

-- `strings.Replace(s, old, "", 1)` for a text that is not empty.
unfoldable pub remove_first : Bytes → Bytes → Bytes
remove_first old [] = []
remove_first old (c ∷ s) =
    let rest = c ∷ remove_first old s in
    elim (strip_prefix old (c ∷ s)) [ some after ↦ after | none ↦ rest ]

-- `strings.Replace(s, "0x", "", -1)`
unfoldable pub remove_hex_prefix : Bytes → Bytes
remove_hex_prefix [] = []
remove_hex_prefix (a ∷ []) = a ∷ []
remove_hex_prefix (a ∷ b ∷ s) =
    let cut = remove_hex_prefix s in
    let kept = a ∷ remove_hex_prefix (b ∷ s) in if a == b'0' && (b == b'x') then cut else kept

abbrev pub backslash : ℕ
backslash = 92

abbrev pub is_class : ℕ → Bool
is_class c = (leb b'a' c && leb c b'z') || (c == b'_' || (c == b',' || c == 32))

abbrev pub cons_match : ℕ → Option Bytes → Option Bytes
cons_match c none = none
cons_match c (some m) = some (c ∷ m)

abbrev pub close_match : Bytes → Option Bytes
close_match (b ∷ s) = if b == b']' then some (backslash ∷ b']' ∷ []) else none
close_match [] = none

-- `[a-z_, ]*\\\]` at the front of a text: the class has no backslash, so the match is unique.
unfoldable pub match_list : Bytes → Option Bytes
match_list [] = none
match_list (c ∷ s) =
    let more = match_list s in
    if is_class c then cons_match c more else if c == backslash then close_match s else none

abbrev pub open_match : Bytes → Option Bytes
open_match [] = none
open_match (b ∷ s) = if b == b'[' then cons_match b'[' (match_list s) else none

-- `descRegexp.Find`: the leftmost match of `\\\[[a-z_, ]*\\\]`, the empty text if there is none.
unfoldable pub desc_find : Bytes → Bytes
desc_find [] = []
desc_find (c ∷ s) =
    let rest = desc_find s in
    elim (if c == backslash then cons_match backslash (open_match s) else none) [
      | some m ↦ m
      | none ↦ rest
    ]

unfoldable pub all_digits : Bytes → Bool
all_digits [] = true
all_digits (c ∷ s) = leb b'0' c && leb c b'9' && all_digits s

-- `numRegexp.MatchString`: `^[0-9]+$`
unfoldable pub is_number : Bytes → Bool
is_number [] = false
is_number (c ∷ s) = all_digits (c ∷ s)
