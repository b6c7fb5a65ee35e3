-- ===== src/Mapper/Event/Values.antt =====
-- The names of parameters that `getValues` of `mapper/event_mapper.go` reads from a description.
use polkadot_worker.Base.{
  ℕ, suc, ◌+◌, ◌-◌, ◌≡◌, ◌≢◌, refl, ap, true, false, List, [], ◌∷◌, ◌++◌, some, Bytes, length,
  length-append, take, map, All, All-map, All-append, arith, ltb,
}
use polkadot_worker.Stdlib.Strings.{
  split, is_space, trim_left, trim_right, trim_space, backslash, is_class, match_list, desc_find,
}
use polkadot_worker.Stdlib.Strings.Cutting.{Lacks, split_one, split_first}
use polkadot_worker.Mapper.Event.{cut_description, get_values}

-- A letter of a parameter's name: what the regular expression allows but for comma and space.
abbrev pub IsNameByte : ℕ → Type 0
IsNameByte c = (is_class c ≡ true) × (c ≢ b',') × (c ≢ 32)

-- A name is one such letter or more.
abbrev pub IsName : Bytes → Type 0
IsName s = All IsNameByte s × (s ≢ [])

-- The names as the documentation of the pallets lists them, `a, b, c`.
unfoldable pub listed : Bytes → List Bytes → Bytes
listed n [] = n
listed n (m ∷ ms) = n ++ b',' ∷ 32 ∷ listed m ms

name_byte-space : (c : ℕ) → IsNameByte c → is_space c ≡ false
name_byte-space c h = ground arith

trim_right_name : (s : Bytes) → All IsNameByte s → trim_right s ≡ s
unfolding trim_right
trim_right_name [] h = refl
trim_right_name (c ∷ s) (p, h) = rw (name_byte-space c p, trim_right_name s h)

trim_left_name : (s : Bytes) → All IsNameByte s → trim_left s ≡ s
unfolding trim_left
trim_left_name [] h = refl
trim_left_name (c ∷ s) (p, h) = rw (name_byte-space c p)

trim_space_name : (s : Bytes) → All IsNameByte s → trim_space s ≡ s
unfolding trim_space
trim_space_name s h = rw (trim_right_name s h) (trim_left_name s h)

-- The blank behind a comma goes.
trim_space_blank : (s : Bytes) → All IsNameByte s → s ≢ [] → trim_space (32 ∷ s) ≡ s
unfolding trim_space trim_right
trim_space_blank [] h n = absurd (n refl)
trim_space_blank (c ∷ s) (p, h) n =
    rw (name_byte-space c p, trim_right_name s h) (unfold trim_left in rw (name_byte-space c p))

name-Lacks : (s : Bytes) → All IsNameByte s → Lacks b',' s
name-Lacks s h = All-map IsNameByte (λ c. c ≢ b',') (λ c p. p.1) s h

listed-ne-nil : (n : Bytes) (ms : List Bytes) → n ≢ [] → listed n ms ≢ []
unfolding listed
listed-ne-nil [] ms h = absurd (h refl)
listed-ne-nil (c ∷ n) [] h = λ e. cc
listed-ne-nil (c ∷ n) (m ∷ ms) h = λ e. cc

-- Cutting the list at its commas and trimming the parts gives the names back.
split-listed_blank :
    (n : Bytes) (ms : List Bytes)
    → IsName n
    → All IsName ms
    → map trim_space (split b',' (32 ∷ listed n ms)) ≡ n ∷ ms
unfolding listed
split-listed_blank n [] h t =
    rw (split_one b',' (32 ∷ n) ((omega arith), name-Lacks n h.0)) (rw (trim_space_blank n h.0 h.1))
split-listed_blank n (m ∷ ms) h (p, t) =
    rw (split_first b',' (32 ∷ n) (32 ∷ listed m ms) ((omega arith), name-Lacks n h.0))
      (rw (trim_space_blank n h.0 h.1) (ap (◌∷◌ n) (split-listed_blank m ms p t)))

split-listed :
    (n : Bytes) (ms : List Bytes)
    → IsName n
    → All IsName ms
    → map trim_space (split b',' (listed n ms)) ≡ n ∷ ms
unfolding listed
split-listed n [] h t = rw (split_one b',' n (name-Lacks n h.0)) (rw (trim_space_name n h.0))
split-listed n (m ∷ ms) h (p, t) =
    rw (split_first b',' n (32 ∷ listed m ms) (name-Lacks n h.0))
      (rw (trim_space_name n h.0) (ap (◌∷◌ n) (split-listed_blank m ms p t)))

-- Every byte of the list is one that the regular expression allows.
abbrev IsClass : ℕ → Type 0
IsClass c = is_class c ≡ true

listed-IsClass :
    (n : Bytes) (ms : List Bytes) → IsName n → All IsName ms → All IsClass (listed n ms)
unfolding listed
listed-IsClass n [] h t = All-map IsNameByte IsClass (λ c p. p.0) n h.0
listed-IsClass n (m ∷ ms) h (p, t) =
    All-append IsClass n _ (All-map IsNameByte IsClass (λ c p. p.0) n h.0)
      (refl, (refl, listed-IsClass m ms p t))

match_list-closing :
    (s rest : Bytes)
    → All IsClass s
    → match_list (s ++ backslash ∷ b']' ∷ rest) ≡ some (s ++ backslash ∷ b']' ∷ [])
unfolding match_list
match_list-closing [] rest h = refl
match_list-closing (c ∷ s) rest (p, h) = rw (p, match_list-closing s rest h)

-- No match begins before the first backslash.
desc_find_skip : (pre s : Bytes) → Lacks backslash pre → desc_find (pre ++ s) ≡ desc_find s
unfolding desc_find
desc_find_skip [] s h = refl
desc_find_skip (c ∷ pre) s (n, h) = ground (arith, n, desc_find_skip pre s h)

-- A description's match: the list between its escaped brackets.
abbrev pub bracketed : Bytes → Bytes → Bytes
bracketed s rest = backslash ∷ b'[' ∷ (s ++ backslash ∷ b']' ∷ rest)

desc_find-bracketed :
    (s rest : Bytes) → All IsClass s → desc_find (bracketed s rest) ≡ bracketed s []
unfolding desc_find
desc_find-bracketed s rest h = rw (desc_find, match_list-closing s rest h)

take_prefix : (s t : Bytes) → take (length s) (s ++ t) ≡ s
take_prefix [] t = refl
take_prefix (c ∷ s) t = ap (◌∷◌ c) (take_prefix s t)

cut_description-bracketed :
    (s : Bytes) → s ≢ [] → cut_description (bracketed s []) ≡ map trim_space (split b',' s)
cut_description-bracketed [] h = absurd (h refl)
cut_description-bracketed (c ∷ s) h =
    let tail = s ++ backslash ∷ b']' ∷ [] in
    let n : length tail ≡ length s + 2 = length-append s (backslash ∷ b']' ∷ []) in
    let enough : ltb (suc (suc (suc (length tail)))) 5 ≡ false = ground (arith, n) in
    let e : suc (suc (suc (length tail))) - 2 ≡ suc (suc (suc (length s))) = omega (arith, n) in
    rw (enough, e, take_prefix s (backslash ∷ b']' ∷ [])) refl

-- Names listed in escaped brackets, behind a text without backslash and before any text, are read
-- back from the description, one by one and in order.
pub get_values-listed :
    (pre n : Bytes) (ms : List Bytes) (rest : Bytes)
    → Lacks backslash pre
    → IsName n
    → All IsName ms
    → get_values (pre ++ bracketed (listed n ms) rest) ≡ n ∷ ms
unfolding get_values
get_values-listed pre n ms rest h p t =
    let s = listed n ms in
    rw (desc_find_skip pre (bracketed s rest) h) (
      rw (desc_find-bracketed s rest (listed-IsClass n ms p t))
        (rw (cut_description-bracketed s (listed-ne-nil n ms p.1)) (split-listed n ms p t)))
