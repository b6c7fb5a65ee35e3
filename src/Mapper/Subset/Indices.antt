-- ===== src/Mapper/Subset/Indices.antt =====
-- The indices that `isEventUnique` of `mapper/event_mapper.go` has seen, and the identifiers made of them.
use polkadot_worker.Base.{
  ℕ, ◌≡◌, ◌≢◌, ◌⊎◌, refl, sym, ap, ◌∙◌, subst, inl, inr, true, false, Bool-cases, List, [], ◌∷◌,
  ◌++◌, map, some, Bytes, format_uint, All, Distinct, arith,
}
use polkadot_worker.Base.Int.{ℤ, pos, negsuc}
use polkadot_worker.Stdlib.Numbers.{set_string, format_int}
use polkadot_worker.Stdlib.Numbers.RoundTrip.{set_string-format_int}
use polkadot_worker.Mapper.Proto.{same_int}
use polkadot_worker.Mapper.Subset.{event_id, member_int}

same_int_refl : (i : ℤ) → same_int i i ≡ true
same_int_refl (pos n) = ground arith
same_int_refl (negsuc n) = ground arith

same_int→eq : (i j : ℤ) → same_int i j ≡ true → i ≡ j
same_int→eq (pos m) (pos n) h = ap pos (ground (arith, h))
same_int→eq (negsuc m) (negsuc n) h = ap negsuc (ground (arith, h))
same_int→eq (pos m) (negsuc n) h = cc
same_int→eq (negsuc m) (pos n) h = cc

some_inj : {A : Type 0} {x y : A} → some x ≡ some y → x ≡ y
some_inj e = cc

-- The print of an integer is that of no other.
format_int_inj : (i j : ℤ) → format_int i ≡ format_int j → i ≡ j
format_int_inj i j e =
    some_inj (sym (set_string-format_int i) ∙ (ap (set_string 10) e ∙ set_string-format_int j))

append_inj : (s t u : Bytes) → s ++ t ≡ s ++ u → t ≡ u
append_inj [] t u e = e
append_inj (c ∷ s) t u e = append_inj s t u cc

pub event_id_inj : (height : ℕ) (i j : ℤ) → event_id height i ≡ event_id height j → i ≡ j
event_id_inj height i j e =
    let p : b'-' ∷ format_int i ≡ b'-' ∷ format_int j = append_inj (format_uint height) _ _ e in
    format_int_inj i j cc

All_ne-map :
    (f : ℤ → Bytes) (i : ℤ) (js : List ℤ)
    → ((a b : ℤ) → f a ≡ f b → a ≡ b)
    → All (λ j. j ≢ i) js
    → All (λ s. s ≢ f i) (map f js)
All_ne-map f i [] inj h = tt
All_ne-map f i (j ∷ js) inj (n, h) = ((λ e. n (inj j i e)), All_ne-map f i js inj h)

pub Distinct-map :
    (f : ℤ → Bytes) (is : List ℤ)
    → ((a b : ℤ) → f a ≡ f b → a ≡ b)
    → Distinct is
    → Distinct (map f is)
Distinct-map f [] inj h = tt
Distinct-map f (i ∷ is) inj (n, h) = (All_ne-map f i is inj n, Distinct-map f is inj h)

pub member_int-cons :
    (i j : ℤ) (seen : List ℤ)
    → member_int i (j ∷ seen) ≡ true
    → (i ≡ j) ⊎ (member_int i seen ≡ true)
member_int-cons i j seen h = elim (Bool-cases (same_int i j)) [
  | inl e ↦ inl (same_int→eq i j e)
  | inr e ↦ inr (ground (arith, e, h))
]

pub member_int_here : (i j : ℤ) (seen : List ℤ) → i ≡ j → member_int i (j ∷ seen) ≡ true
member_int_here i j seen e =
    subst (λ k. member_int i (k ∷ seen) ≡ true) e (rw (same_int_refl i) refl)

pub member_int_there :
    (i j : ℤ) (seen : List ℤ) → member_int i seen ≡ true → member_int i (j ∷ seen) ≡ true
member_int_there i j seen e = ground (arith, e)

pub member_int_ne : (i j : ℤ) (seen : List ℤ) → member_int i (j ∷ seen) ≡ false → i ≢ j
member_int_ne i j seen h e = ground (arith, h, subst (λ k. same_int i k ≡ true) e (same_int_refl i))

pub member_int_tail :
    (i j : ℤ) (seen : List ℤ) → member_int i (j ∷ seen) ≡ false → member_int i seen ≡ false
member_int_tail i j seen h = ground (arith, h)
