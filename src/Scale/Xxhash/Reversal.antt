-- ===== src/Scale/Xxhash/Reversal.antt =====
-- The loop of `reverse` in `api/scale/xxhash/xxhash.go` against the reversal of lists.
use mathlib.Core.List
use polkadot_worker.Base.{
  ℕ, zero, suc, ◌+◌, ◌-◌, ◌≤◌, ◌<◌, ◌≡◌, ◌≢◌, refl, sym, ◌∙◌, subst, true, false, [], ◌∷◌, ◌++◌,
  some, Bytes, length, length-append, length-set, get_elem?, get_elem?-set_self, get_elem?-set_ne,
  get_elem?-append, get_elem?_last, get_elem?-some, set, ltb, leb, ◌==◌, ◌&&◌, if◌then◌else◌, arith,
  Bool-cases, inl, inr,
}
use polkadot_worker.Scale.Xxhash.{swap, reverse_loop, reverse_bytes}

-- Two lists of one length with the same elements at each place.
list_ext :
    (s t : Bytes)
    → length s ≡ length t
    → ((k : ℕ) → k < length s → get_elem? s k ≡ get_elem? t k)
    → s ≡ t
list_ext [] [] e h = refl
list_ext [] (y ∷ t) e h = absurd (omega arith)
list_ext (x ∷ s) [] e h = absurd (omega arith)
list_ext (x ∷ s) (y ∷ t) e h =
    let a : x ≡ y = ground (arith, h 0 (omega arith)) in
    let b : s ≡ t = list_ext s t (omega arith) (λ k l. h (suc k) (omega arith)) in rw (a, b) refl

length-reverse : (s : Bytes) → length (List.reverse s) ≡ length s
length-reverse [] = refl
length-reverse (x ∷ s) =
    rw (List.reverse-append (x ∷ []) s)
      (omega (arith, length-reverse s, length-append (List.reverse s) (x ∷ [])))

get_elem?-append_right : (s t : Bytes) (k : ℕ) → get_elem? (s ++ t) (length s + k) ≡ get_elem? t k
get_elem?-append_right [] t k = let e : 0 + k ≡ k = omega arith in rw e refl
get_elem?-append_right (x ∷ s) t k =
    let e : suc (length s) + k ≡ suc (length s + k) = omega arith in
    rw e (get_elem?-append_right s t k)

-- The `k`-th element of a reversal, from the other end.
get_elem?-reverse :
    (s : Bytes) (k m : ℕ) → k + m + 1 ≡ length s → get_elem? (List.reverse s) k ≡ get_elem? s m
get_elem?-reverse [] k m e = absurd (omega arith)
get_elem?-reverse (x ∷ s) k zero e =
    let n : k ≡ length (List.reverse s) = omega (arith, length-reverse s) in
    rw (List.reverse-append (x ∷ []) s, n) (get_elem?_last (List.reverse s) x)
get_elem?-reverse (x ∷ s) k (suc m) e = rw (List.reverse-append (x ∷ []) s) (
    get_elem?-append (List.reverse s) (x ∷ []) k (omega (arith, length-reverse s))
    ∙ get_elem?-reverse s k m (omega arith))

get_elem?-swapped :
    (t : Bytes) (i j k a b : ℕ)
    → get_elem? t i ≡ some a
    → get_elem? t j ≡ some b
    → i < length t
    → j < length t
    → i ≢ j
    → get_elem? (set (set t i b) j a) k
      ≡ (if k == i then some b else if k == j then some a else get_elem? t k)
get_elem?-swapped t i j k a b p q li lj n = elim (Bool-cases (k == j)) [
  | inl e ↦
      let e' : j ≡ k = ground (arith, e) in
      let d : (k == i) ≡ false = ground (arith, e) in
      rw (d, e)
        (subst (λ x. get_elem? (set (set t i b) j a) x ≡ some a) e'
          (get_elem?-set_self (set t i b) j a (omega (arith, length-set t i b))))
  | inr e ↦
      let e' : j ≢ k = ground (arith, e) in
      rw (e, get_elem?-set_ne (set t i b) j k a e')
        (elim (Bool-cases (k == i)) [
          | inl d ↦
              let d' : i ≡ k = ground (arith, d) in
              rw d (subst (λ x. get_elem? (set t i b) x ≡ some b) d' (get_elem?-set_self t i b li))
          | inr d ↦ rw d (get_elem?-set_ne t i k b (ground (arith, d)))
        ])
]

get_elem?-swap :
    (t : Bytes) (i j k : ℕ)
    → i < length t
    → j < length t
    → i ≢ j
    → get_elem? (swap i j t) k
      ≡ (if k == i then get_elem? t j else if k == j then get_elem? t i else get_elem? t k)
get_elem?-swap t i j k li lj n =
    let (a, p) = get_elem?-some t i li in
    let (b, q) = get_elem?-some t j lj in rw (p, q) (get_elem?-swapped t i j k a b p q li lj n)

length-swap : (t : Bytes) (i j : ℕ) → i < length t → j < length t → length (swap i j t) ≡ length t
length-swap t i j li lj =
    let (a, p) = get_elem?-some t i li in
    let (b, q) = get_elem?-some t j lj in rw (p, q) (length-set (set t i b) j a ∙ length-set t i b)

-- Where the two places have met nothing is left to turn round.
turned_all :
    (t : Bytes) (i j k m : ℕ)
    → j ≤ i
    → i + j ≡ k + m
    → get_elem? t k ≡ (if leb i k && leb k j then get_elem? t m else get_elem? t k)
turned_all t i j k m l e = elim (Bool-cases (leb i k && leb k j)) [
  | inl b ↦ let d : m ≡ k = ground (arith, b) in rw (b, d) refl
  | inr b ↦ rw b refl
]

-- One swap, and the rest between its places.
turned_step :
    (t : Bytes) (i j k m : ℕ)
    → i < j
    → j < length t
    → i + j ≡ k + m
    → (if leb (i + 1) k && leb k (j - 1)
        then get_elem? (swap i j t) m
        else get_elem? (swap i j t) k)
      ≡ (if leb i k && leb k j then get_elem? t m else get_elem? t k)
turned_step t i j k m l n e =
    rw
      (
        get_elem?-swap t i j k (omega arith) n (omega arith),
        get_elem?-swap t i j m (omega arith) n (omega arith),
      )
      (elim (Bool-cases (k == i)) [
        | inl a ↦
            let d : m ≡ j = ground (arith, a) in
            let d' : k ≡ i = ground (arith, a) in rw (d, d') (ground arith)
        | inr a ↦ elim (Bool-cases (k == j)) [
          | inl b ↦
              let d : m ≡ i = ground (arith, b) in
              let d' : k ≡ j = ground (arith, b) in rw (d, d') (ground arith)
          | inr b ↦ ground (arith, a, b)
        ]
      ])

-- The loop turns round what lies from `i` to `j`, places as far from the two ends of the text.
reverse_loop_lem :
    (fuel i j : ℕ) (t : Bytes) (k m : ℕ)
    → i + j + 1 ≡ length t
    → j ≤ i + fuel
    → k + m + 1 ≡ length t
    → get_elem? (reverse_loop fuel i j t) k
      ≡ (if leb i k && leb k j then get_elem? t m else get_elem? t k)
unfolding reverse_loop
reverse_loop_lem zero i j t k m e f g = turned_all t i j k m (omega arith) (omega arith)
reverse_loop_lem (suc fuel) i j t k m e f g = elim (Bool-cases (ltb i j)) [
  | inl h ↦
      let l : i < j = ground (arith, h) in
      let n = length-swap t i j (omega arith) (omega arith) in
      rw h (
        reverse_loop_lem fuel (i + 1) (j - 1) (swap i j t) k m (omega (arith, n)) (omega arith)
          (omega (arith, n))
        ∙ turned_step t i j k m l (omega arith) (omega arith))
  | inr h ↦ rw h (turned_all t i j k m (ground (arith, h)) (omega arith))
]

length-reverse_loop :
    (fuel i j : ℕ) (t : Bytes) → i + j + 1 ≡ length t → length (reverse_loop fuel i j t) ≡ length t
unfolding reverse_loop
length-reverse_loop zero i j t e = refl
length-reverse_loop (suc fuel) i j t e = elim (Bool-cases (ltb i j)) [
  | inl h ↦
      let l : i < j = ground (arith, h) in
      let n = length-swap t i j (omega arith) (omega arith) in
      rw h (length-reverse_loop fuel (i + 1) (j - 1) (swap i j t) (omega (arith, n)) ∙ n)
  | inr h ↦ rw h refl
]

-- The loop that swaps from both ends is the reversal of the list, for every text.
pub reverse_bytes-reverse : (s : Bytes) → reverse_bytes s ≡ List.reverse s
unfolding reverse_bytes reverse_loop
reverse_bytes-reverse [] = refl
reverse_bytes-reverse (x ∷ r) =
    let s = x ∷ r in
    let ends : 0 + (length s - 1) + 1 ≡ length s = omega arith in
    let n = length-reverse_loop (length s) 0 (length s - 1) s ends in
    list_ext (reverse_loop (length s) 0 (length s - 1) s) (List.reverse s)
      (n ∙ sym (length-reverse s))
      (λ k l.
        let m = length s - 1 - k in
        let g : k + m + 1 ≡ length s = omega (arith, n) in
        let b : (leb 0 k && leb k (length s - 1)) ≡ true = ground (arith, g) in
        reverse_loop_lem (length s) 0 (length s - 1) s k m ends (omega arith) g
        ∙ rw b (sym (get_elem?-reverse s k m g)))
