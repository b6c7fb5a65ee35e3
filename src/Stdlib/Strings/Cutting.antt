-- ===== src/Stdlib/Strings/Cutting.antt =====
-- What the cuts of texts give back.
use polkadot_worker.Base.{
  Bool, true, false, if◌then◌else◌, ◌==◌, ==_iff, ap, ◌∙◌, ℕ, List, ◌≡◌, ◌≢◌, refl, [], ◌∷◌, ◌++◌,
  Bytes, All, arith,
}
use polkadot_worker.Stdlib.Strings.{split, join, cons_head}

abbrev pub Lacks : ℕ → Bytes → Type 0
Lacks b = All (λ c. c ≢ b)

-- A text without the separator is one part.
pub split_one : (sep : ℕ) (s : Bytes) → Lacks sep s → split sep s ≡ s ∷ []
unfolding split
split_one sep [] h = refl
split_one sep (c ∷ s) (n, h) = ground (arith, n, split_one sep s h)

-- The first part ends at the first separator.
pub split_first :
    (sep : ℕ) (s rest : Bytes) → Lacks sep s → split sep (s ++ sep ∷ rest) ≡ s ∷ split sep rest
unfolding split
split_first sep [] rest h = ground arith
split_first sep (c ∷ s) rest (n, h) = ground (arith, n, split_first sep s rest h)

cut-cons :
    (b : Bool) (c : ℕ) (parts : List Bytes)
    → (p : Bytes) × (ps : List Bytes) × ((if b then [] ∷ parts else cons_head c parts) ≡ p ∷ ps)
cut-cons true c parts = ([], parts, refl)
cut-cons false c [] = (c ∷ [], [], refl)
cut-cons false c (p ∷ ps) = (c ∷ p, ps, refl)

-- There is a part always, also of the empty text.
pub split-cons : (sep : ℕ) (s : Bytes) → (p : Bytes) × (ps : List Bytes) × (split sep s ≡ p ∷ ps)
unfolding split
split-cons sep [] = ([], [], refl)
split-cons sep (c ∷ s) = cut-cons (c == sep) c (split sep s)

join-cons_head :
    (sep c : ℕ) (p : Bytes) (ps : List Bytes)
    → join sep (cons_head c (p ∷ ps)) ≡ c ∷ join sep (p ∷ ps)
unfolding join
join-cons_head sep c p [] = refl
join-cons_head sep c p (q ∷ ps) = refl

join-cut :
    (b : Bool) (sep c : ℕ) (parts : List Bytes) {p : Bytes} {ps : List Bytes}
    → parts ≡ p ∷ ps
    → (b ≡ true → c ≡ sep)
    → join sep (if b then [] ∷ parts else cons_head c parts) ≡ c ∷ join sep parts
unfolding join
join-cut true sep c parts e f = rw (e, f refl) refl
join-cut false sep c parts e f = rw e (join-cons_head sep c _ _)

-- The parts joined again are the text.
pub join-split : (sep : ℕ) (s : Bytes) → join sep (split sep s) ≡ s
unfolding join split
join-split sep [] = refl
join-split sep (c ∷ s) =
    let (p, ps, e) = split-cons sep s in
    join-cut (c == sep) sep c (split sep s) e ((==_iff c sep).0) ∙ ap (◌∷◌ c) (join-split sep s)
