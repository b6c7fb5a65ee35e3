-- ===== src/Indexer/Others/Losing.antt =====
-- What `getOthers` of `indexer/getBlock.go` makes of replies that carry errors.
use polkadot_worker.Base.{
  ℕ, suc, ◌+◌, ◌%◌, ◌≤◌, ◌≡◌, refl, sym, ◌∙◌, ap, subst, false, List, [], ◌∷◌, ◌++◌, Option, none,
  some, Bytes, length, ◌==◌, Outcome, ok, err, panic, block, ◌>>=◌, >>=-eq-ok, arith, Option-cases,
  inl, inr,
}
use polkadot_worker.Api.Session.{ConnError, Response}
use polkadot_worker.Indexer.Others.{OthersError, Gathered, if_error, on_result, gather}

if_error-some :
    {A : Type 0} (o : Option ConnError) (e : ConnError) (f : ConnError → A) (x : A)
    → o ≡ some e
    → if_error o f x ≡ f e
if_error-some none e f x h = cc
if_error-some (some d) e f x h = ap f (ground (arith, h))

ok_again : {E A : Type 0} (m : Outcome E A) → (m >>= λ a. ok a) ≡ m
ok_again (ok a) = refl
ok_again (err e) = refl
ok_again panic = refl
ok_again block = refl

if_error-none :
    {A : Type 0} (o : Option ConnError) (f : ConnError → A) (x : A) → o ≡ none → if_error o f x ≡ x
if_error-none none f x h = refl
if_error-none (some d) f x h = cc

module _ {B V : Type 0} (unmarshal_block : Bytes → Option B)
    (unmarshal_version : Bytes → Option V) where
  -- The replies without an error, in turn.
  unfoldable pub reads :
      List Response
      → Gathered unmarshal_block unmarshal_version
      → Outcome OthersError (Gathered unmarshal_block unmarshal_version)
  reads [] g = ok g
  reads (r ∷ rs) g =
      let skip = reads rs g in
      let take_it = (do g' ← on_result unmarshal_block unmarshal_version r g; reads rs g') in
      if_error r.error (λ _. skip) take_it

  -- Up to the sixth reply the loop does what `reads` does.
  gather-reads :
      (i : ℕ) (rs : List Response) (tail : List Response)
      (g g' : Gathered unmarshal_block unmarshal_version)
      → i + length rs ≤ 6
      → reads rs g ≡ ok g'
      → gather unmarshal_block unmarshal_version i (rs ++ tail) g
        ≡ gather unmarshal_block unmarshal_version (i + length rs) tail g'
  unfolding gather reads
  gather-reads i [] tail g g' l h =
      let e : g ≡ g' = ground (arith, h) in let n : i + 0 ≡ i = omega arith in rw (n, e) refl
  gather-reads i (r ∷ rs) tail g g' l h =
      let n6 : (i == 6) ≡ false = ground (arith, l) in
      let n7 : (i == 7) ≡ false = ground (arith, l) in
      let w : (i + 1) % 256 ≡ i + 1 = omega arith in
      let s : i + suc (length rs) ≡ i + 1 + length rs = omega arith in
      elim (Option-cases r.error) [
        | inr (x, e) ↦
            let k = sym (if_error-some r.error x _ _ e) ∙ h in
            if_error-some r.error x _ _ e
            ∙ rw (n7, w, s) (gather-reads (i + 1) rs tail g g' (omega arith) k)
        | inl e ↦
            let k = sym (if_error-none r.error _ _ e) ∙ h in
            let (g1, e1, k1) = >>=-eq-ok (on_result unmarshal_block unmarshal_version r g) _ k in
            if_error-none r.error _ _ e
            ∙ rw (e1, ◌>>=◌, n6, w, s) (gather-reads (i + 1) rs tail g1 g' (omega arith) k1)
      ]

  -- Behind six replies that are read without a panic, whether they carry errors or not: a seventh
  -- that carries an error makes the call wait for an eighth, without end when none comes; a seventh
  -- that carries none ends the loop with what was read, and the errors before it are lost.
  pub seventh_reply :
      (rs : List Response) (r : Response) (g g' : Gathered unmarshal_block unmarshal_version)
      → length rs ≡ 6
      → reads rs g ≡ ok g'
      → ((e : ConnError)
          → r.error ≡ some e
          → gather unmarshal_block unmarshal_version 0 (rs ++ r ∷ []) g ≡ block)
        × (r.error ≡ none
            → gather unmarshal_block unmarshal_version 0 (rs ++ r ∷ []) g
              ≡ on_result unmarshal_block unmarshal_version r g')
  unfolding gather
  seventh_reply rs r g g' n h =
      let e = gather-reads 0 rs (r ∷ []) g g' (omega arith) h in
      let z : 0 + length rs ≡ 6 = omega arith in
      let six =
        subst
          (λ m.
            gather unmarshal_block unmarshal_version 0 (rs ++ r ∷ []) g
            ≡ gather unmarshal_block unmarshal_version m (r ∷ []) g')
          z e in
      (
        (λ x q. six ∙ if_error-some r.error x _ _ q),
        (λ q.
            six
            ∙ (if_error-none r.error _ _ q
                ∙ ok_again (on_result unmarshal_block unmarshal_version r g'))),
      )
