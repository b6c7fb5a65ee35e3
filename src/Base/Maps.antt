-- ===== src/Base/Maps.antt =====
-- Go maps with numbers for keys: an association list with one entry at most for a key.
use Prim.Native.Nat.{ℕ}
use mathlib.Core.Path.{◌≡◌}
use mathlib.Core.List.{List, [], ◌∷◌}
use mathlib.Core.Option.{Option, none, some}
use native.Mathlib.Omega.{arith}
use polkadot_worker.Base.Tests.{◌==◌, if◌then◌else◌}

module _ {V : Type 0} where
  unfoldable pub find : ℕ → List (ℕ × V) → Option V
  find k [] = none
  find k ((j, v) ∷ m) = if j == k then some v else find k m

  unfoldable pub delete : ℕ → List (ℕ × V) → List (ℕ × V)
  delete k [] = []
  delete k ((j, v) ∷ m) = if j == k then delete k m else (j, v) ∷ delete k m

  unfoldable pub insert : ℕ → V → List (ℕ × V) → List (ℕ × V)
  insert k v m = (k, v) ∷ delete k m

  pub find-delete :
      (j k : ℕ) (m : List (ℕ × V)) → find j (delete k m) ≡ (if k == j then none else find j m)
  unfolding find delete
  find-delete j k [] = ground arith
  find-delete j k ((i, v) ∷ m) = ground (arith, find-delete j k m)

  pub find-insert :
      (j k : ℕ) (v : V) (m : List (ℕ × V))
      → find j (insert k v m) ≡ (if k == j then some v else find j m)
  unfolding find insert
  find-insert j k v m = ground (arith, find-delete j k m)
