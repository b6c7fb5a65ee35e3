-- ===== src/Base/Results.antt =====
-- What a Go call comes to: a value, a returned error, a run-time panic, or an endless wait on a
-- channel on which nothing arrives any more.
use mathlib.Core.Path.{◌≡◌, refl}
use mathlib.Core.Option.{Option, none, some}

pub data Outcome {ℓ κ} (E : Type ℓ) (A : Type κ) : Type (ℓ ⊔ κ) where
  ok : A → Outcome E A
  err : E → Outcome E A
  panic : Outcome E A
  block : Outcome E A

infixl 5 ◌>>=◌ ◌>>◌
abbrev pub ◌>>=◌ {ℓ κ μ} :
    {E : Type ℓ} {A : Type κ} {B : Type μ} → Outcome E A → (A → Outcome E B) → Outcome E B
ok a >>= f = f a
err e >>= f = err e
panic >>= f = panic
block >>= f = block

abbrev pub ◌>>◌ {ℓ μ} : {E : Type ℓ} {B : Type μ} → Outcome E (Unit {0}) → Outcome E B → Outcome E B
m >> k = m >>= λ _. k

-- The error of a callee is wrapped into the caller's.
abbrev pub wrap {ℓ κ μ} :
    {E : Type ℓ} {F : Type κ} {A : Type μ} → (E → F) → Outcome E A → Outcome F A
wrap f (ok a) = ok a
wrap f (err e) = err (f e)
wrap f panic = panic
wrap f block = block

-- An index or a slice out of bounds is a panic.
abbrev pub or_panic {ℓ κ} : {E : Type ℓ} {A : Type κ} → Option A → Outcome E A
or_panic none = panic
or_panic (some a) = ok a

abbrev pub or_err {ℓ κ} : {E : Type ℓ} {A : Type κ} → E → Option A → Outcome E A
or_err e none = err e
or_err e (some a) = ok a

-- When a chain of two calls returns a value, so did its first call.
pub >>=-eq-ok {ℓ κ μ} :
    {E : Type ℓ} {A : Type κ} {B : Type μ} (first : Outcome E A) (rest : A → Outcome E B) {last : B}
    → first >>= rest ≡ ok last
    → (mid : A) × (first ≡ ok mid) × (rest mid ≡ ok last)
>>=-eq-ok panic rest e = cc
>>=-eq-ok block rest e = cc
>>=-eq-ok (err _) rest e = cc
>>=-eq-ok (ok mid) rest e = (mid, refl, e)

-- What holds of every value that the rest of a chain is reached with holds of the chain.
pub after_ok_eq {ℓ κ μ ν} :
    {E : Type ℓ} {A : Type κ} {B : Type μ} {P : Type ν} (m : Outcome E A) (k : A → Outcome E B)
    {b : B}
    → ((a : A) → m ≡ ok a → k a ≡ ok b → P)
    → m >>= k ≡ ok b
    → P
after_ok_eq m k f h = let (a, e, h1) = >>=-eq-ok m k h in f a e h1

pub after_ok {ℓ κ μ ν} :
    {E : Type ℓ} {A : Type κ} {B : Type μ} {P : Type ν} (m : Outcome E A) (k : A → Outcome E B)
    {b : B}
    → ((a : A) → k a ≡ ok b → P)
    → m >>= k ≡ ok b
    → P
after_ok m k f h = after_ok_eq m k (λ a e. f a) h

pub ok_inj {ℓ κ} : {E : Type ℓ} {A : Type κ} {x y : A} → ◌≡◌ {A = Outcome E A} (ok x) (ok y) → x ≡ y
ok_inj e = cc

pub wrap-eq-ok {ℓ κ μ} :
    {E : Type ℓ} {F : Type κ} {A : Type μ} (f : E → F) (m : Outcome E A) {a : A}
    → ◌≡◌ {A = Outcome F A} (wrap f m) (ok a)
    → m ≡ ok a
wrap-eq-ok f (ok b) h = cc
wrap-eq-ok f (err e) h = cc
wrap-eq-ok f panic h = cc
wrap-eq-ok f block h = cc
