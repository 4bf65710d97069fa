-- ===== src/Common/Results.antt =====
-- The result of fallible code, over an error type of the caller's, and its monad.
use mathlib.Core.Path.{◌≡◌, refl}
use mathlib.Core.Logic.{◌⊎◌, inl, inr}
use mathlib.Core.Bool.{Bool, true, false}
use mathlib.Core.Option.{Option, none, some}
use mathlib.Core.List.{List, [], ◌∷◌}
use native.Mathlib.Omega.{arith}

pub data Result {ℓ κ} (E : Type ℓ) (V : Type κ) : Type (ℓ ⊔ κ) where
  err : E → Result E V
  ok : V → Result E V

-- A missing value is the given error.
abbrev pub or_fail {ℓ κ} : {E : Type ℓ} {V : Type κ} → Option V → E → Result E V
or_fail none failure = err failure
or_fail (some v) failure = ok v

-- A test that must hold.
abbrev pub guard {ℓ} : {E : Type ℓ} → Bool → E → Result E (Unit {0})
guard false failure = err failure
guard true failure = ok tt

pub Result-cases {ℓ κ} :
    {E : Type ℓ} {V : Type κ} (r : Result E V) → ((v : V) × (r ≡ ok v)) ⊎ ((x : E) × (r ≡ err x))
Result-cases (err x) = inr (x, refl)
Result-cases (ok v) = inl (v, refl)

module _ {ℓ κ μ} {E : Type ℓ} {V : Type κ} {U : Type μ} where
  infixl 5 ◌>>=◌
  abbrev pub ◌>>=◌ : Result E V → (V → Result E U) → Result E U
  ◌>>=◌ (err x) next = err x
  ◌>>=◌ (ok v) next = next v

  -- What a chain that succeeds went through.
  pub >>=-eq-ok :
      (first : Result E V) (next : V → Result E U) {u : U}
      → (first >>= next) ≡ ok u
      → (v : V) × (first ≡ ok v) × (next v ≡ ok u)
  >>=-eq-ok (err x) next same = cc
  >>=-eq-ok (ok v) next same = (v, refl, same)

infixl 5 ◌>>◌
abbrev pub ◌>>◌ {ℓ μ} : {E : Type ℓ} {U : Type μ} → Result E (Unit {0}) → Result E U → Result E U
◌>>◌ first next = first >>= (λ done. next)

pub or_fail-eq-ok {ℓ κ} :
    {E : Type ℓ} {V : Type κ} (o : Option V) (failure : E) {v : V}
    → or_fail o failure ≡ ok v
    → o ≡ some v
or_fail-eq-ok none failure same = cc
or_fail-eq-ok (some w) failure same = ground arith

-- The calls one after another, up to the first error.
unfoldable pub each {ℓ κ μ} :
    {E : Type ℓ} {A : Type κ} {B : Type μ} → (A → Result E B) → List A → Result E (List B)
each ask [] = ok []
each ask (x ∷ xs) = do y ← ask x; ys ← each ask xs; ok (y ∷ ys)

pub ok-eq-ok : {E A : Type 0} (r : Result E A) {v w : A} → r ≡ ok v → r ≡ ok w → v ≡ w
ok-eq-ok (err x) e f = cc
ok-eq-ok (ok v) e f = ground arith
