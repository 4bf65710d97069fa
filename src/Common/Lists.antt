-- ===== src/Common/Lists.antt =====
-- Lists as database tables: predicates over the rows, the first row that a test takes, the
-- replacement of that row, and updates of all the rows that a test takes.
use Prim.Native.Nat.{ℕ, zero, suc, ◌+◌, ◌≤◌, ◌<◌}
use mathlib.Core.Path.{◌≡◌, refl, subst}
use mathlib.Core.Logic.{inl, inr}
use mathlib.Core.Bool.{Bool, true, false, ◌&&◌, ◌||◌}
use mathlib.Core.Option.{Option, none, some}
use mathlib.Core.List.{List, [], ◌∷◌, ◌++◌}
use native.Mathlib.Omega.{arith}
use tflive.Common.Tests.{if◌then◌else◌, Bool-cases}

abbrev pub All {ℓ κ} : {A : Type ℓ} → (A → Type κ) → List A → Type κ
All P [] = Unit
All P (x ∷ xs) = P x × All P xs

abbrev pub bit : Bool → ℕ
bit true = 1
bit false = 0

module _ {ℓ} {A : Type ℓ} where
  abbrev pub length : List A → ℕ
  length [] = 0
  length (x ∷ xs) = suc (length xs)

  abbrev pub take : ℕ → List A → List A
  take zero xs = []
  take (suc n) [] = []
  take (suc n) (x ∷ xs) = x ∷ take n xs

  abbrev pub drop : ℕ → List A → List A
  drop zero xs = xs
  drop (suc n) [] = []
  drop (suc n) (x ∷ xs) = drop n xs

  abbrev pub any : (A → Bool) → List A → Bool
  any p [] = false
  any p (x ∷ xs) = p x || any p xs

  abbrev pub all : (A → Bool) → List A → Bool
  all p [] = true
  all p (x ∷ xs) = p x && all p xs

  abbrev pub count : (A → Bool) → List A → ℕ
  count p [] = 0
  count p (x ∷ xs) = bit (p x) + count p xs

  -- The rows that the test takes.
  abbrev pub keep : (A → Bool) → List A → List A
  keep p [] = []
  keep p (x ∷ xs) = if p x then x ∷ keep p xs else keep p xs

  -- The first row that the test takes.
  abbrev pub find? : (A → Bool) → List A → Option A
  find? p [] = none
  find? p (x ∷ xs) = if p x then some x else find? p xs

  -- The row that the test takes is replaced. The tests are on primary keys, which take one row.
  abbrev pub replace : (A → Bool) → A → List A → List A
  replace p y [] = []
  replace p y (x ∷ xs) = if p x then y ∷ xs else x ∷ replace p y xs

  -- Every row that the test takes is updated.
  abbrev pub update_where : (A → Bool) → (A → A) → List A → List A
  update_where p f [] = []
  update_where p f (x ∷ xs) = (if p x then f x else x) ∷ update_where p f xs

  pub length-append : (xs ys : List A) → length (xs ++ ys) ≡ length xs + length ys
  length-append [] ys = omega arith
  length-append (x ∷ xs) ys = omega (arith, length-append xs ys)

  pub count-append : (p : A → Bool) (xs ys : List A) → count p (xs ++ ys) ≡ count p xs + count p ys
  count-append p [] ys = omega arith
  count-append p (x ∷ xs) ys = omega (arith, count-append p xs ys)

  pub find?-test : (p : A → Bool) (xs : List A) {x : A} → find? p xs ≡ some x → p x ≡ true
  find?-test p [] e = cc
  find?-test p (y ∷ xs) {x} e = elim (Bool-cases (p y)) [
    | inl h ↦ ground arith
    | inr h ↦ find?-test p xs (ground arith)
  ]

  -- Replacing a row moves the count by that row alone.
  pub count-replace :
      (q p : A → Bool) (y : A) (xs : List A) {x : A}
      → find? p xs ≡ some x
      → count q (replace p y xs) + bit (q x) ≡ count q xs + bit (q y)
  count-replace q p y [] e = cc
  count-replace q p y (z ∷ xs) {x} e = elim (Bool-cases (p z)) [
    | inl h ↦ ground arith
    | inr h ↦ ground (arith, count-replace q p y xs {x = x})
  ]

  pub find?-replace_self :
      (p : A → Bool) (y : A) (xs : List A) {x : A}
      → find? p xs ≡ some x
      → p y ≡ true
      → find? p (replace p y xs) ≡ some y
  find?-replace_self p y [] e h = cc
  find?-replace_self p y (z ∷ xs) {x} e h = ground (arith, find?-replace_self p y xs {x = x})

  pub find?-replace_ne :
      (q p : A → Bool) (y : A) (xs : List A) {x : A}
      → find? p xs ≡ some x
      → q x ≡ false
      → q y ≡ false
      → find? q (replace p y xs) ≡ find? q xs
  find?-replace_ne q p y [] e h k = refl
  find?-replace_ne q p y (z ∷ xs) {x} e h k = ground (arith, find?-replace_ne q p y xs {x = x})

  -- Where the replaced row is also the one that another test finds, that test finds the new row.
  pub find?-replace :
      (q p : A → Bool) (y : A) (xs : List A) {x : A}
      → find? p xs ≡ some x
      → find? q xs ≡ some x
      → q y ≡ true
      → find? q (replace p y xs) ≡ some y
  find?-replace q p y [] e h k = cc
  find?-replace q p y (z ∷ xs) {x} e h k =
      ground (arith, find?-test p xs {x = x}, find?-replace q p y xs {x = x})

  pub count_zero : (q : A → Bool) (xs : List A) → any q xs ≡ false → count q xs ≡ 0
  count_zero q [] h = refl
  count_zero q (x ∷ xs) h = ground (arith, count_zero q xs)

  -- A row that is added where the test takes none keeps the test exclusive.
  pub count-add_le_one :
      (q : A → Bool) (xs : List A) (y : A)
      → (q y ≡ true → any q xs ≡ false)
      → count q xs ≤ 1
      → count q (xs ++ y ∷ []) ≤ 1
  count-add_le_one q xs y alone h = elim (Bool-cases (q y)) [
    | inl t ↦ rw (count-append q xs (y ∷ [])) (ground (arith, t, count_zero q xs (alone t)))
    | inr f ↦ rw (count-append q xs (y ∷ [])) (ground (arith, f))
  ]

  pub find?-none : (q : A → Bool) (xs : List A) → count q xs ≡ 0 → find? q xs ≡ none
  find?-none q [] h = refl
  find?-none q (x ∷ xs) h = ground (arith, find?-none q xs)

  pub count_pos :
      (q p : A → Bool) (xs : List A) {x : A} → find? p xs ≡ some x → q x ≡ true → 0 < count q xs
  count_pos q p [] e h = cc
  count_pos q p (z ∷ xs) {x} e h = ground (arith, count_pos q p xs {x = x})

  -- A test that takes one row at most finds it wherever another test does.
  pub find?_unique :
      (q p : A → Bool) (xs : List A) {x : A}
      → count q xs ≤ 1
      → find? p xs ≡ some x
      → q x ≡ true
      → find? q xs ≡ some x
  find?_unique q p [] c e h = cc
  find?_unique q p (z ∷ xs) {x} c e h =
      ground (arith, find?_unique q p xs {x = x}, count_pos q p xs {x = x})

  pub find?-append_some :
      (q : A → Bool) (xs ys : List A) {x : A} → find? q xs ≡ some x → find? q (xs ++ ys) ≡ some x
  find?-append_some q [] ys e = cc
  find?-append_some q (z ∷ xs) ys {x} e = ground (arith, find?-append_some q xs ys {x = x})

module _ {ℓ κ} {A : Type ℓ} (P : A → Type κ) where
  pub All-find? : (p : A → Bool) (xs : List A) {x : A} → All P xs → find? p xs ≡ some x → P x
  All-find? p [] h e = cc
  All-find? p (y ∷ xs) {x} h e = elim (Bool-cases (p y)) [
    | inl t ↦ (let q : y ≡ x = ground arith in subst P q h.0)
    | inr f ↦ All-find? p xs h.1 (rw f at e)
  ]

  pub All-replace : (p : A → Bool) (y : A) (xs : List A) → All P xs → P y → All P (replace p y xs)
  All-replace p y [] h hy = tt
  All-replace p y (x ∷ xs) h hy = elim (Bool-cases (p x)) [
    | inl t ↦ rw t (hy, h.1)
    | inr f ↦ rw f (h.0, All-replace p y xs h.1 hy)
  ]

  pub All-update_where :
      (p : A → Bool) (f : A → A) (xs : List A)
      → ((x : A) → P x → P (f x))
      → All P xs
      → All P (update_where p f xs)
  All-update_where p f [] keep h = tt
  All-update_where p f (x ∷ xs) keep h = elim (Bool-cases (p x)) [
    | inl t ↦ rw t (keep x h.0, All-update_where p f xs keep h.1)
    | inr e ↦ rw e (h.0, All-update_where p f xs keep h.1)
  ]

  pub All-append : (xs ys : List A) → All P xs → All P ys → All P (xs ++ ys)
  All-append [] ys hx hy = hy
  All-append (x ∷ xs) ys hx hy = (hx.0, All-append xs ys hx.1 hy)

pub All-map {ℓ κ μ} :
    {A : Type ℓ} {P : A → Type κ} {Q : A → Type μ} (xs : List A)
    → ((x : A) → P x → Q x)
    → All P xs
    → All Q xs
All-map [] f h = tt
All-map (x ∷ xs) f h = (f x h.0, All-map xs f h.1)
