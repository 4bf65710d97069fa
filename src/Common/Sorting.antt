-- ===== src/Common/Sorting.antt =====
-- Sorting by a strict order, as sort.Slice and `order by` do it. Only the order of the result
-- matters, so an insertion sort stands for every method.
use Prim.Native.Nat.{ℕ, zero, suc, ◌+◌}
use mathlib.Core.Path.{◌≡◌, refl, sym}
use mathlib.Core.Logic.{inl, inr}
use mathlib.Core.Bool.{Bool, true, false}
use mathlib.Core.List.{List, [], ◌∷◌}
use native.Mathlib.Omega.{arith}
use tflive.Common.Tests.{if◌then◌else◌, Bool-cases}
use tflive.Common.Lists.{All, All-map, bit, count, keep, take, drop}
use tflive.Common.Slices.{All-keep, All-take}

abbrev pub Unlike {ℓ} : {A : Type ℓ} → (A → A → Bool) → List A → Type 0
Unlike alike [] = Unit
Unlike alike (x ∷ xs) = All (λ y. alike x y ≡ false) xs × Unlike alike xs

module _ {ℓ} {A : Type ℓ} (before : A → A → Bool) where
  abbrev pub insert : A → List A → List A
  insert x [] = x ∷ []
  insert x (y ∷ ys) = if before y x then y ∷ insert x ys else x ∷ y ∷ ys

  unfoldable pub sort : List A → List A
  sort [] = []
  sort (x ∷ xs) = insert x (sort xs)

  -- Every element comes before those that follow it.
  abbrev pub InOrder : List A → Type 0
  InOrder [] = Unit
  InOrder (x ∷ xs) = All (λ y. before x y ≡ true) xs × InOrder xs

  module _ {κ} (P : A → Type κ) where
    All-insert : (x : A) (xs : List A) → P x → All P xs → All P (insert x xs)
    All-insert x [] p ps = (p, tt)
    All-insert x (y ∷ ys) p ps = elim (Bool-cases (before y x)) [
      | inl e ↦ rw e (ps.0, All-insert x ys p ps.1)
      | inr e ↦ rw e (p, ps)
    ]

    pub All-sort : (xs : List A) → All P xs → All P (sort xs)
    unfolding sort
    All-sort [] ps = tt
    All-sort (x ∷ xs) ps = All-insert x (sort xs) ps.0 (All-sort xs ps.1)

  count-insert :
      (test : A → Bool) (x : A) (xs : List A)
      → count test (insert x xs) ≡ bit (test x) + count test xs
  count-insert test x [] = refl
  count-insert test x (y ∷ ys) = ground (arith, count-insert test x ys)

  pub count-sort : (test : A → Bool) (xs : List A) → count test (sort xs) ≡ count test xs
  unfolding sort
  count-sort test [] = refl
  count-sort test (x ∷ xs) = omega (arith, count-insert test x (sort xs), count-sort test xs)

  pub insert-first : (x : A) (xs : List A) → All (λ y. before y x ≡ false) xs → insert x xs ≡ x ∷ xs
  insert-first x [] h = refl
  insert-first x (y ∷ ys) h = rw h.0 refl

module _ {ℓ} {A : Type ℓ} (before alike : A → A → Bool)
    (before_trans : (x y z : A) → before x y ≡ true → before y z ≡ true → before x z ≡ true)
    (before_total : (x y : A) → alike x y ≡ false → before y x ≡ false → before x y ≡ true) where
  insert-InOrder :
      (x : A) (xs : List A)
      → All (λ y. alike x y ≡ false) xs
      → InOrder before xs
      → InOrder before (insert before x xs)
  insert-InOrder x [] fresh h = (tt, tt)
  insert-InOrder x (y ∷ ys) fresh h = elim (Bool-cases (before y x)) [
    | inl e ↦
        rw e
          (All-insert before (λ z. before y z ≡ true) x ys e h.0, insert-InOrder x ys fresh.1 h.1)
    | inr e ↦
        (let first : before x y ≡ true = before_total x y fresh.0 e in
          rw e ((first, All-map ys (λ z after. before_trans x y z first after) h.0), h))
  ]

  -- A list of which no two elements are alike is in order once it is sorted.
  pub sort-InOrder : (xs : List A) → Unlike alike xs → InOrder before (sort before xs)
  unfolding sort
  sort-InOrder [] h = tt
  sort-InOrder (x ∷ xs) h =
      insert-InOrder x (sort before xs) (All-sort before (λ y. alike x y ≡ false) xs h.0)
        (sort-InOrder xs h.1)

module _ {ℓ} {A : Type ℓ} (before : A → A → Bool) where
  pub InOrder-take : (n : ℕ) (xs : List A) → InOrder before xs → InOrder before (take n xs)
  InOrder-take zero xs h = tt
  InOrder-take (suc n) [] h = tt
  InOrder-take (suc n) (x ∷ xs) h = (All-take _ n xs h.0, InOrder-take n xs h.1)

  pub InOrder-drop : (n : ℕ) (xs : List A) → InOrder before xs → InOrder before (drop n xs)
  InOrder-drop zero xs h = h
  InOrder-drop (suc n) [] h = tt
  InOrder-drop (suc n) (x ∷ xs) h = InOrder-drop n xs h.1

  -- Sorting what a test takes is taking from the sorted list.
  module _ (before_trans : (x y z : A) → before x y ≡ true → before y z ≡ true → before x z ≡ true)
      (test : A → Bool) where
    not_before : (x y z : A) → before y x ≡ false → before y z ≡ true → before z x ≡ false
    not_before x y z h k = elim (Bool-cases (before z x)) [
      | inl e ↦ cc (before_trans y z x k e)
      | inr e ↦ e
    ]

    kept_first :
        (x : A) (zs : List A)
        → All (λ z. before z x ≡ false) zs
        → (if test x then x ∷ zs else zs) ≡ (if test x then insert before x zs else zs)
    kept_first x zs h = rw (insert-first before x zs h) refl

    keep-insert :
        (x : A) (xs : List A)
        → InOrder before xs
        → keep test (insert before x xs)
          ≡ (if test x then insert before x (keep test xs) else keep test xs)
    keep-insert x [] h = refl
    keep-insert x (y ∷ ys) h = elim (Bool-cases (before y x)) [
      | inl e ↦ rw e (ground (arith, e, keep-insert x ys h.1))
      | inr e ↦ rw e (
          kept_first x (keep test (y ∷ ys))
            (All-keep _ test (y ∷ ys) (e, All-map ys (λ z after. not_before x y z e after) h.0)))
    ]

pub keep-sort {ℓ} :
    {A : Type ℓ} (before alike : A → A → Bool)
    → ((x y z : A) → before x y ≡ true → before y z ≡ true → before x z ≡ true)
    → ((x y : A) → alike x y ≡ false → before y x ≡ false → before x y ≡ true)
    → (test : A → Bool) (xs : List A) → Unlike alike xs
    → sort before (keep test xs) ≡ keep test (sort before xs)
unfolding sort
keep-sort before alike trans total test [] h = refl
keep-sort before alike trans total test (x ∷ xs) h =
    let inserted =
      keep-insert before trans test x (sort before xs)
        (sort-InOrder before alike trans total xs h.1) in
    let rest = keep-sort before alike trans total test xs h.1 in
    elim (Bool-cases (test x)) [
      | inl t ↦ rw (t, rest) (sym (rw t at inserted))
      | inr f ↦ rw (f, rest) (sym (rw f at inserted))
    ]
