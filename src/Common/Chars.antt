-- ===== src/Common/Chars.antt =====
-- Texts whose characters matter: the code points of a string, their comparison, and the prefixes
-- that strings.HasPrefix and strings.TrimPrefix look at.
use Prim.Native.Nat.{ℕ}
use Prim.Native.Char.{code}
use Prim.Native.String.{String}
use mathlib.Core.Path.{◌≡◌, refl}
use mathlib.Core.Bool.{Bool, true, false, ◌&&◌, ◌||◌}
use mathlib.Core.Option.{Option, none, some}
use mathlib.Core.List.{List, [], ◌∷◌, ◌++◌}
use native.Mathlib.Omega.{arith}
use tflive.Common.Tests.{◌==◌, if◌then◌else◌, ltb}

abbrev pub Chars : Type 0
Chars = List ℕ

abbrev pub characters : String → Chars
characters String.[] = []
characters (String.◌∷◌ c s) = code c ∷ characters s

unfoldable pub same_chars : Chars → Chars → Bool
same_chars [] [] = true
same_chars [] (y ∷ ys) = false
same_chars (x ∷ xs) [] = false
same_chars (x ∷ xs) (y ∷ ys) = x == y && same_chars xs ys

pub same_chars_refl : (xs : Chars) → same_chars xs xs ≡ true
unfolding same_chars
same_chars_refl [] = refl
same_chars_refl (x ∷ xs) = ground (arith, same_chars_refl xs)

pub same_chars_eq : (xs ys : Chars) → same_chars xs ys ≡ true → xs ≡ ys
unfolding same_chars
same_chars_eq [] [] h = refl
same_chars_eq [] (y ∷ ys) h = cc
same_chars_eq (x ∷ xs) [] h = cc
same_chars_eq (x ∷ xs) (y ∷ ys) h = ground (arith, same_chars_eq xs ys)

pub same_chars_sym : (xs ys : Chars) → same_chars xs ys ≡ same_chars ys xs
unfolding same_chars
same_chars_sym [] [] = refl
same_chars_sym [] (y ∷ ys) = refl
same_chars_sym (x ∷ xs) [] = refl
same_chars_sym (x ∷ xs) (y ∷ ys) = ground (arith, same_chars_sym xs ys)

-- The order of texts, character by character.
unfoldable pub before : Chars → Chars → Bool
before xs [] = false
before [] (y ∷ ys) = true
before (x ∷ xs) (y ∷ ys) = ltb x y || (x == y && before xs ys)

pub before_irrefl : (xs : Chars) → before xs xs ≡ false
unfolding before
before_irrefl [] = refl
before_irrefl (x ∷ xs) = ground (arith, before_irrefl xs)

pub before_trans :
    (xs ys zs : Chars) → before xs ys ≡ true → before ys zs ≡ true → before xs zs ≡ true
unfolding before
before_trans xs ys [] h k = ground arith
before_trans xs [] (z ∷ zs) h k = ground arith
before_trans [] (y ∷ ys) (z ∷ zs) h k = refl
before_trans (x ∷ xs) (y ∷ ys) (z ∷ zs) h k = ground (arith, before_trans xs ys zs)

pub before_total :
    (xs ys : Chars) → same_chars xs ys ≡ false → before xs ys ≡ false → before ys xs ≡ true
unfolding before same_chars
before_total [] [] h k = cc
before_total [] (y ∷ ys) h k = cc
before_total (x ∷ xs) [] h k = refl
before_total (x ∷ xs) (y ∷ ys) h k = ground (arith, before_total xs ys)

-- What follows the prefix, where the text has it.
unfoldable pub after_prefix : Chars → Chars → Option Chars
after_prefix [] ys = some ys
after_prefix (x ∷ xs) [] = none
after_prefix (x ∷ xs) (y ∷ ys) = if x == y then after_prefix xs ys else none

pub after_prefix-append : (xs ys : Chars) → after_prefix xs (xs ++ ys) ≡ some ys
unfolding after_prefix
after_prefix-append [] ys = refl
after_prefix-append (x ∷ xs) ys = ground (arith, after_prefix-append xs ys)

pub after_prefix-eq-some :
    (xs zs : Chars) {ys : Chars} → after_prefix xs zs ≡ some ys → zs ≡ xs ++ ys
unfolding after_prefix
after_prefix-eq-some [] zs {ys} h = ground arith
after_prefix-eq-some (x ∷ xs) [] h = cc
after_prefix-eq-some (x ∷ xs) (z ∷ zs) {ys} h = ground (arith, after_prefix-eq-some xs zs {ys = ys})

-- Whether a character of the text passes the test.
unfoldable pub contains_any : (ℕ → Bool) → Chars → Bool
contains_any test [] = false
contains_any test (c ∷ cs) = test c || contains_any test cs

-- A text splits in one way only at its first separator.
pub split_unique :
    (separator : ℕ) (a b c d : Chars)
    → contains_any (λ x. x == separator) a ≡ false
    → contains_any (λ x. x == separator) c ≡ false
    → a ++ separator ∷ b ≡ c ++ separator ∷ d
    → (a ≡ c) × (b ≡ d)
unfolding contains_any
split_unique separator [] b [] d h k e = ground arith
split_unique separator [] b (x ∷ c) d h k e = ground arith
split_unique separator (x ∷ a) b [] d h k e = ground arith
split_unique separator (x ∷ a) b (y ∷ c) d h k e = ground (arith, split_unique separator a b c d)
