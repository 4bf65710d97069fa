-- ===== src/Naming/Shapes.antt =====
-- What names of internal/app/service.go look like: valid slugs, and workspace names of bounded length.
use tflive.Common.{
  ℕ, zero, suc, ◌+◌, ◌-◌, ◌≤◌, ◌==◌, ◌≡◌, refl, ap, ◌∙◌, Bool, true, false, ◌&&◌, not, [], ◌∷◌,
  ◌++◌, map, arith, length, length-append, take, drop, length-take_le, all,
}
use mathlib.Core.List.{reverse, reverse-append, reverse-reverse}
use tflive.Common.Chars.{Chars}
use tflive.Authorization.Vocabulary.{is_space, is_empty}
use tflive.Naming.Texts.{
  is_name_character, hyphen, underscore, trim_left, trim, trim_space, built_next, last_next,
  separated, slug_from_name, normalize_workspace_part, is_slug_character, valid_stack_slug,
  or_stack, short_id, prefix, max_slug_length, cut_slug, workspace_name,
}

all-append : (p : ℕ → Bool) (xs ys : Chars) → all p (xs ++ ys) ≡ (all p xs && all p ys)
all-append p [] ys = refl
all-append p (x ∷ xs) ys = ground (arith, all-append p xs ys)

all-reverse : (p : ℕ → Bool) (xs : Chars) → all p (reverse xs) ≡ all p xs
all-reverse p [] = refl
all-reverse p (x ∷ xs) =
    ap (all p) (reverse-append (x ∷ []) xs)
    ∙ ground (arith, all-append p (reverse xs) (x ∷ []), all-reverse p xs)

length-reverse : (xs : Chars) → length (reverse xs) ≡ length xs
length-reverse [] = refl
length-reverse (x ∷ xs) =
    ap length (reverse-append (x ∷ []) xs)
    ∙ omega (arith, length-append (reverse xs) (x ∷ []), length-reverse xs)

all-trim_left : (p cut : ℕ → Bool) (xs : Chars) → all p xs ≡ true → all p (trim_left cut xs) ≡ true
unfolding trim_left
all-trim_left p cut [] h = refl
all-trim_left p cut (x ∷ xs) h = ground (arith, all-trim_left p cut xs)

length-trim_left_le : (cut : ℕ → Bool) (xs : Chars) → length (trim_left cut xs) ≤ length xs
unfolding trim_left
length-trim_left_le cut [] = omega arith
length-trim_left_le cut (x ∷ xs) = ground (arith, length-trim_left_le cut xs)

all-trim : (p cut : ℕ → Bool) (xs : Chars) → all p xs ≡ true → all p (trim cut xs) ≡ true
unfolding trim
all-trim p cut xs h =
    let first = all-trim_left p cut xs h in
    let turned = all-reverse p (trim_left cut xs) ∙ first in
    all-reverse p (trim_left cut (reverse (trim_left cut xs)))
    ∙ all-trim_left p cut (reverse (trim_left cut xs)) turned

length-trim_le : (cut : ℕ → Bool) (xs : Chars) → length (trim cut xs) ≤ length xs
unfolding trim
length-trim_le cut xs = omega (
  arith,
  length-reverse (trim_left cut (reverse (trim_left cut xs))),
  length-trim_left_le cut (reverse (trim_left cut xs)),
  length-reverse (trim_left cut xs),
  length-trim_left_le cut xs,
)

-- A text without characters to cut stays.
trim_left-none :
    (cut : ℕ → Bool) (xs : Chars) → all (λ c. not (cut c)) xs ≡ true → trim_left cut xs ≡ xs
unfolding trim_left
trim_left-none cut [] h = refl
trim_left-none cut (x ∷ xs) h = ground arith

-- The characters that the loop builds are name characters and the separator.
all-separated :
    (p : ℕ → Bool) (separator : ℕ) (rs : Chars) (last : Bool) (built : Chars)
    → ((r : ℕ) → is_name_character r ≡ true → p r ≡ true)
    → p separator ≡ true
    → all p built ≡ true
    → all p (separated separator rs last built) ≡ true
unfolding separated
all-separated p separator [] last built names sep h = h
all-separated p separator (r ∷ rs) last built names sep h =
    all-separated p separator rs (last_next r last built) (built_next separator r last built) names
      sep
      (ground (arith, names r, all-append p built (r ∷ []), all-append p built (separator ∷ [])))

separator_slug : is_slug_character hyphen ≡ true
separator_slug = refl

slug_characters :
    (to_lower : ℕ → ℕ) (name : Chars) → all is_slug_character (slug_from_name to_lower name) ≡ true
unfolding slug_from_name
slug_characters to_lower name =
    all-trim is_slug_character (λ c. c == hyphen)
      (separated hyphen (map to_lower (trim_space name)) false [])
      (all-separated is_slug_character hyphen (map to_lower (trim_space name)) false []
        (λ r h. ground arith) refl refl)

slug_character_no_space : (c : ℕ) → is_slug_character c ≡ true → not (is_space c) ≡ true
slug_character_no_space c h = ground arith

all_weaken :
    (p q : ℕ → Bool) (xs : Chars)
    → ((c : ℕ) → p c ≡ true → q c ≡ true)
    → all p xs ≡ true
    → all q xs ≡ true
all_weaken p q [] h k = refl
all_weaken p q (x ∷ xs) h k = ground (arith, h x, all_weaken p q xs h)

trim-none : (cut : ℕ → Bool) (xs : Chars) → all (λ c. not (cut c)) xs ≡ true → trim cut xs ≡ xs
unfolding trim
trim-none cut xs h = rw (trim_left-none cut xs h) (
    rw (trim_left-none cut (reverse xs) (all-reverse (λ c. not (cut c)) xs ∙ h))
      (reverse-reverse xs))

valid_stack_slug_lem :
    (slug : Chars)
    → all is_slug_character slug ≡ true
    → trim_space slug ≡ slug
    → valid_stack_slug slug ≡ not (is_empty slug)
unfolding valid_stack_slug
valid_stack_slug_lem slug h same = rw same (ground arith)

-- Whatever the name and however its letters are lowered, the slug made of it is a valid slug of a stack
-- unless it is empty, which validation refuses.
pub valid_stack_slug-slug_from_name :
    (to_lower : ℕ → ℕ) (name : Chars)
    → valid_stack_slug (slug_from_name to_lower name)
      ≡ not (is_empty (slug_from_name to_lower name))
valid_stack_slug-slug_from_name to_lower name =
    let slug = slug_from_name to_lower name in
    let characters_lem = slug_characters to_lower name in
    valid_stack_slug_lem slug characters_lem (
      trim-none is_space slug (
        all_weaken is_slug_character (λ c. not (is_space c)) slug slug_character_no_space
          characters_lem))

length-drop : (n : ℕ) (xs : Chars) → length (drop n xs) ≡ length xs - n
length-drop zero xs = omega arith
length-drop (suc n) [] = omega arith
length-drop (suc n) (x ∷ xs) = omega (arith, length-drop n xs)

length-short_id_le : (id : Chars) → length (short_id id) ≤ 8
length-short_id_le id = ground (arith, length-drop (length id - 8) id)

length-cut_slug_le : (limit : ℕ) (slug : Chars) → length (cut_slug limit slug) ≤ limit
length-cut_slug_le limit slug =
    ground
      (arith, length-trim_le (λ c. c == underscore) (take limit slug), length-take_le limit slug)

length-or_stack_le :
    (limit : ℕ) (slug : Chars) → length slug ≤ limit → 5 ≤ limit → length (or_stack slug) ≤ limit
length-or_stack_le limit [] h k = k
length-or_stack_le limit (c ∷ cs) h k = h

max_slug_length_lem :
    (short : Chars)
    → length short ≤ 8
    → (5 ≤ max_slug_length short) × (max_slug_length short + length short ≡ 85)
max_slug_length_lem short h = (omega arith, omega arith)

length-workspace :
    (slug short : Chars)
    → length (prefix ++ (slug ++ underscore ∷ short)) ≡ 5 + length slug + length short
length-workspace slug short = omega (arith, length-append slug (underscore ∷ short))

-- A workspace name has at most ninety characters, for every slug and every identifier.
pub workspace_name_bound :
    (to_lower : ℕ → ℕ) (stack_slug stack_template_id : Chars)
    → length (workspace_name to_lower stack_slug stack_template_id) ≤ 90
unfolding workspace_name
workspace_name_bound to_lower stack_slug stack_template_id =
    let short = short_id stack_template_id in
    let wide = max_slug_length_lem short (length-short_id_le stack_template_id) in
    let slug =
      cut_slug (max_slug_length short) (or_stack (normalize_workspace_part to_lower stack_slug)) in
    omega (
      arith,
      length-workspace (or_stack slug) short,
      wide.1,
      length-or_stack_le (max_slug_length short) slug
          (length-cut_slug_le (max_slug_length short)
            (or_stack (normalize_workspace_part to_lower stack_slug)))
          wide.0,
    )
