-- ===== src/Naming/Texts.antt =====
-- slugFromName, validStackSlug, normalizeWorkspacePart and workspaceName of internal/app/service.go.
-- The lower case of a character is an argument. Lengths count characters: the code counts bytes, of
-- texts of which only ASCII letters, digits and a separator are left, and of identifiers in ASCII.
use tflive.Common.{
  ℕ, ◌-◌, ◌==◌, leb, ltb, max, Bool, false, ◌&&◌, ◌||◌, not, [], ◌∷◌, ◌++◌, map, length, take, drop,
  all, if◌then◌else◌,
}
use mathlib.Core.List.{reverse}
use tflive.Common.Chars.{Chars, characters}
use tflive.Authorization.Vocabulary.{is_space, is_empty}

-- `r >= 'a' && r <= 'z', r >= '0' && r <= '9'`.
abbrev pub is_name_character : ℕ → Bool
is_name_character r = (leb b'a' r && leb r b'z') || (leb b'0' r && leb r b'9')

abbrev pub hyphen : ℕ
hyphen = b'-'

abbrev pub underscore : ℕ
underscore = b'_'

-- strings.TrimLeft, and strings.Trim with it on both sides.
unfoldable pub trim_left : (ℕ → Bool) → Chars → Chars
trim_left cut [] = []
trim_left cut (c ∷ cs) = if cut c then trim_left cut cs else c ∷ cs

unfoldable pub trim : (ℕ → Bool) → Chars → Chars
trim cut text = reverse (trim_left cut (reverse (trim_left cut text)))

abbrev pub trim_space : Chars → Chars
trim_space text = trim is_space text

-- One round of the loop over the characters: what is built, and whether a separator came last.
abbrev pub built_next : ℕ → ℕ → Bool → Chars → Chars
built_next separator r last built =
    if is_name_character r
    then built ++ r ∷ []
    else if not last && not (is_empty built)
    then built ++ separator ∷ []
    else built

abbrev pub last_next : ℕ → Bool → Chars → Bool
last_next r last built = if is_name_character r then false else last || not (is_empty built)

unfoldable pub separated : ℕ → Chars → Bool → Chars → Chars
separated separator [] last built = built
separated separator (r ∷ rs) last built =
    separated separator rs (last_next r last built) (built_next separator r last built)

abbrev pub normalize : (ℕ → ℕ) → ℕ → Chars → Chars
normalize to_lower separator text =
    trim (λ c. c == separator) (separated separator (map to_lower (trim_space text)) false [])

unfoldable pub slug_from_name : (ℕ → ℕ) → Chars → Chars
slug_from_name to_lower name = normalize to_lower hyphen name

unfoldable pub normalize_workspace_part : (ℕ → ℕ) → Chars → Chars
normalize_workspace_part to_lower value = normalize to_lower underscore value

abbrev pub is_slug_character : ℕ → Bool
is_slug_character r = is_name_character r || r == hyphen

unfoldable pub valid_stack_slug : Chars → Bool
valid_stack_slug slug =
    if is_empty (trim_space slug) then false else all is_slug_character (trim_space slug)

abbrev pub or_stack : Chars → Chars
or_stack slug = if is_empty slug then characters "stack" else slug

-- The last eight characters of an identifier.
abbrev pub short_id : Chars → Chars
short_id id = if ltb 8 (length id) then drop (length id - 8) id else id

abbrev pub prefix : Chars
prefix = characters "meg_"

-- `max(maxLength-len(prefix)-len(separator)-len(shortID), 1)`; the difference is not negative.
abbrev pub max_slug_length : Chars → ℕ
max_slug_length short = max (90 - 4 - 1 - length short) 1

abbrev pub cut_slug : ℕ → Chars → Chars
cut_slug limit slug =
    if ltb limit (length slug) then trim (λ c. c == underscore) (take limit slug) else slug

unfoldable pub workspace_name : (ℕ → ℕ) → Chars → Chars → Chars
workspace_name to_lower stack_slug stack_template_id =
    let short = short_id stack_template_id in
    let slug =
      cut_slug (max_slug_length short) (or_stack (normalize_workspace_part to_lower stack_slug)) in
    prefix ++ (or_stack slug ++ underscore ∷ short)
