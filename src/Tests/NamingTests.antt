-- ===== src/Tests/NamingTests.antt =====
-- Names that the service makes of typed ones, and instances of the theorems on names.
use tflive.Common.{ℕ, ◌+◌, ◌≤◌, ◌≡◌, refl, not, leb, ◌&&◌, length, if◌then◌else◌}
use tflive.Common.Chars.{characters}
use tflive.Authorization.Vocabulary.{is_empty}
use tflive.Naming.Texts.{
  trim_left, trim, separated, slug_from_name, normalize_workspace_part, valid_stack_slug,
  workspace_name,
}
use tflive.Naming.Shapes.{valid_stack_slug-slug_from_name, workspace_name_bound}

-- The lower case of ASCII.
abbrev lower : ℕ → ℕ
lower c = if leb b'A' c && leb c b'Z' then c + 32 else c

slug_made : slug_from_name lower (characters "  My Stack -- (v2) ") ≡ characters "my-stack-v2"
unfolding slug_from_name separated trim trim_left
slug_made = refl

slug_of_nothing : slug_from_name lower (characters " !? ") ≡ characters ""
unfolding slug_from_name separated trim trim_left
slug_of_nothing = refl

workspace_made :
    workspace_name lower (characters "my-stack") (characters "st_0123456789")
    ≡ characters "meg_my_stack_23456789"
unfolding workspace_name normalize_workspace_part separated trim trim_left
workspace_made = refl

valid_stack_slug-slug_from_name_example :
    valid_stack_slug (slug_from_name lower (characters "My Stack"))
    ≡ not (is_empty (slug_from_name lower (characters "My Stack")))
valid_stack_slug-slug_from_name_example =
    valid_stack_slug-slug_from_name lower (characters "My Stack")

workspace_name_bound_example :
    length (workspace_name lower (characters "my-stack") (characters "st_0123456789")) ≤ 90
workspace_name_bound_example =
    workspace_name_bound lower (characters "my-stack") (characters "st_0123456789")
