-- ===== src/Access/Stacks.antt =====
-- The table of stacks as internal/postgres/repositories.go lists it, whole and by pages, and the
-- listing of internal/app/authorization.go that shows a principal what it may view.
use tflive.Common.{
  ℕ, zero, suc, ◌==◌, ltb, Bool, true, false, ◌&&◌, ◌||◌, not, List, [], ◌∷◌, ◌++◌, Option, none,
  some, length, keep, take, if◌then◌else◌,
}
use tflive.Common.Results.{ok, err, ◌>>=◌, ◌>>◌, guard}
use tflive.Common.Chars.{Chars, before}
use tflive.Common.Sorting.{sort}
use tflive.Domain.{Text}
use tflive.Authorization.Vocabulary.{AuthError, Checked, Object, object_from_id, type_stack}
use tflive.Authorization.Relations.{relation_can_view, relation_can_administer}
use tflive.Authorization.Server.{Server}
use tflive.Authorization.Checks.{Check, can_all}
use tflive.Access.Requests.{
  Answer, Caller, asked, require_principal_and_authorizer, check_platform, page_too_long,
  not_advanced, not_ordered, invalid_candidate, wrong_length, authorization_failed,
}

-- The columns of a stack that the listing reads.
pub record Stack : Type 0 where
  pub id : Chars
  pub tenant_id : Text
  pub created_at : ℕ

pub record StackPageCursor : Type 0 where
  pub created_at : ℕ
  pub id : Chars

-- `stackPageOrderBefore`, which is also `order by created_at desc, id desc`.
unfoldable pub stack_page_order_before : Stack → Stack → Bool
stack_page_order_before left right =
    if not (left.created_at == right.created_at)
    then ltb right.created_at left.created_at
    else before right.id left.id

unfoldable pub list_stacks : List Stack → Text → List Stack
list_stacks rows tenant = sort stack_page_order_before (keep (λ s. s.tenant_id == tenant) rows)

-- `$2 is null or (created_at, id) < ($2, $3)`.
abbrev pub after_cursor : Option StackPageCursor → Stack → Bool
after_cursor none s = true
after_cursor (some cursor) s =
    ltb s.created_at cursor.created_at
    || (s.created_at == cursor.created_at && before s.id cursor.id)

unfoldable pub list_stacks_page : List Stack → Text → Option StackPageCursor → ℕ → List Stack
list_stacks_page rows tenant cursor limit =
    take limit (
      sort stack_page_order_before
        (keep (λ s. s.tenant_id == tenant && after_cursor cursor s) rows))

abbrev pub page_size : ℕ
page_size = 50

-- `stackPageOrderBefore(domain.Stack{ID: cursor.ID, CreatedAt: cursor.CreatedAt}, candidates[0])`.
abbrev pub advances : Option StackPageCursor → Stack → Bool
advances none s = true
advances (some cursor) s =
    stack_page_order_before
      (record { id = cursor.id; tenant_id = 0; created_at = cursor.created_at }) s

unfoldable pub strictly_ordered : List Stack → Bool
strictly_ordered [] = true
strictly_ordered (s ∷ []) = true
strictly_ordered (s ∷ t ∷ stacks) = stack_page_order_before s t && strictly_ordered (t ∷ stacks)

abbrev pub candidate_object : Checked Object → Answer Object
candidate_object (err AuthError.invalid_input) = err invalid_candidate
candidate_object (err failure) = err (authorization_failed failure)
candidate_object (ok object) = ok object

unfoldable pub view_checks : List Stack → Answer (List Check)
view_checks [] = ok []
view_checks (s ∷ stacks) = do
  object ← candidate_object (object_from_id type_stack s.id)
  checks ← view_checks stacks
  ok (record { relation = relation_can_view; object = object } ∷ checks)

-- The candidates whose answer is true.
abbrev pub visible : List Stack → List Bool → List Stack
visible [] allowed = []
visible (s ∷ stacks) [] = []
visible (s ∷ stacks) (yes_or_no ∷ allowed) =
    if yes_or_no then s ∷ visible stacks allowed else visible stacks allowed

abbrev pub cursor_of : Stack → StackPageCursor
cursor_of s = record { created_at = s.created_at; id = s.id }

-- `candidates[len(candidates)-1]`.
abbrev pub last_of : Stack → List Stack → Stack
last_of s [] = s
last_of s (t ∷ stacks) = last_of t stacks

-- The checks on a page that is not empty, and what it adds to the list.
unfoldable pub visible_of_page :
    Server → Chars → Option StackPageCursor → Stack → List Stack → Answer (List Stack)
visible_of_page server subject cursor s stacks = do
  guard (not (ltb page_size (length (s ∷ stacks)))) page_too_long
  guard (advances cursor s) not_advanced
  guard (strictly_ordered (s ∷ stacks)) not_ordered
  checks ← view_checks (s ∷ stacks)
  allowed ← asked (can_all server subject checks)
  guard (length allowed == length (s ∷ stacks)) wrong_length
  ok (visible (s ∷ stacks) allowed)

abbrev pub go_on :
    Answer (List Stack) → (List Stack → Option (Answer (List Stack))) → Option (Answer (List Stack))
go_on (err failure) next = some (err failure)
go_on (ok found) next = next found

-- One round of the loop, by the page that it reads; `next` is the loop from the next cursor on.
unfoldable pub read_candidates :
    Server
    → Chars
    → Option StackPageCursor
    → List Stack
    → List Stack
    → (StackPageCursor → List Stack → Option (Answer (List Stack)))
    → Option (Answer (List Stack))
read_candidates server subject cursor accessible [] next = some (ok accessible)
read_candidates server subject cursor accessible (s ∷ stacks) next =
    go_on (visible_of_page server subject cursor s stacks) (λ found.
      if ltb (length (s ∷ stacks)) page_size
      then some (ok (accessible ++ found))
      else next (cursor_of (last_of s stacks)) (accessible ++ found))

-- The loop over the pages, on fuel: none where the fuel runs out.
unfoldable pub visible_stacks :
    ℕ
    → Server
    → Chars
    → List Stack
    → Text
    → Option StackPageCursor
    → List Stack
    → Option (Answer (List Stack))
visible_stacks zero server subject rows tenant cursor accessible = none
visible_stacks (suc fuel) server subject rows tenant cursor accessible =
    read_candidates server subject cursor accessible (list_stacks_page rows tenant cursor page_size)
      (λ next found. visible_stacks fuel server subject rows tenant (some next) found)

-- An administrator sees every stack of the tenant.
abbrev pub listed_for : ℕ → Server → Chars → List Stack → Text → Bool → Option (Answer (List Stack))
listed_for fuel server subject rows tenant true = some (ok (list_stacks rows tenant))
listed_for fuel server subject rows tenant false =
    visible_stacks fuel server subject rows tenant none []

abbrev pub with_answer {ℓ κ} :
    {A : Type ℓ} {B : Type κ} → Answer A → (A → Option (Answer B)) → Option (Answer B)
with_answer (err failure) next = some (err failure)
with_answer (ok value) next = next value

unfoldable pub list_accessible_stacks :
    ℕ → Caller → List Stack → Text → Option (Answer (List Stack))
list_accessible_stacks fuel caller rows tenant =
    with_answer (require_principal_and_authorizer caller) (λ known.
      with_answer (check_platform caller relation_can_administer)
        (λ administrator. listed_for fuel known.1 known.0 rows tenant administrator))
