-- ===== src/Access/Visibility.antt =====
-- The listing of internal/app/authorization.go shows a principal exactly what it may view.
use tflive.Common.{
  ℕ, zero, suc, ◌≤◌, ◌<◌, ◌==◌, ==-refl, ltb, ltb→lt, ◌≡◌, refl, sym, ap, subst, ◌∙◌, Bool, true,
  false, not, List, [], ◌∷◌, ◌++◌, map, Option, none, some, arith, Bool-cases, inl, inr, All,
  All-take, All-drop, all, length, keep-All, keep, keep-append, keep-keep, take, drop, take_short,
  append-take-drop, length-take_le, length-drop_le, if◌then◌else◌,
}
use mathlib.Core.Path.{fun_ext}
use mathlib.Core.List.{map-map, append-nil, append_assoc}
use tflive.Common.Results.{ok, ◌>>◌, guard}
use tflive.Common.Chars.{Chars, contains_any}
use tflive.Common.Sorting.{Unlike, InOrder, InOrder-take, InOrder-drop}
use tflive.Domain.{Text}
use tflive.Authorization.Vocabulary.{Subject, safe_tuple_token, subject_from_oidc_sub}
use tflive.Authorization.Relations.{relation_valid, relation_can_view}
use tflive.Authorization.Server.{Server, TupleKey, IsFaithful}
use tflive.Authorization.Checks.{Check, check_key, check_valid}
use tflive.Authorization.Batches.{can_all-decided}
use tflive.Access.Requests.{AccessError}
use tflive.Access.Stacks.{
  Stack, StackPageCursor, stack_page_order_before, list_stacks, after_cursor, cursor_of, last_of,
  advances, view_checks, visible, visible_of_page, read_candidates, visible_stacks,
  list_accessible_stacks, page_size,
}
use tflive.Access.Pages.{
  same_id, after_cursor-cursor_of, advances-after_cursor, after_cursor_trans, All-last_of,
  strictly_ordered-InOrder, keep-last_of, list_stacks-InOrder, list_stacks_page_lem,
}
use tflive.Access.Questions.{
  stack_object, object_from_id-stack, object_valid-stack, signed_in, signed_in_lem,
  administer_check, check_platform-decided,
}

abbrev pub view_check : Stack → Check
view_check s = record { relation = relation_can_view; object = stack_object s.id }

-- The identifiers of the stacks can stand in a tuple.
abbrev pub NamesObject : Stack → Type 0
NamesObject s = safe_tuple_token s.id ≡ true

can_view_safe : relation_valid relation_can_view ≡ true
unfolding relation_valid safe_tuple_token contains_any
can_view_safe = refl

check_valid-view_check : (s : Stack) → NamesObject s → check_valid (view_check s) ≡ true
check_valid-view_check s h = rw (can_view_safe, object_valid-stack s.id h) refl

view_checks_lem :
    (stacks : List Stack) → All NamesObject stacks → view_checks stacks ≡ ok (map view_check stacks)
unfolding view_checks
view_checks_lem [] h = refl
view_checks_lem (s ∷ stacks) h = rw (object_from_id-stack s.id h.0, view_checks_lem stacks h.1) refl

all-view_checks :
    (stacks : List Stack) → All NamesObject stacks → all check_valid (map view_check stacks) ≡ true
all-view_checks [] h = refl
all-view_checks (s ∷ stacks) h = rw (check_valid-view_check s h.0) (all-view_checks stacks h.1)

module _ {ℓ κ} {A : Type ℓ} {B : Type κ} where
  pub length-map : (f : A → B) (xs : List A) → length (map f xs) ≡ length xs
  length-map f [] = refl
  length-map f (x ∷ xs) = omega (arith, length-map f xs)

visible-map :
    (f : Stack → Bool) (stacks : List Stack) → visible stacks (map f stacks) ≡ keep f stacks
visible-map f [] = refl
visible-map f (s ∷ stacks) = ground (arith, visible-map f stacks)

-- The positional reading of as many answers as candidates.
page_answer :
    (f : Stack → Bool) (page : List Stack) (allowed : List Bool)
    → allowed ≡ map f page
    → (guard (length allowed == length page) AccessError.wrong_length >> ok (visible page allowed))
      ≡ ok (keep f page)
page_answer f page allowed e =
    rw (e, length-map f page, ==-refl (length page)) (ap ok (visible-map f page))

if_either {ℓ} :
    {A : Type ℓ} {b : Bool} {x y z : A}
    → (b ≡ true → x ≡ z)
    → (b ≡ false → y ≡ z)
    → (if b then x else y) ≡ z
if_either {b} l r = elim (Bool-cases b) [ inl t ↦ rw t (l t) | inr f ↦ rw f (r f) ]

keep-no_cursor : (stacks : List Stack) → keep (after_cursor none) stacks ≡ stacks
keep-no_cursor [] = refl
keep-no_cursor (s ∷ stacks) = ap (λ rest. s ∷ rest) (keep-no_cursor stacks)

-- The list after the last stack of a page goes on after the page.
keep-next :
    (rows : List Stack) (tenant : Text) (cursor : Option StackPageCursor) (s : Stack)
    (stacks : List Stack) (n : ℕ)
    → keep (after_cursor cursor) (list_stacks rows tenant) ≡ s ∷ stacks
    → InOrder stack_page_order_before (s ∷ stacks)
    → keep (after_cursor (some (cursor_of (last_of s (take n stacks))))) (list_stacks rows tenant)
      ≡ drop n stacks
keep-next rows tenant cursor s stacks n k o =
    let last = last_of s (take n stacks) in
    let kept : All (λ t. after_cursor cursor t ≡ true) (s ∷ stacks) =
      subst (All (λ t. after_cursor cursor t ≡ true)) k
        (keep-All (after_cursor cursor) (list_stacks rows tenant)) in
    let reached : after_cursor cursor last ≡ true =
      All-last_of (λ t. after_cursor cursor t ≡ true) s n stacks kept in
    rw (fun_ext (after_cursor-cursor_of last)) (
      sym (
        keep-keep (after_cursor cursor) (stack_page_order_before last) (list_stacks rows tenant)
          (λ t later. after_cursor_trans cursor last t reached later))
      ∙ ap (keep (stack_page_order_before last)) k
      ∙ keep-last_of s n stacks o)

append-keep :
    (f : Stack → Bool) (accessible page rest whole : List Stack)
    → page ++ rest ≡ whole
    → (accessible ++ keep f page) ++ keep f rest ≡ accessible ++ keep f whole
append-keep f accessible page rest whole e =
    append_assoc accessible (keep f page) (keep f rest)
    ∙ ap (λ stacks. accessible ++ stacks) (sym (keep-append f page rest) ∙ ap (keep f) e)

module _ (server : Server) (decide : TupleKey → Bool) (faithful : IsFaithful server decide)
    (sub : Chars) (subject : Subject) (named : subject_from_oidc_sub sub ≡ ok subject) where
  abbrev may_view : Stack → Bool
  may_view s = decide (check_key subject (view_check s))

  visible_of_page_lem :
      (cursor : Option StackPageCursor) (s : Stack) (stacks : List Stack)
      → length (s ∷ stacks) ≤ page_size
      → advances cursor s ≡ true
      → InOrder stack_page_order_before (s ∷ stacks)
      → All NamesObject (s ∷ stacks)
      → visible_of_page server sub cursor s stacks ≡ ok (keep may_view (s ∷ stacks))
  unfolding visible_of_page
  visible_of_page_lem cursor s stacks short forward ordered names =
      let page = s ∷ stacks in
      let fits : not (ltb page_size (length page)) ≡ true = ground arith in
      let answers =
        can_all-decided server decide faithful sub subject (map view_check page) named
          (all-view_checks page names) in
      let in_order = strictly_ordered-InOrder page ordered in
      let checks = view_checks_lem page names in
      rw (fits, forward, in_order, checks, answers)
        (page_answer may_view page _
          (map-map (λ check. decide (check_key subject check)) view_check page))

  -- The loop, from a cursor after which the list goes on with the given stacks.
  visible_stacks_lem :
      (rows : List Stack) (tenant : Text)
      → Unlike same_id rows
      → (fuel : ℕ) (cursor : Option StackPageCursor) (rest accessible : List Stack)
      → keep (after_cursor cursor) (list_stacks rows tenant) ≡ rest
      → InOrder stack_page_order_before rest
      → All NamesObject rest
      → length rest < fuel
      → visible_stacks fuel server sub rows tenant cursor accessible
        ≡ some (ok (accessible ++ keep may_view rest))
  unfolding visible_stacks read_candidates
  visible_stacks_lem rows tenant unique zero cursor rest accessible k o n h = absurd (omega arith)
  visible_stacks_lem rows tenant unique (suc fuel) cursor [] accessible k o n h =
      rw (list_stacks_page_lem rows tenant unique cursor page_size, k)
        (ap (λ stacks. some (ok stacks)) (sym (append-nil accessible)))
  visible_stacks_lem rows tenant unique (suc fuel) cursor (s ∷ stacks) accessible k o n h =
      let page = take 49 stacks in
      let rest = drop 49 stacks in
      let forward : advances cursor s ≡ true =
        advances-after_cursor cursor s
        ∙ (subst (All (λ t. after_cursor cursor t ≡ true)) k
            (keep-All (after_cursor cursor) (list_stacks rows tenant))).0 in
      let shown =
        visible_of_page_lem cursor s page (omega (arith, length-take_le 49 stacks)) forward
          (InOrder-take stack_page_order_before 50 (s ∷ stacks) o)
          (All-take NamesObject 50 (s ∷ stacks) n) in
      let later =
        visible_stacks_lem rows tenant unique fuel (some (cursor_of (last_of s page))) rest
          (accessible ++ keep may_view (s ∷ page)) (keep-next rows tenant cursor s stacks 49 k o)
          (InOrder-drop stack_page_order_before 50 (s ∷ stacks) o)
          (All-drop NamesObject 50 (s ∷ stacks) n) (omega (arith, length-drop_le 49 stacks)) in
      rw (list_stacks_page_lem rows tenant unique cursor page_size, k, shown)
        (if_either
          (λ short.
            let whole : s ∷ page ≡ s ∷ stacks =
              take_short 50 (s ∷ stacks) (ltb→lt (length (s ∷ page)) page_size short) in
            ap (λ found. some (ok (accessible ++ keep may_view found))) whole)
          (λ full.
            later
            ∙ ap (λ found. some (ok found))
                (append-keep may_view accessible (s ∷ page) rest (s ∷ stacks)
                  (append-take-drop 50 (s ∷ stacks)))))

-- Where the tenant's stacks have different identifiers, all fit for a tuple, the server decides a
-- question the same way alone and within a batch, and there is fuel for more rounds than there are
-- stacks, the paged listing of a signed-in subject returns, for an administrator, every stack of the
-- tenant, and for anyone else exactly the stacks of the tenant that the server lets it view, in the order
-- of the whole list.
pub list_accessible_stacks-visible :
    (server : Server) (decide : TupleKey → Bool)
    → IsFaithful server decide
    → (sub : Chars) (subject : Subject) → subject_from_oidc_sub sub ≡ ok subject
    → (rows : List Stack) (tenant : Text) → Unlike same_id rows
    → All NamesObject (list_stacks rows tenant)
    → (fuel : ℕ) → length (list_stacks rows tenant) < fuel
    → list_accessible_stacks fuel (signed_in sub server) rows tenant
      ≡ some (
          ok (
            if decide (check_key subject administer_check)
            then list_stacks rows tenant
            else keep (λ s. decide (check_key subject (view_check s))) (list_stacks rows tenant)))
unfolding list_accessible_stacks
list_accessible_stacks-visible server decide faithful sub subject named rows tenant unique names
      fuel h =
    rw
      (
        signed_in_lem sub server named,
        check_platform-decided server decide faithful sub subject named,
      )
      (elim (Bool-cases (decide (check_key subject administer_check))) [
        | inl administrator ↦ rw administrator refl
        | inr other ↦ rw other (
            visible_stacks_lem server decide faithful sub subject named rows tenant unique fuel none
              (list_stacks rows tenant) [] (keep-no_cursor (list_stacks rows tenant))
              (list_stacks-InOrder rows tenant unique) names h)
      ])
