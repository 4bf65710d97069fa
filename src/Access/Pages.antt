-- ===== src/Access/Pages.antt =====
-- The pages of stacks of internal/postgres/repositories.go: each is what follows its cursor.
use tflive.Common.{
  ℕ, zero, suc, ◌==◌, ◌≡◌, refl, ap, Bool, true, false, List, [], ◌∷◌, Option, none, some, arith,
  Bool-cases, inl, inr, All, All-keep, keep, keep-and, keep_all, take, drop,
}
use tflive.Common.Chars.{same_chars, before_trans, before_irrefl, before_total, same_chars_sym}
use tflive.Common.Sorting.{Unlike, InOrder, sort-InOrder, keep-sort}
use tflive.Domain.{Text}
use tflive.Access.Stacks.{
  Stack, StackPageCursor, stack_page_order_before, list_stacks, list_stacks_page, after_cursor,
  cursor_of, last_of, advances, strictly_ordered,
}

-- Stacks with the same identifier, which is the primary key.
abbrev pub same_id : Stack → Stack → Bool
same_id s t = same_chars s.id t.id

pub order_trans :
    (s t u : Stack)
    → stack_page_order_before s t ≡ true
    → stack_page_order_before t u ≡ true
    → stack_page_order_before s u ≡ true
unfolding stack_page_order_before
order_trans s t u h k = ground (arith, before_trans u.id t.id s.id)

pub order_total :
    (s t : Stack)
    → same_id s t ≡ false
    → stack_page_order_before t s ≡ false
    → stack_page_order_before s t ≡ true
unfolding stack_page_order_before
order_total s t h k = ground (arith, same_chars_sym s.id t.id, before_total s.id t.id)

order_irrefl : (s : Stack) → stack_page_order_before s s ≡ false
unfolding stack_page_order_before
order_irrefl s = ground (arith, before_irrefl s.id)

order_asym :
    (s t : Stack) → stack_page_order_before s t ≡ true → stack_page_order_before t s ≡ false
order_asym s t h = elim (Bool-cases (stack_page_order_before t s)) [
  | inl e ↦ cc (order_trans s t s h e, order_irrefl s)
  | inr e ↦ e
]

-- The condition of the query is the order after the cursor's stack.
pub after_cursor-cursor_of :
    (s t : Stack) → after_cursor (some (cursor_of s)) t ≡ stack_page_order_before s t
unfolding stack_page_order_before
after_cursor-cursor_of s t = ground arith

pub advances-after_cursor :
    (cursor : Option StackPageCursor) (t : Stack) → advances cursor t ≡ after_cursor cursor t
unfolding stack_page_order_before
advances-after_cursor none t = refl
advances-after_cursor (some cursor) t = ground arith

pub after_cursor_trans :
    (cursor : Option StackPageCursor) (t u : Stack)
    → after_cursor cursor t ≡ true
    → stack_page_order_before t u ≡ true
    → after_cursor cursor u ≡ true
unfolding stack_page_order_before
after_cursor_trans none t u h k = refl
after_cursor_trans (some cursor) t u h k = ground (arith, before_trans u.id t.id cursor.id)

pub All-last_of {κ} :
    (P : Stack → Type κ) (s : Stack) (n : ℕ) (stacks : List Stack)
    → All P (s ∷ stacks)
    → P (last_of s (take n stacks))
All-last_of P s zero stacks h = h.0
All-last_of P s (suc n) [] h = h.0
All-last_of P s (suc n) (t ∷ stacks) h = All-last_of P t n stacks h.1

pub strictly_ordered-InOrder :
    (stacks : List Stack) → InOrder stack_page_order_before stacks → strictly_ordered stacks ≡ true
unfolding strictly_ordered
strictly_ordered-InOrder [] h = refl
strictly_ordered-InOrder (s ∷ []) h = refl
strictly_ordered-InOrder (s ∷ t ∷ stacks) h = rw h.0.0 (strictly_ordered-InOrder (t ∷ stacks) h.1)

-- In a list in order, what comes after the last stack of a page is what follows the page.
pub keep-last_of :
    (s : Stack) (n : ℕ) (stacks : List Stack)
    → InOrder stack_page_order_before (s ∷ stacks)
    → keep (stack_page_order_before (last_of s (take n stacks))) (s ∷ stacks) ≡ drop n stacks
keep-last_of s zero stacks h = rw (order_irrefl s) (keep_all (stack_page_order_before s) stacks h.0)
keep-last_of s (suc n) [] h = rw (order_irrefl s) refl
keep-last_of s (suc n) (t ∷ stacks) h =
    rw (order_asym s (last_of t (take n stacks)) (All-last_of _ t n stacks h.0))
      (keep-last_of t n stacks h.1)

module _ (rows : List Stack) (tenant : Text) (unique : Unlike same_id rows) where
  Unlike-keep :
      (test : Stack → Bool) (stacks : List Stack)
      → Unlike same_id stacks
      → Unlike same_id (keep test stacks)
  Unlike-keep test [] h = tt
  Unlike-keep test (s ∷ stacks) h = elim (Bool-cases (test s)) [
    | inl e ↦ rw e (All-keep _ test stacks h.0, Unlike-keep test stacks h.1)
    | inr e ↦ rw e (Unlike-keep test stacks h.1)
  ]

  pub list_stacks-InOrder : InOrder stack_page_order_before (list_stacks rows tenant)
  unfolding list_stacks
  list_stacks-InOrder =
      sort-InOrder stack_page_order_before same_id order_trans order_total _
        (Unlike-keep (λ s. s.tenant_id == tenant) rows unique)

  -- A page holds the first stacks of the list that come after the cursor.
  pub list_stacks_page_lem :
      (cursor : Option StackPageCursor) (limit : ℕ)
      → list_stacks_page rows tenant cursor limit
        ≡ take limit (keep (after_cursor cursor) (list_stacks rows tenant))
  unfolding list_stacks_page list_stacks
  list_stacks_page_lem cursor limit =
      rw (keep-and (λ s. s.tenant_id == tenant) (after_cursor cursor) rows) (
        ap (take limit) (
          keep-sort stack_page_order_before same_id order_trans order_total (after_cursor cursor)
            (keep (λ s. s.tenant_id == tenant) rows)
            (Unlike-keep (λ s. s.tenant_id == tenant) rows unique)))
