-- ===== src/Authorization/Paging.antt =====
-- ListGrants of internal/authorization/authorization.go comes to an end, whatever the server answers.
use tflive.Common.{
  ℕ, zero, suc, ◌+◌, ◌≤◌, ◌<◌, ◌==◌, ==_iff, ◌≡◌, refl, false, not, List, [], ◌∷◌, Option, none,
  some, arith, Bool-cases, inl, inr, any, bit,
}
use tflive.Common.Results.{ok, err, or_fail, or_fail-eq-ok, >>=-eq-ok, Result-cases}
use tflive.Common.Sorting.{sort}
use tflive.Authorization.Vocabulary.{AuthError, Checked, Object, string_of, object_valid}
use tflive.Authorization.Relations.{Grant}
use tflive.Authorization.Server.{Server, Page}
use tflive.Authorization.Grants.{
  finished, more, next_page, read_page, read_pages, list_grants, add_grants, sorted_result,
  grant_before,
}

-- How many tokens below the bound the loop has not seen.
unseen : ℕ → List ℕ → ℕ
unseen zero seen = 0
unseen (suc n) seen = bit (not (any (λ other. other == n) seen)) + unseen n seen

unseen_none : (bound : ℕ) → unseen bound [] ≡ bound
unfolding unseen
unseen_none zero = refl
unseen_none (suc n) = omega (arith, unseen_none n)

unseen-above :
    (bound token : ℕ) (seen : List ℕ)
    → bound ≤ token
    → unseen bound (token ∷ seen) ≡ unseen bound seen
unfolding unseen
unseen-above zero token seen h = refl
unseen-above (suc n) token seen h = ground (arith, unseen-above n token seen)

-- A new token is one fewer to come.
unseen-new :
    (bound token : ℕ) (seen : List ℕ)
    → token < bound
    → any (λ other. other == token) seen ≡ false
    → unseen bound (token ∷ seen) + 1 ≡ unseen bound seen
unfolding unseen
unseen-new zero token seen h new = absurd (omega arith)
unseen-new (suc n) token seen h new = elim (Bool-cases (token == n)) [
  | inl e ↦
      (let same : token ≡ n = (==_iff token n).0 e in
        ground (arith, same, unseen-above n token seen))
  | inr other ↦ ground (arith, unseen-new n token seen)
]

next_page-more :
    (bound : ℕ) (found grants : List Grant) (seen known : List ℕ) (token next : ℕ)
    → token < bound
    → next_page grants seen token ≡ ok (more found known next)
    → unseen bound known + 1 ≡ unseen bound seen
unfolding next_page
next_page-more bound found grants seen known token next h e =
    ground (arith, unseen-new bound token seen)

module _ (server : Server) (object : Object) (bound : ℕ)
    (below : (token : ℕ) (page : Page)
      → server.read (string_of object.identifier) token ≡ some page
      → page.continuation_token < bound) where
  -- A page that does not end the loop has a token that is new.
  read_page-more :
      (grants found : List Grant) (seen known : List ℕ) (token next : ℕ)
      → read_page server object grants seen token ≡ ok (more found known next)
      → unseen bound known + 1 ≡ unseen bound seen
  unfolding read_page
  read_page-more grants found seen known token next e =
      let (page, got, e1) =
        >>=-eq-ok
          (or_fail (server.read (string_of object.identifier) token) AuthError.server_failed) _ e in
      let (kept, added, e2) = >>=-eq-ok (add_grants object page.tuples grants) _ e1 in
      next_page-more bound found kept seen known page.continuation_token next
        (below token page (or_fail-eq-ok _ _ got)) e2

  read_pages_total :
      (fuel : ℕ) (grants : List Grant) (seen : List ℕ) (token : ℕ)
      → unseen bound seen < fuel
      → (r : Checked (List Grant)) × (read_pages fuel server object grants seen token ≡ some r)
  unfolding read_pages
  read_pages_total zero grants seen token h = absurd (omega arith)
  read_pages_total (suc fuel) grants seen token h =
      elim (Result-cases (read_page server object grants seen token)) [
        | inl (finished found, e) ↦ (ok found, rw e refl)
        | inl (more found known next, e) ↦ rw e (
            read_pages_total fuel found known next
              (omega (arith, read_page-more grants found seen known token next e)))
        | inr (failure, e) ↦ (err failure, rw e refl)
      ]

sorted_result_total :
    (o : Option (Checked (List Grant))) {r : Checked (List Grant)}
    → o ≡ some r
    → (s : Checked (List Grant)) × (sorted_result o ≡ some s)
sorted_result_total none e = cc
sorted_result_total (some (err failure)) e = (err failure, refl)
sorted_result_total (some (ok grants)) e = (ok (sort grant_before grants), refl)

-- If all continuation tokens that the server gives for the object are below a bound, so that there are
-- finitely many, then ListGrants returns within one more round than the bound, whatever the pages hold.
pub list_grants_total :
    (server : Server) (object : Object) (bound : ℕ)
    → ((token : ℕ) (page : Page)
        → server.read (string_of object.identifier) token ≡ some page
        → page.continuation_token < bound)
    → (r : Checked (List Grant)) × (list_grants (suc bound) server object ≡ some r)
unfolding list_grants
list_grants_total server object bound below = elim (Bool-cases (object_valid object)) [
  | inl valid ↦ rw valid (
      sorted_result_total (read_pages (suc bound) server object [] [] 0)
        (read_pages_total server object bound below (suc bound) [] [] 0
          (omega (arith, unseen_none bound))).1)
  | inr bad ↦ (err AuthError.invalid_input, rw bad refl)
]
