-- ===== src/Authorization/Answers.antt =====
-- What ListGrants of internal/authorization/authorization.go answers.
use tflive.Common.{
  ℕ, zero, suc, ◌+◌, ◌≡◌, refl, sym, ap, Bool, true, List, [], ◌++◌, Option, none, some, arith,
  Bool-cases, inl, inr, count, count-append, All,
}
use tflive.Common.Results.{ok, err, or_fail, or_fail-eq-ok, >>=-eq-ok, Result-cases}
use tflive.Authorization.Vocabulary.{AuthError, Checked, Object, string_of, object_valid}
use tflive.Authorization.Relations.{Grant, grant_valid}
use tflive.Authorization.Server.{Server, Page, TupleKey}
use tflive.Authorization.Grants.{
  Progress, finished, more, next_page, read_page, read_pages, list_grants, add_grants,
  sorted_result, grant_before,
}
use tflive.Authorization.Listing.{IsListing, stored_grant, add_grants-IsListing, count-add_grants}
use tflive.Authorization.Sorting.{sort-grants-InOrder}
use tflive.Common.Sorting.{sort, InOrder, All-sort, count-sort}

-- The tuples of the pages from a token to the page that has no further token.
pub data ReadFrom (server : Server) (object : Object) : ℕ → List (Option TupleKey) → Type 0 where
  last_page :
      {token : ℕ} (page : Page)
      → server.read (string_of object.identifier) token ≡ some page
      → page.continuation_token ≡ 0
      → ReadFrom server object token page.tuples
  page_then :
      {token : ℕ} {tuples : List (Option TupleKey)} (page : Page)
      → server.read (string_of object.identifier) token ≡ some page
      → ReadFrom server object page.continuation_token tuples
      → ReadFrom server object token (page.tuples ++ tuples)

module _ (server : Server) (object : Object) (test : Grant → Bool) where
  next_page-finished :
      (grants found : List Grant) (seen : List ℕ) (token : ℕ)
      → next_page grants seen token ≡ ok (finished found)
      → (token ≡ 0) × (found ≡ grants)
  unfolding next_page
  next_page-finished grants found seen token e = ground arith

  next_page-more :
      (grants found : List Grant) (seen known : List ℕ) (token next : ℕ)
      → next_page grants seen token ≡ ok (more found known next)
      → (next ≡ token) × (found ≡ grants)
  unfolding next_page
  next_page-more grants found seen known token next e = ground arith

  -- What a page that was read without an error went through.
  read_page-eq-ok :
      (grants : List Grant) (seen : List ℕ) (token : ℕ) {progress : Progress}
      → read_page server object grants seen token ≡ ok progress
      → (page : Page) × (found : List Grant) × (server.read (string_of object.identifier) token
          ≡ some page)
        × (add_grants object page.tuples grants ≡ ok found)
        × (next_page found seen page.continuation_token ≡ ok progress)
  unfolding read_page
  read_page-eq-ok grants seen token e =
      let answer : Option Page = server.read (string_of object.identifier) token in
      let (page, got, e1) = >>=-eq-ok (or_fail answer AuthError.server_failed) _ e in
      let (found, added, e2) = >>=-eq-ok (add_grants object page.tuples grants) _ e1 in
      (page, found, or_fail-eq-ok answer AuthError.server_failed got, added, e2)

  -- The loop from a token on: the pages that it read and what it added to the grants it had.
  abbrev Collected : ℕ → List Grant → List Grant → Type 0
  Collected token grants found =
      (tuples : List (Option TupleKey)) × ReadFrom server object token tuples
      × IsListing object found
      × (count test found ≡ count test grants + count (stored_grant test object) tuples)

  read_pages-Collected :
      (fuel : ℕ) (grants : List Grant) (seen : List ℕ) (token : ℕ) {found : List Grant}
      → IsListing object grants
      → read_pages fuel server object grants seen token ≡ some (ok found)
      → Collected token grants found
  unfolding read_pages
  read_pages-Collected zero grants seen token h e = cc
  read_pages-Collected (suc fuel) grants seen token {found} h e =
      elim (Result-cases (read_page server object grants seen token)) [
        | inl (finished kept, p) ↦
            (let (page, added, got, adds, ends) = read_page-eq-ok grants seen token p in
              let (last, all_of) =
                next_page-finished added kept seen page.continuation_token ends in
              let same : found ≡ added = ground (arith, p, all_of) in
              rw same (
                page.tuples,
                last_page page got last,
                add_grants-IsListing object page.tuples grants h adds,
                count-add_grants test object page.tuples grants adds,
              ))
        | inl (more kept known next, p) ↦
            (let (page, added, got, adds, goes_on) = read_page-eq-ok grants seen token p in
              let (to_next, all_of) =
                next_page-more added kept seen known page.continuation_token next goes_on in
              let rest : Collected next kept found =
                read_pages-Collected fuel kept known next
                  (rw all_of (add_grants-IsListing object page.tuples grants h adds))
                  (ground arith) in
              let from : ReadFrom server object page.continuation_token rest.0 =
                rw (sym to_next) rest.1 in
              (
                page.tuples ++ rest.0,
                page_then page got from,
                rest.2,
                rw (count-append (stored_grant test object) page.tuples rest.0) (
                    omega (
                      arith,
                      rest.3,
                      ap (count test) all_of,
                      count-add_grants test object page.tuples grants adds,
                    )),
              ))
        | inr (failure, p) ↦ (let bad : ⊥ = ground arith in absurd bad)
      ]

sorted_result-eq-ok :
    (o : Option (Checked (List Grant))) {grants : List Grant}
    → sorted_result o ≡ some (ok grants)
    → (collected : List Grant) × (o ≡ some (ok collected)) × (grants ≡ sort grant_before collected)
sorted_result-eq-ok none e = cc
sorted_result-eq-ok (some (err failure)) e = cc
sorted_result-eq-ok (some (ok collected)) e = (collected, refl, ground arith)

list_grants-eq-ok :
    (fuel : ℕ) (server : Server) (object : Object) {grants : List Grant}
    → list_grants fuel server object ≡ some (ok grants)
    → (collected : List Grant) × (read_pages fuel server object [] [] 0 ≡ some (ok collected))
      × (grants ≡ sort grant_before collected)
unfolding list_grants
list_grants-eq-ok fuel server object e = elim (Bool-cases (object_valid object)) [
  | inl valid ↦ sorted_result-eq-ok (read_pages fuel server object [] [] 0) (rw valid at e)
  | inr bad ↦ (let bad : ⊥ = ground arith in absurd bad)
]

-- Where ListGrants returns grants, they are the grants among the tuples of all the pages from the first
-- to the one with no further token: every test on grants takes as many of them as of those tuples. Each
-- is a valid grant on the object asked about, and each comes strictly before those that follow it in the
-- order of subject and relation.
pub list_grants-answers :
    (test : Grant → Bool) (fuel : ℕ) (server : Server) (object : Object) (grants : List Grant)
    → list_grants fuel server object ≡ some (ok grants)
    → (tuples : List (Option TupleKey)) × ReadFrom server object 0 tuples
      × (count test grants ≡ count (stored_grant test object) tuples)
      × All (λ g. (grant_valid g ≡ true) × (g.object ≡ object)) grants
      × InOrder grant_before grants
list_grants-answers test fuel server object grants e =
    let (collected, read, sorted) = list_grants-eq-ok fuel server object e in
    let (tuples, pages, listing, counted) =
      read_pages-Collected server object test fuel [] [] 0
        (record { one_per_key = tt; of_object = tt }) read in
    (
      tuples,
      pages,
      rw sorted (omega (arith, count-sort grant_before test collected, counted)),
      rw sorted (All-sort grant_before _ collected listing.of_object),
      rw sorted (sort-grants-InOrder collected listing.one_per_key),
    )
