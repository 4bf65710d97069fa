-- ===== src/Tests/TupleList.antt =====
-- The stored tuples as a list, for the runs of the role commands, and that it keeps them as OpenFGA
-- documents.
use tflive.Common.{
  ℕ, ◌+◌, ◌≡◌, refl, ap, Bool, true, ◌&&◌, List, [], ◌∷◌, ◌++◌, Option, none, some, arith,
  Bool-cases, inl, inr, count, count-append, map, All, bit, if◌then◌else◌,
}
use tflive.Common.Results.{ok, ◌>>=◌, >>=-eq-ok}
use tflive.Common.Chars.{same_chars, same_chars_eq}
use tflive.Common.Sorting.{sort, All-sort, count-sort}
use tflive.Authorization.Vocabulary.{Checked, Object}
use tflive.Authorization.Relations.{Grant, grant_valid}
use tflive.Authorization.Server.{TupleKey}
use tflive.Authorization.Grants.{add_grants, grant_before}
use tflive.Authorization.Listing.{stored_grant, IsListing, add_grants-IsListing, count-add_grants}
use tflive.Roles.Commands.{TupleServer, KeepsTuples}
use tflive.Roles.Tuples.{stored}

-- Tuples in a list: a list of the grants reads them all, a write appends, a delete removes each key
-- once or does nothing.
unfoldable pub same_key : TupleKey → TupleKey → Bool
same_key a b =
    same_chars a.user b.user && same_chars a.relation b.relation && same_chars a.object b.object

abbrev pub put_back : TupleKey → Option (List TupleKey) → Option (List TupleKey)
put_back key none = none
put_back key (some rest) = some (key ∷ rest)

unfoldable pub remove_key : TupleKey → List TupleKey → Option (List TupleKey)
remove_key key [] = none
remove_key key (k ∷ tuples) =
    if same_key key k then some tuples else put_back k (remove_key key tuples)

abbrev pub and_then :
    Option (List TupleKey) → (List TupleKey → Option (List TupleKey)) → Option (List TupleKey)
and_then none next = none
and_then (some rest) next = next rest

unfoldable pub remove_keys : List TupleKey → List TupleKey → Option (List TupleKey)
remove_keys tuples [] = some tuples
remove_keys tuples (key ∷ keys) = and_then (remove_key key tuples) (λ rest. remove_keys rest keys)

unfoldable pub list_tuples : List TupleKey → Object → Checked (List Grant)
list_tuples tuples object =
    add_grants object (map (λ key. some key) tuples) [] >>= (λ gs. ok (sort grant_before gs))

abbrev pub tuple_list : TupleServer
tuple_list = record {
  list = list_tuples;
  write = λ tuples keys. some (tuples ++ keys);
  delete = remove_keys;
}

same_key_eq : (a b : TupleKey) → same_key a b ≡ true → a ≡ b
unfolding same_key
same_key_eq a b e = ground (
  arith,
  same_chars_eq a.user b.user,
  same_chars_eq a.relation b.relation,
  same_chars_eq a.object b.object,
)

count-put_back :
    (test : TupleKey → Bool) (k : TupleKey) (o : Option (List TupleKey)) {after : List TupleKey}
    → put_back k o ≡ some after
    → (rest : List TupleKey) × (o ≡ some rest) × (count test after ≡ bit (test k) + count test rest)
count-put_back test k none e = cc
count-put_back test k (some rest) e = (rest, refl, ground arith)

count-remove_key :
    (test : TupleKey → Bool) (key : TupleKey) (tuples after : List TupleKey)
    → remove_key key tuples ≡ some after
    → count test after + bit (test key) ≡ count test tuples
unfolding remove_key
count-remove_key test key [] after e = cc
count-remove_key test key (k ∷ tuples) after e = elim (Bool-cases (same_key key k)) [
  | inl same ↦ ground (arith, same_key_eq key k)
  | inr other ↦
      (let (rest, found, counted) = count-put_back test k (remove_key key tuples) (rw other at e) in
        omega (arith, counted, count-remove_key test key tuples rest found))
]

and_then-eq-some :
    (o : Option (List TupleKey)) (next : List TupleKey → Option (List TupleKey))
    {after : List TupleKey}
    → and_then o next ≡ some after
    → (rest : List TupleKey) × (o ≡ some rest) × (next rest ≡ some after)
and_then-eq-some none next e = cc
and_then-eq-some (some rest) next e = (rest, refl, e)

count-remove_keys :
    (test : TupleKey → Bool) (tuples keys after : List TupleKey)
    → remove_keys tuples keys ≡ some after
    → count test after + count test keys ≡ count test tuples
unfolding remove_keys
count-remove_keys test tuples [] after e = ground arith
count-remove_keys test tuples (key ∷ keys) after e =
    let (rest, removed, others) = and_then-eq-some (remove_key key tuples) _ e in
    omega (
      arith,
      count-remove_key test key tuples rest removed,
      count-remove_keys test rest keys after others,
    )

count-list_tuples :
    (test : Grant → Bool) (object : Object) (tuples : List TupleKey)
    → count (stored_grant test object) (map (λ key. some key) tuples)
      ≡ count (stored test object) tuples
count-list_tuples test object [] = refl
count-list_tuples test object (key ∷ tuples) =
    ap (λ (n : ℕ). bit (stored test object key) + n) (count-list_tuples test object tuples)

list_tuples_lem :
    (test : Grant → Bool) (tuples : List TupleKey) (object : Object) (grants : List Grant)
    → list_tuples tuples object ≡ ok grants
    → (count test grants ≡ count (stored test object) tuples)
      × All (λ g. (grant_valid g ≡ true) × (g.object ≡ object)) grants
unfolding list_tuples
list_tuples_lem test tuples object grants e =
    let stored_keys = map (λ (key : TupleKey). some key) tuples in
    let (found, read, sorted) = >>=-eq-ok (add_grants object stored_keys []) _ e in
    let result : grants ≡ sort grant_before found = ground arith in
    let listing : IsListing object found =
      add_grants-IsListing object stored_keys [] (record { one_per_key = tt; of_object = tt })
        read in
    (
      rw result (
          omega (
            arith,
            count-sort grant_before test found,
            count-add_grants test object stored_keys [] read,
            count-list_tuples test object tuples,
          )),
      rw result (All-sort grant_before _ found listing.of_object),
    )

appended :
    (test : TupleKey → Bool) (tuples keys after : List TupleKey)
    → ◌≡◌ {A = Option (List TupleKey)} (some (tuples ++ keys)) (some after)
    → count test after ≡ count test tuples + count test keys
appended test tuples keys after e =
    let result : after ≡ tuples ++ keys = ground arith in
    rw (result, count-append test tuples keys) refl

pub tuple_list-KeepsTuples : KeepsTuples tuple_list
tuple_list-KeepsTuples = record {
  lists = λ test tuples object grants e. list_tuples_lem test tuples object grants e;
  writes = λ test tuples keys after e. appended test tuples keys after e;
  deletes = count-remove_keys;
}
