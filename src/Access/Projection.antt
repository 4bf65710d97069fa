-- ===== src/Access/Projection.antt =====
-- The capabilities of many stacks of internal/app/authorization.go are those of each stack.
use tflive.Common.{
  if◌then◌else◌, ℕ, zero, suc, ◌*◌, ==-refl, ◌≡◌, refl, Bool, true, false, List, [], ◌∷◌, ◌++◌, map,
  arith, Bool-cases, inl, inr, All, all, length, length-append, drop,
}
use mathlib.Core.List.{append_assoc}
use tflive.Common.Results.{ok, ◌>>=◌, each}
use tflive.Common.Chars.{Chars, contains_any}
use tflive.Authorization.Vocabulary.{Subject, safe_tuple_token, subject_from_oidc_sub}
use tflive.Authorization.Relations.{
  relation_valid, relation_can_view, relation_can_operate, relation_can_approve,
  relation_can_manage_access,
}
use tflive.Authorization.Server.{Server, TupleKey, IsFaithful}
use tflive.Authorization.Checks.{Check, check_key, check_valid}
use tflive.Authorization.Batches.{can_all-decided}
use tflive.Access.Requests.{Answer, Caller}
use tflive.Access.Capabilities.{
  StackCapabilities, all_capabilities, stack_capability_relations, stack_capabilities_from,
  checks_on, batch_check_object, resolve_stack_capabilities, stacks_checks, decode_stacks,
  resolve_for, resolve_stacks_capabilities,
}
use tflive.Access.Questions.{
  stack_object, object_from_id-stack, object_valid-stack, signed_in, signed_in_lem,
  administer_check, check_platform-decided,
}
use tflive.Access.Visibility.{length-map}

-- A stack with the capabilities that the caller has on it alone.
abbrev pub resolve_entry : Caller → Chars → Answer (Chars × StackCapabilities)
resolve_entry caller id = do
  capabilities ← resolve_stack_capabilities caller id
  ok (id, capabilities)

abbrev full_entry : Chars → Chars × StackCapabilities
full_entry id = (id, all_capabilities)

drop-append {ℓ} : {A : Type ℓ} (n : ℕ) (xs ys : List A) → length xs ≡ n → drop n (xs ++ ys) ≡ ys
drop-append zero [] ys h = refl
drop-append zero (x ∷ xs) ys h = absurd (omega arith)
drop-append (suc n) [] ys h = absurd (omega arith)
drop-append (suc n) (x ∷ xs) ys h = drop-append n xs ys (omega arith)

abbrev stack_checks : Chars → List Check
stack_checks id = checks_on (stack_object id) stack_capability_relations

all_checks : List Chars → List Check
all_checks [] = []
all_checks (id ∷ stacks) = stack_checks id ++ all_checks stacks

abbrev Fits : Chars → Type 0
Fits id = safe_tuple_token id ≡ true

stacks_checks_lem :
    (stacks : List Chars) → All Fits stacks → stacks_checks stacks ≡ ok (all_checks stacks)
unfolding stacks_checks all_checks
stacks_checks_lem [] h = refl
stacks_checks_lem (id ∷ stacks) h =
    rw (object_from_id-stack id h.0, stacks_checks_lem stacks h.1) refl

stack_checks_valid : (id : Chars) → Fits id → all check_valid (stack_checks id) ≡ true
unfolding relation_valid safe_tuple_token contains_any
stack_checks_valid id h = rw (object_valid-stack id h) refl

all_checks_valid :
    (stacks : List Chars) → All Fits stacks → all check_valid (all_checks stacks) ≡ true
unfolding all_checks relation_valid safe_tuple_token contains_any
all_checks_valid [] h = refl
all_checks_valid (id ∷ stacks) h = rw (object_valid-stack id h.0) (all_checks_valid stacks h.1)

module _ (server : Server) (decide : TupleKey → Bool) (faithful : IsFaithful server decide)
    (sub : Chars) (subject : Subject) (named : subject_from_oidc_sub sub ≡ ok subject) where
  abbrev decided : Check → Bool
  decided check = decide (check_key subject check)

  abbrev capabilities : Chars → List Bool
  capabilities id = map decided (stack_checks id)

  batch_check_object_lem :
      (id : Chars)
      → Fits id
      → batch_check_object (signed_in sub server) (stack_object id) stack_capability_relations
        ≡ ok (capabilities id)
  unfolding batch_check_object
  batch_check_object_lem id h =
      rw
        (
          signed_in_lem sub server named,
          can_all-decided server decide faithful sub subject (stack_checks id) named
              (stack_checks_valid id h),
        )
        refl

  capabilities_of : Chars → StackCapabilities
  capabilities_of id = record {
    can_view = decided (record { relation = relation_can_view; object = stack_object id });
    can_operate = decided (record { relation = relation_can_operate; object = stack_object id });
    can_approve = decided (record { relation = relation_can_approve; object = stack_object id });
    can_manage_access =
        decided (record { relation = relation_can_manage_access; object = stack_object id });
  }

  abbrev entry : Chars → Chars × StackCapabilities
  entry id = (id, capabilities_of id)

  resolve_stack_lem :
      (id : Chars)
      → Fits id
      → resolve_stack_capabilities (signed_in sub server) id ≡ ok (capabilities_of id)
  unfolding resolve_stack_capabilities stack_capabilities_from capabilities_of
  resolve_stack_lem id h =
      rw (signed_in_lem sub server named, object_from_id-stack id h, batch_check_object_lem id h)
        refl

  -- The results of the stacks behind those of the stacks before them.
  decode_stacks_lem :
      (stacks : List Chars) (index : ℕ) (before : List Bool)
      → length before ≡ index * 4
      → decode_stacks (before ++ map decided (all_checks stacks)) index stacks
        ≡ ok (map entry stacks)
  unfolding decode_stacks all_checks stack_capabilities_from capabilities_of
  decode_stacks_lem [] index before h = refl
  decode_stacks_lem (id ∷ stacks) index before h =
      let rest =
        decode_stacks_lem stacks (suc index) (before ++ capabilities id)
          (omega (arith, length-append before (capabilities id))) in
      let shifted : decode_stacks (before ++ map decided (all_checks (id ∷ stacks))) (suc index)
            stacks
          ≡ ok (map entry stacks) =
        rw (append_assoc before (capabilities id) (map decided (all_checks stacks))) at rest in
      rw (drop-append (index * 4) before (map decided (all_checks (id ∷ stacks))) h, shifted) refl

  each-resolve_stack :
      (stacks : List Chars)
      → All Fits stacks
      → each (resolve_entry (signed_in sub server)) stacks ≡ ok (map entry stacks)
  unfolding each
  each-resolve_stack [] h = refl
  each-resolve_stack (id ∷ stacks) h =
      rw (resolve_stack_lem id h.0) (rw (each-resolve_stack stacks h.1) refl)

  resolve_for-other :
      (stacks : List Chars)
      → All Fits stacks
      → resolve_for (signed_in sub server) stacks false ≡ ok (map entry stacks)
  resolve_for-other stacks h =
      rw
        (
          signed_in_lem sub server named,
          stacks_checks_lem stacks h,
          can_all-decided server decide faithful sub subject (all_checks stacks) named
              (all_checks_valid stacks h),
          length-map decided (all_checks stacks),
          ==-refl (length (all_checks stacks)),
        )
        (decode_stacks_lem stacks 0 [] refl)

  resolve_stacks_lem :
      (stacks : List Chars)
      → All Fits stacks
      → resolve_stacks_capabilities (signed_in sub server) stacks ≡ (
          if decide (check_key subject administer_check)
          then ok (map full_entry stacks)
          else each (resolve_entry (signed_in sub server)) stacks)
  unfolding resolve_stacks_capabilities
  resolve_stacks_lem [] h = rw (each-resolve_stack [] h) (ground arith)
  resolve_stacks_lem (id ∷ stacks) h =
      rw
        (
          signed_in_lem sub server named,
          check_platform-decided server decide faithful sub subject named,
          each-resolve_stack (id ∷ stacks) h,
        )
        (elim (Bool-cases (decide (check_key subject administer_check))) [
          | inl administrator ↦ rw administrator refl
          | inr other ↦ rw other (resolve_for-other (id ∷ stacks) h)
        ])

-- For a signed-in subject and stacks whose identifiers fit for a tuple, on a server that decides a
-- question the same way alone and within a batch, the capabilities resolved for many stacks together are,
-- for a platform administrator, all capabilities of every stack, and for anyone else those resolved for
-- each stack alone, in either case in the order of the stacks.
pub resolve_stacks_capabilities-each :
    (server : Server) (decide : TupleKey → Bool)
    → IsFaithful server decide
    → (sub : Chars) (subject : Subject) → subject_from_oidc_sub sub ≡ ok subject
    → (stacks : List Chars) → All (λ id. safe_tuple_token id ≡ true) stacks
    → resolve_stacks_capabilities (signed_in sub server) stacks ≡ (
        if decide (check_key subject administer_check)
        then ok (map (λ id. (id, all_capabilities)) stacks)
        else each (resolve_entry (signed_in sub server)) stacks)
resolve_stacks_capabilities-each server decide faithful sub subject named stacks h =
    resolve_stacks_lem server decide faithful sub subject named stacks h
