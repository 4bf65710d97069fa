-- ===== src/Authorization/Batches.antt =====
-- CanAll against Can: the batches give what one question at a time gives.
use tflive.Common.{
  ℕ, zero, suc, ◌≤◌, ◌<◌, ==-refl, ◌≡◌, refl, sym, ◌∙◌, Bool, true, List, [], ◌∷◌, ◌++◌, map, some,
  arith, Bool-cases, inl, inr, All, all, all-take-drop, map-take-drop, length-take_le,
  if◌then◌else◌, length, take, drop, ◌≢◌,
}
use tflive.Common.Results.{ok, err, ◌>>=◌, Result-cases, each}
use tflive.Common.Chars.{Chars}
use tflive.Authorization.Vocabulary.{AuthError, Checked, Subject, subject_from_oidc_sub}
use tflive.Authorization.Server.{
  Server, TupleKey, BatchItem, ItemAnswer, BatchResult, result_at, Distinct, IsFaithful,
  max_checks_per_batch,
}
use tflive.Authorization.Checks.{
  Check, check_key, check_valid, can, can_all, batch_items, read_results, check_batch,
  check_batches,
}

module _ (server : Server) (decide : TupleKey → Bool) (faithful : IsFaithful server decide)
    (subject : Subject) where
  decided : Check → Bool
  decided check = decide (check_key subject check)

  -- What the server decides of valid questions; no answers if a question is not valid.
  answers_of : List Check → Checked (List Bool)
  answers_of checks =
      if all check_valid checks then ok (map decided checks) else err AuthError.invalid_input

  answers_of-take-drop :
      (n : ℕ) (checks : List Check)
      → answers_of checks ≡ (
          answers_of (take n checks) >>= λ answers.
          answers_of (drop n checks) >>= λ rest. ok (answers ++ rest))
  unfolding answers_of
  answers_of-take-drop n checks =
      ground (arith, all-take-drop check_valid n checks, map-take-drop decided n checks)

  numbered : ℕ → List Check → List BatchItem
  numbered index [] = []
  numbered index (check ∷ checks) =
      record { key = check_key subject check; correlation_id = index } ∷ numbered (suc index) checks

  batch_items-numbered :
      (index : ℕ) (checks : List Check)
      → batch_items subject index checks ≡ (
          if all check_valid checks
          then ok (numbered index checks)
          else err AuthError.invalid_input)
  unfolding batch_items numbered
  batch_items-numbered index [] = refl
  batch_items-numbered index (check ∷ checks) =
      ground (arith, batch_items-numbered (suc index) checks)

  numbered_above :
      (low index : ℕ) (checks : List Check)
      → low < index
      → All (λ item. low ≢ item.correlation_id) (numbered index checks)
  unfolding numbered
  numbered_above low index [] h = tt
  numbered_above low index (check ∷ checks) h =
      (λ e. absurd (omega arith), numbered_above low (suc index) checks (omega arith))

  numbered-Distinct : (index : ℕ) (checks : List Check) → Distinct (numbered index checks)
  unfolding numbered
  numbered-Distinct index [] = tt
  numbered-Distinct index (check ∷ checks) =
      (numbered_above index (suc index) checks (omega arith), numbered-Distinct (suc index) checks)

  length-numbered :
      (index : ℕ) (checks : List Check) → length (numbered index checks) ≡ length checks
  unfolding numbered
  length-numbered index [] = refl
  length-numbered index (check ∷ checks) = omega (arith, length-numbered (suc index) checks)

  read_results_lem :
      (answers : BatchResult) (index : ℕ) (checks : List Check)
      → All
          (λ item.
            result_at answers item.correlation_id
            ≡ some (ItemAnswer.item_decided (decide item.key)))
          (numbered index checks)
      → read_results answers index checks ≡ ok (map decided checks)
  unfolding read_results numbered decided
  read_results_lem answers index [] h = refl
  read_results_lem answers index (check ∷ checks) h =
      rw (h.0) (rw (read_results_lem answers (suc index) checks h.1) refl)

  check_batch_lem :
      (chunk : List Check)
      → length chunk ≤ max_checks_per_batch
      → check_batch server subject chunk ≡ answers_of chunk
  unfolding check_batch answers_of
  check_batch_lem chunk short =
      let (answers, asked, counted, answered) =
        faithful.batches (numbered 0 chunk) (omega (arith, length-numbered 0 chunk))
          (numbered-Distinct 0 chunk) in
      elim (Bool-cases (all check_valid chunk)) [
        | inl valid ↦
            rw (batch_items-numbered 0 chunk, valid, asked)
              (let same : length answers ≡ length chunk = omega (arith, length-numbered 0 chunk) in
                rw (same, ==-refl (length chunk)) (read_results_lem answers 0 chunk answered))
        | inr invalid ↦ rw (batch_items-numbered 0 chunk, invalid) refl
      ]

  check_batches_lem :
      (answered : ℕ) (checks : List Check)
      → check_batches server subject answered checks ≡ answers_of (drop answered checks)
  unfolding check_batches answers_of
  check_batches_lem zero [] = refl
  check_batches_lem (suc answered) [] = refl
  check_batches_lem zero (check ∷ checks) =
      rw
        (
          check_batch_lem (take 50 (check ∷ checks)) (length-take_le 50 (check ∷ checks)),
          check_batches_lem 49 checks,
        )
        (sym (answers_of-take-drop 50 (check ∷ checks)))
  check_batches_lem (suc answered) (check ∷ checks) = check_batches_lem answered checks

  each-answers_of :
      (sub : Chars)
      → subject_from_oidc_sub sub ≡ ok subject
      → (checks : List Check) → each (can server sub) checks ≡ answers_of checks
  unfolding each can answers_of decided
  each-answers_of sub named [] = refl
  each-answers_of sub named (check ∷ checks) =
      ground
        (arith, named, faithful.checks (check_key subject check), each-answers_of sub named checks)

each_none : (server : Server) (sub : Chars) → ok [] ≡ each (can server sub) []
unfolding each
each_none server sub = refl

each_refused :
    (server : Server) (sub : Chars) (check : Check) (checks : List Check) {failure : AuthError}
    → subject_from_oidc_sub sub ≡ err failure
    → each (can server sub) (check ∷ checks) ≡ err failure
unfolding each can
each_refused server sub check checks refused = rw refused refl

-- Against a server that decides a question the same way alone and within a batch, CanAll is Can at each
-- question in order: the same answers, and an error exactly where the first of these has one.
pub can_all-can :
    (server : Server) (decide : TupleKey → Bool)
    → IsFaithful server decide
    → (sub : Chars) (checks : List Check) → can_all server sub checks ≡ each (can server sub) checks
unfolding can_all
can_all-can server decide faithful sub [] = each_none server sub
can_all-can server decide faithful sub (check ∷ checks) =
    elim (Result-cases (subject_from_oidc_sub sub)) [
      | inl (subject, named) ↦ rw named (
          check_batches_lem server decide faithful subject 0 (check ∷ checks)
          ∙ sym (each-answers_of server decide faithful subject sub named (check ∷ checks)))
      | inr (failure, refused) ↦ rw refused (sym (each_refused server sub check checks refused))
    ]

-- The answers to valid questions of a subject that has an identifier.
pub can_all-decided :
    (server : Server) (decide : TupleKey → Bool)
    → IsFaithful server decide
    → (sub : Chars) (subject : Subject) (checks : List Check)
    → subject_from_oidc_sub sub ≡ ok subject
    → all check_valid checks ≡ true
    → can_all server sub checks ≡ ok (map (λ check. decide (check_key subject check)) checks)
unfolding answers_of decided
can_all-decided server decide faithful sub subject checks named valid =
    can_all-can server decide faithful sub checks
    ∙ each-answers_of server decide faithful subject sub named checks
    ∙ rw valid refl

pub can-decided :
    (server : Server) (decide : TupleKey → Bool)
    → IsFaithful server decide
    → (sub : Chars) (subject : Subject) (check : Check) → subject_from_oidc_sub sub ≡ ok subject
    → check_valid check ≡ true
    → can server sub check ≡ ok (decide (check_key subject check))
unfolding can
can-decided server decide faithful sub subject check named valid =
    ground (arith, named, faithful.checks (check_key subject check))
