-- ===== src/Authorization/Checks.antt =====
-- Can and CanAll of internal/authorization/authorization.go.
use tflive.Common.{ℕ, zero, suc, ◌==◌, Bool, ◌&&◌, List, [], ◌∷◌, ◌++◌, Option, none, some, length}
use tflive.Common.Results.{ok, err, ◌>>=◌, ◌>>◌, guard, or_fail}
use tflive.Common.{take}
use tflive.Common.Chars.{Chars}
use tflive.Authorization.Vocabulary.{
  AuthError, Checked, Subject, Object, object_valid, string_of, subject_from_oidc_sub,
}
use tflive.Authorization.Relations.{Relation, relation_valid}
use tflive.Authorization.Server.{
  Server, TupleKey, CheckAnswer, BatchItem, ItemAnswer, BatchResult, result_at,
  max_checks_per_batch,
}

pub record Check : Type 0 where
  pub relation : Relation
  pub object : Object

abbrev pub check_key : Subject → Check → TupleKey
check_key subject check = record {
  user = string_of subject.identifier;
  relation = check.relation.value;
  object = string_of check.object.identifier;
}

abbrev pub check_valid : Check → Bool
check_valid check = relation_valid check.relation && object_valid check.object

-- Only a decision of the server is an answer.
abbrev pub decision : CheckAnswer → Checked Bool
decision CheckAnswer.check_failed = err AuthError.server_failed
decision CheckAnswer.check_silent = err AuthError.no_response
decision (CheckAnswer.decided allowed) = ok allowed

unfoldable pub can : Server → Chars → Check → Checked Bool
can server subject check = do
  subject_id ← subject_from_oidc_sub subject
  guard (check_valid check) AuthError.invalid_input
  decision (server.check (check_key subject_id check))

-- The questions of a batch, numbered by their place in it.
unfoldable pub batch_items : Subject → ℕ → List Check → Checked (List BatchItem)
batch_items subject index [] = ok []
batch_items subject index (check ∷ checks) = do
  guard (check_valid check) AuthError.invalid_input
  items ← batch_items subject (suc index) checks
  ok (record { key = check_key subject check; correlation_id = index } ∷ items)

abbrev pub item_decision : Option ItemAnswer → Checked Bool
item_decision none = err AuthError.missing_result
item_decision (some ItemAnswer.item_failed) = err AuthError.failed_result
item_decision (some (ItemAnswer.item_decided allowed)) = ok allowed

-- The answers, read in the order of the questions.
unfoldable pub read_results : BatchResult → ℕ → List Check → Checked (List Bool)
read_results answers index [] = ok []
read_results answers index (check ∷ checks) = do
  allowed ← item_decision (result_at answers index)
  rest ← read_results answers (suc index) checks
  ok (allowed ∷ rest)

unfoldable pub check_batch : Server → Subject → List Check → Checked (List Bool)
check_batch server subject chunk = do
  items ← batch_items subject 0 chunk
  answers ← or_fail (server.batch_check items) AuthError.server_failed
  guard (length answers == length chunk) AuthError.wrong_result_count
  read_results answers 0 chunk

-- The loop over the batches. The number counts the questions that the last batch has answered.
unfoldable pub check_batches : Server → Subject → ℕ → List Check → Checked (List Bool)
check_batches server subject zero [] = ok []
check_batches server subject (suc answered) [] = ok []
check_batches server subject zero (check ∷ checks) = do
  answers ← check_batch server subject (take max_checks_per_batch (check ∷ checks))
  rest ← check_batches server subject 49 checks
  ok (answers ++ rest)
check_batches server subject (suc answered) (check ∷ checks) =
    check_batches server subject answered checks

unfoldable pub can_all : Server → Chars → List Check → Checked (List Bool)
can_all server subject [] = ok []
can_all server subject (check ∷ checks) = do
  subject_id ← subject_from_oidc_sub subject
  check_batches server subject_id 0 (check ∷ checks)
