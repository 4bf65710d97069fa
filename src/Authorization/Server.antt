-- ===== src/Authorization/Server.antt =====
-- What internal/authorization calls of OpenFGA: a server is what it answers. Its code is not part of
-- the repository; IsFaithful states what its documentation promises of the checks.
use tflive.Common.{
  ℕ, ◌==◌, ◌≤◌, ◌≡◌, ◌≢◌, Bool, List, [], ◌∷◌, Option, none, some, length, if◌then◌else◌,
}
use tflive.Common.{All}
use tflive.Common.Chars.{Chars}

pub record TupleKey : Type 0 where
  pub user : Chars
  pub relation : Chars
  pub object : Chars

-- The answer of a Check: an error, no response, or a decision.
pub data CheckAnswer : Type 0 where
  check_failed check_silent : CheckAnswer
  decided : Bool → CheckAnswer

-- A question of a batch. The correlation identifier is the decimal text of the number.
pub record BatchItem : Type 0 where
  pub key : TupleKey
  pub correlation_id : ℕ

pub data ItemAnswer : Type 0 where
  item_failed : ItemAnswer
  item_decided : Bool → ItemAnswer

-- The result of a batch is a map from correlation identifiers.
abbrev pub BatchResult : Type 0
BatchResult = List (ℕ × ItemAnswer)

abbrev pub result_at : BatchResult → ℕ → Option ItemAnswer
result_at [] id = none
result_at ((j, answer) ∷ rest) id = if j == id then some answer else result_at rest id

-- A page of stored tuples. A tuple may come without a key; the empty token ends the list.
pub record Page : Type 0 where
  pub tuples : List (Option TupleKey)
  pub continuation_token : ℕ

pub record Server : Type 0 where
  pub check : TupleKey → CheckAnswer
  pub batch_check : List BatchItem → Option BatchResult
  pub read : Chars → ℕ → Option Page

abbrev pub Distinct : List BatchItem → Type 0
Distinct [] = Unit
Distinct (item ∷ items) =
    All (λ other. item.correlation_id ≢ other.correlation_id) items × Distinct items

abbrev pub max_checks_per_batch : ℕ
max_checks_per_batch = 50

-- The server decides each key by its model, alone and within a batch: a batch of at most fifty
-- questions with different correlation identifiers has one answer for each.
pub record IsFaithful (server : Server) (decide : TupleKey → Bool) : Type 0 where
  pub checks : (key : TupleKey) → server.check key ≡ CheckAnswer.decided (decide key)
  pub batches :
      (items : List BatchItem)
      → length items ≤ max_checks_per_batch
      → Distinct items
      → (answers : BatchResult) × (server.batch_check items ≡ some answers)
        × (length answers ≡ length items)
        × All
            (λ item.
              result_at answers item.correlation_id
              ≡ some (ItemAnswer.item_decided (decide item.key)))
            items
