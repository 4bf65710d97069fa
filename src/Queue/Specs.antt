-- ===== src/Queue/Specs.antt =====
-- internal/queue/queue.go and registry.go: requests, and the specs by which a kind derives the key of its work.
use tflive.Common.{◌==◌, Bool, true, false, not, List, [], ◌∷◌, Option, if◌then◌else◌, find?, any}
use tflive.Common.Results.{Result, ok, err, ◌>>=◌, ◌>>◌, guard, or_fail}
use tflive.Domain.{Text, no_text}

pub data Mode : Type 0 where
  reconcile job : Mode

abbrev pub is_job : Mode → Bool
is_job reconcile = false
is_job job = true

pub record Request : Type 0 where
  pub kind : Text
  pub payload : Text
  pub actor_subject : Text
  pub tenant_id : Text

-- `Spec`: `key` belongs to the kind, and fails on a payload that it cannot read. `has_key` is `Key != nil`.
pub record Spec : Type 0 where
  pub kind : Text
  pub mode : Mode
  pub has_key : Bool
  pub key : Text → Option Text

pub data SpecError : Type 0 where
  empty_kind no_key_derivation duplicate_spec : Text → SpecError
  unknown_kind underivable_key empty_key : Text → SpecError

-- The map of a SpecRegistry, one spec of a kind.
abbrev pub SpecRegistry : Type 0
SpecRegistry = List Spec

abbrev pub spec_of : Text → Spec → Bool
spec_of kind s = s.kind == kind

unfoldable pub index_specs : List Spec → SpecRegistry → Result SpecError SpecRegistry
index_specs [] indexed = ok indexed
index_specs (s ∷ ss) indexed =
    if s.kind == no_text
    then err (empty_kind s.kind)
    else if not s.has_key
    then err (no_key_derivation s.kind)
    else if any (spec_of s.kind) indexed
    then err (duplicate_spec s.kind)
    else index_specs ss (s ∷ indexed)

-- `NewSpecRegistry`.
unfoldable pub new_spec_registry : List Spec → Result SpecError SpecRegistry
unfolding index_specs
new_spec_registry specs = index_specs specs []

pub record Resolved : Type 0 where
  pub kind : Text
  pub key : Text
  pub mode : Mode
  pub payload : Text
  pub actor_subject : Text
  pub tenant_id : Text

-- `Resolve`.
unfoldable pub resolve : SpecRegistry → Request → Result SpecError Resolved
resolve specs request = do
  spec ← or_fail (find? (spec_of request.kind) specs) (unknown_kind request.kind)
  key ← or_fail (spec.key request.payload) (underivable_key request.kind)
  guard (not (key == no_text)) (empty_key request.kind)
  ok (record {
    kind = request.kind;
    key = key;
    mode = spec.mode;
    payload = request.payload;
    actor_subject = request.actor_subject;
    tenant_id = request.tenant_id;
  })
