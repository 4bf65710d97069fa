-- ===== src/Service/Configs.antt =====
-- The states of a stack template, of internal/domain/stack_template.go, and validateTemplateConfig and
-- carryForwardConfig of internal/app/service.go.
use tflive.Common.{
  ℕ, ◌==◌, Bool, true, false, not, List, [], ◌∷◌, Option, none, some, if◌then◌else◌, any, all,
}
use tflive.Common.Results.{Result, ok, err, ◌>>=◌, ◌>>◌, guard, or_fail}
use tflive.Domain.{Text, no_text}
use tflive.RunStore.Rows.{StackTemplate}
use tflive.RunStore.Create.{default_json}
use tflive.Service.State.{
  Json, Decoded, TemplateVariable, ServiceError, stack_template_config_invalid, not_encoded,
}

unfoldable pub desired_config : StackTemplate → Text
desired_config s = default_json s.desired_config_json

-- `PlanNone` is `unplanned`.
pub data PlanState : Type 0 where
  unplanned stale matches : PlanState

abbrev pub plan_matches : PlanState → Bool
plan_matches PlanState.matches = true
plan_matches _ = false

pub data LiveState : Type 0 where
  never differs matches : LiveState

-- A recorded pair; no config is nil.
pub record Snapshot : Type 0 where
  pub revision_id : Text
  pub config_json : Option Text

abbrev pub planned_snapshot : StackTemplate → Snapshot
planned_snapshot s = record {
  revision_id = s.pending_plan_template_revision_id;
  config_json = s.pending_plan_config_json;
}

abbrev pub applied_snapshot : StackTemplate → Snapshot
applied_snapshot s = record {
  revision_id = s.last_applied_template_revision_id;
  config_json = s.last_applied_config_json;
}

abbrev pub same_value : Option ℕ → Option ℕ → Bool
same_value (some v) (some w) = v == w
same_value _ _ = false

-- `sameJSONConfig`.
unfoldable pub same_json_config : Json → Text → Text → Bool
same_json_config json left right =
    same_value (json.parse (default_json left)) (json.parse (default_json right))

abbrev pub same_recorded_config : Json → Option Text → Text → Bool
same_recorded_config json none desired = false
same_recorded_config json (some config_json) desired = same_json_config json config_json desired

unfoldable pub matches_desired : Json → StackTemplate → Snapshot → Bool
unfolding same_json_config
matches_desired json s recorded =
    if not (recorded.revision_id == s.desired_template_revision_id)
    then false
    else same_recorded_config json recorded.config_json (desired_config s)

unfoldable pub plan_state : Json → StackTemplate → PlanState
plan_state json s =
    if s.pending_plan_run_id == no_text
    then PlanState.unplanned
    else if matches_desired json s (planned_snapshot s)
    then PlanState.matches
    else PlanState.stale

unfoldable pub live_state : Json → StackTemplate → LiveState
live_state json s =
    if s.last_applied_run_id == no_text
    then LiveState.never
    else if matches_desired json s (applied_snapshot s)
    then LiveState.matches
    else LiveState.differs

-- An entry of a decoded object.
abbrev pub value_of : Text → List (Text × Text) → Option Text
value_of name [] = none
value_of name ((n, value) ∷ entries) = if n == name then some value else value_of name entries

abbrev pub is_declared : List TemplateVariable → Text → Bool
is_declared variables name = any (λ v. v.name == name) variables

-- The loop over the config: each name is declared, and no value is null.
abbrev pub entry_allowed : Json → List TemplateVariable → Text × Text → Bool
entry_allowed json variables (name, value) =
    if is_declared variables name then not (value == json.null) else false

abbrev pub is_given : Json → Option Text → Bool
is_given json none = false
is_given json (some value) = not (value == json.null)

-- The loop over the variables: a required one is given.
abbrev pub variable_satisfied : Json → List (Text × Text) → TemplateVariable → Bool
variable_satisfied json entries v =
    if v.required then is_given json (value_of v.name entries) else true

unfoldable pub config_allowed : Json → List TemplateVariable → List (Text × Text) → Bool
config_allowed json variables entries =
    if all (entry_allowed json variables) entries
    then all (variable_satisfied json entries) variables
    else false

abbrev pub config_entries : Decoded → Result ServiceError (List (Text × Text))
config_entries Decoded.not_an_object = err stack_template_config_invalid
config_entries Decoded.null_object = err stack_template_config_invalid
config_entries (Decoded.object entries) = ok entries

-- The first violation that a loop over a Go map meets is any of them; all are the same error.
unfoldable pub validate_template_config :
    Json → Text → List TemplateVariable → Result ServiceError Text
validate_template_config json raw variables = do
  entries ← config_entries (json.decode (default_json raw))
  guard (config_allowed json variables entries) stack_template_config_invalid
  or_fail (json.encode entries) not_encoded

abbrev pub current_entries : Decoded → Result ServiceError (List (Text × Text))
current_entries Decoded.not_an_object = err stack_template_config_invalid
current_entries Decoded.null_object = ok []
current_entries (Decoded.object entries) = ok entries

-- `carried[variable.Name] = value`.
abbrev pub carry : Text → Option Text → List (Text × Text) → List (Text × Text)
carry name none carried = carried
carry name (some value) carried = (name, value) ∷ carried

-- Variables of a revision have different names, so a name is carried once.
unfoldable pub carried_entries : List TemplateVariable → List (Text × Text) → List (Text × Text)
carried_entries [] current = []
carried_entries (v ∷ variables) current =
    carry v.name (value_of v.name current) (carried_entries variables current)

unfoldable pub carry_forward_config : Json → Text → List TemplateVariable → Result ServiceError Text
carry_forward_config json desired variables = do
  current ← current_entries (json.decode (default_json desired))
  or_fail (json.encode (carried_entries variables current)) not_encoded
