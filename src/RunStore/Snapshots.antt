-- ===== src/RunStore/Snapshots.antt =====
-- What the pending and the applied snapshot of a stack template record: the revision and the config of
-- the run that they name.
pub mod Tables
pub mod Operations
use tflive.Common.{
  ℕ, ◌==◌, ◌&&◌, Bool, true, false, ◌≡◌, refl, arith, sym, ◌∙◌, ap, ◌⊎◌, inl, inr, List, [], ◌∷◌,
  Option, some, none, find?, replace, subst, find?-test, find?_unique, All, All-map, All-find?,
  All-replace, All-update_where, Bool-cases,
}
use tflive.Common.Results.{ok, err, or_fail, or_fail-eq-ok, guard, >>=-eq-ok}
use tflive.Domain.{
  Text, no_text, TemplateRunStatus, TemplateRunEvent, same_status, same_operation, OperationType,
  StackTemplateLifecycle, PlanOutcome, is_destroying,
}
use tflive.RunStore.Rows.{M, not_found, Run, StackTemplate, Database, is_run_of, is_stack_template}
use tflive.RunStore.Lifecycle.{Follows}
use tflive.RunStore.Lifecycle.Rows.{event_counts-Follows}
use tflive.RunStore.Status.{
  StatusInput, clear_pending, release_pending, record_lifecycle, record_interrupted_destroy,
  is_failed_destroy, settle_stack_templates, record_template_run_status, is_input_run, move_run,
  workflow_status_sources,
}
use tflive.RunStore.Progress.{
  EventInput, make_live, record_last_applied, event_stack_templates, event_counts, is_event_run,
  template_run_event_operations, record_template_run_event, record_template_run_step, run_step,
}
use tflive.RunStore.Plans.{
  FinishPlanInput, make_pending, is_template_of, finish_plan_stack_templates, is_planned_run,
  finish_plan_run, finish_template_plan, begin_template_apply, discard_template_run,
  approve_template_run,
}
use tflive.RunStore.History.{IsConsistent, has_id, Evolves, here, then}

-- No run is named, or the named run is stored, with this revision and config.
abbrev pub Names : List Run → Text → Text → Option Text → Type 0
Names runs run_id revision_id config_json =
    (run_id ≡ no_text)
    ⊎ ((r : Run) × (find? (has_id run_id) runs ≡ some r)
        × (revision_id ≡ r.template_revision_id)
        × (config_json ≡ some r.config_json))

abbrev pub Recorded : List Run → StackTemplate → Type 0
Recorded runs s =
    Names runs s.pending_plan_run_id s.pending_plan_template_revision_id s.pending_plan_config_json
    × Names runs s.last_applied_run_id s.last_applied_template_revision_id
        s.last_applied_config_json

-- The stored runs are found again, after writes along the lifecycle.
abbrev pub Kept : List Run → List Run → Type 0
Kept runs runs' =
    (id : Text) (r : Run)
    → find? (has_id id) runs ≡ some r
    → (r' : Run) × (find? (has_id id) runs' ≡ some r') × Evolves r r'

Evolves-snapshot :
    {r r' : Run}
    → Evolves r r'
    → (r'.template_revision_id ≡ r.template_revision_id) × (r'.config_json ≡ r.config_json)
Evolves-snapshot here = (refl, refl)
Evolves-snapshot (then p f) =
    let (same_revision, same_config) = Evolves-snapshot p in
    (f.same_revision ∙ same_revision, f.same_config ∙ same_config)

Names-Kept :
    (runs runs' : List Run) (run_id revision_id : Text) (config_json : Option Text)
    → Kept runs runs'
    → Names runs run_id revision_id config_json
    → Names runs' run_id revision_id config_json
Names-Kept runs runs' run_id revision_id config_json kept (inl h) = inl h
Names-Kept runs runs' run_id revision_id config_json kept (inr (r, found, revision, config)) =
    let (r', again, p) = kept run_id r found in
    let (same_revision, same_config) = Evolves-snapshot p in
    inr (r', again, revision ∙ sym same_revision, config ∙ ap some (sym same_config))

pub Recorded-Kept :
    (runs runs' : List Run) (ss : List StackTemplate)
    → Kept runs runs'
    → All (Recorded runs) ss
    → All (Recorded runs') ss
Recorded-Kept runs runs' ss kept =
    All-map ss λ s h. (Names-Kept runs runs' _ _ _ kept h.0, Names-Kept runs runs' _ _ _ kept h.1)

-- What the writes of a transaction keep of a stack template. A pending or applied snapshot is that of a
-- run of the table, which may have been written before.
pub record Stable (runs : List Run) (P : StackTemplate → Type 0) : Type 0 where
  pub on_lifecycle :
      (lifecycle : StackTemplateLifecycle) (s : StackTemplate)
      → P s
      → P (record s { lifecycle = lifecycle })
  pub on_clear : (s : StackTemplate) → P s → P (clear_pending s)
  pub on_pending :
      (now : ℕ) (r : Run)
      → find? (has_id r.id) runs ≡ some r
      → (s : StackTemplate) → P s
      → P (make_pending now r s)
  pub on_live :
      (now : ℕ) (r r' : Run)
      → find? (has_id r.id) runs ≡ some r
      → Follows r r'
      → (s : StackTemplate) → P s
      → P (make_live now r' s)

pub Recorded-Stable : (runs : List Run) → Stable runs (Recorded runs)
Recorded-Stable runs = record {
  on_lifecycle = λ lifecycle s h. h;
  on_clear = λ s h. (inl refl, h.1);
  on_pending = λ now r found s h. (inr (r, found, refl, refl), h.1);
  on_live = λ now r r' found f s h.
      (h.0, inr (r, rw f.same_id found, f.same_revision, ap some f.same_config));
}
