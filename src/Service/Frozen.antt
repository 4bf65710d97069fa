-- ===== src/Service/Frozen.antt =====
-- The desired state of a stack template while one of its runs is in flight.
use tflive.Common.{
  ℕ, false, ◌≡◌, sym, ap, ◌∙◌, arith, inl, inr, List, All, All-find?, All-replace, subst,
}
use mathlib.Core.Path.{ap₂}
use tflive.Domain.{Text, terminal}
use tflive.RunStore.Rows.{Run, StackTemplate, Database}
use tflive.RunStore.Lifecycle.{Follows}
use tflive.RunStore.Operations.{Operation, FromWorkflow, perform}
use tflive.RunStore.Changes.{Update}
use tflive.RunStore.Changes.Operations.{CreatesNone, perform-Update}
use tflive.RunStore.History.{IsConsistent}
use tflive.RunStore.Snapshots.{Stable}
use tflive.RunStore.Snapshots.Operations.{perform-Writes}
use tflive.Service.Configs.{desired_config}

-- For each tenant and identifier, a revision and a config.
abbrev pub Desired : Type 0
Desired = Text → Text → Text × Text

abbrev pub Agrees : Desired → StackTemplate → Type 0
Agrees desired s =
    (s.desired_template_revision_id ≡ (desired s.tenant_id s.id).0)
    × (desired_config s ≡ (desired s.tenant_id s.id).1)

-- A run that is not over has the snapshot of that.
abbrev pub Current : Desired → Run → Type 0
Current desired r =
    terminal r.status ≡ false
    → (r.template_revision_id ≡ (desired r.tenant_id r.stack_template_id).0)
      × (r.config_json ≡ (desired r.tenant_id r.stack_template_id).1)

-- Runs in flight have the desired state of their stack templates for their snapshot.
pub record IsFrozen (db : Database) : Type 0 where
  pub desired : Desired
  pub agrees : All (Agrees desired) db.stack_templates
  pub current : All (Current desired) db.runs

Agrees-Stable : (desired : Desired) (runs : List Run) → Stable runs (Agrees desired)
unfolding desired_config
Agrees-Stable desired runs = record {
  on_lifecycle = λ lifecycle s h. h;
  on_clear = λ s h. h;
  on_pending = λ now r found s h. h;
  on_live = λ now r r' found f s h. h;
}

Follows-unfinished :
    (r r' : Run) → Follows r r' → terminal r'.status ≡ false → terminal r.status ≡ false
Follows-unfinished r r' f h = ground arith

Follows-Current :
    (desired : Desired) (r r' : Run) → Follows r r' → Current desired r → Current desired r'
Follows-Current desired r r' f h unfinished =
    let (revision, config) = h (Follows-unfinished r r' f unfinished) in
    let same : desired r.tenant_id r.stack_template_id ≡ desired r'.tenant_id r'.stack_template_id =
      ap₂ desired (sym f.same_tenant) (sym f.same_stack_template) in
    (f.same_revision ∙ revision ∙ ap (λ p. p.0) same, f.same_config ∙ config ∙ ap (λ p. p.1) same)

Update-Current :
    (desired : Desired) (runs runs' : List Run)
    → Update runs runs'
    → All (Current desired) runs
    → All (Current desired) runs'
Update-Current desired runs runs' (inl same) h = subst (All (Current desired)) (sym same) h
Update-Current desired runs runs' (inr w) h =
    let held = All-find? (Current desired) w.takes runs h w.found in
    subst (All (Current desired)) (sym w.written) (
      All-replace (Current desired) w.takes w.next runs h
        (Follows-Current desired w.previous w.next w.follows held))

pub perform-IsFrozen :
    (now : ℕ) (op : Operation) (db : Database)
    → FromWorkflow op
    → CreatesNone op
    → IsConsistent db
    → IsFrozen db
    → IsFrozen (perform now op db)
perform-IsFrozen now op db w none_created c f = record {
  desired = f.desired;
  agrees = perform-Writes now op db c (Agrees f.desired) (Agrees-Stable f.desired db.runs) f.agrees;
  current =
      Update-Current f.desired db.runs _ (perform-Update now op db w none_created c.sound)
        f.current;
}
