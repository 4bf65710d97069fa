-- ===== src/Service/Moves.antt =====
-- A change of the desired state of one stack template, and the desired state that is stored.
use mathlib.Core.Path.{ap₂}
use mathlib.Core.Bool.{false≢true}
use tflive.Common.{
  Option, none, some, find?-test, All-find?, ◌==◌, Bool, sym, true, false, ◌&&◌, ◌≡◌, refl, ap, ◌∙◌,
  arith, inl, inr, List, [], ◌∷◌, any, find?, update_where, All, Bool-cases, subst, if◌then◌else◌,
}
use tflive.Common.Results.{ok-eq-ok, ok, or_fail, >>=-eq-ok}
use tflive.Domain.{Text}
use tflive.RunStore.Rows.{Database, Run, StackTemplate, in_flight, is_stack_template}
use tflive.RunStore.Create.{default_json}
use tflive.Access.Requests.{Caller}
use tflive.Service.State.{Deployment, ServiceStore, not_found}
use tflive.Service.Configs.{desired_config}
use tflive.Service.Commands.{UpdateStackTemplateConfigCommand, UpgradeStackTemplateCommand}
use tflive.Service.Lookups.{failed}
use tflive.Service.Desired.{
  with_config, with_revision, store_change, update_stack_template_config, upgrade_stack_template,
}
use tflive.Service.Truth.{update-stored, upgrade-stored}
use tflive.Service.Starts.{default_json_idempotent}
use tflive.Service.Refusals.{update-none_in_flight, upgrade-none_in_flight}
use tflive.Service.Frozen.{Desired, Agrees, Current, IsFrozen}

-- The desired state of one stack template is another.
abbrev moved : Text → Text → Text × Text → Desired → Desired
moved tenant_id id value desired t i = if t == tenant_id && i == id then value else desired t i

moved-Current :
    (tenant_id id : Text) (value : Text × Text) (desired : Desired) (runs : List Run)
    → any (in_flight tenant_id id) runs ≡ false
    → All (Current desired) runs
    → All (Current (moved tenant_id id value desired)) runs
moved-Current tenant_id id value desired [] free h = tt
moved-Current tenant_id id value desired (r ∷ runs) free h = (
  λ unfinished.
      let other : (r.tenant_id == tenant_id && r.stack_template_id == id) ≡ false =
        ground (arith, free, unfinished) in
      rw other (h.0 unfinished),
  moved-Current tenant_id id value desired runs (ground (arith, free)) h.1,
)

pub is_stack_template-eq :
    (tenant_id id : Text) (s : StackTemplate)
    → is_stack_template tenant_id id s ≡ true
    → (s.tenant_id ≡ tenant_id) × (s.id ≡ id)
is_stack_template-eq tenant_id id s h = ground arith

-- A change of every row of an identifier to one desired state.
moved-Agrees :
    (tenant_id id : Text) (value : Text × Text) (desired : Desired)
    (change : StackTemplate → StackTemplate) (ss : List StackTemplate)
    → ((s : StackTemplate)
        → (s.tenant_id ≡ tenant_id) × (s.id ≡ id)
        → Agrees desired s
        → ((change s).tenant_id ≡ tenant_id)
          × ((change s).id ≡ id)
          × ((change s).desired_template_revision_id ≡ value.0)
          × (desired_config (change s) ≡ value.1))
    → All (Agrees desired) ss
    → All
        (Agrees (moved tenant_id id value desired))
        (update_where (is_stack_template tenant_id id) change ss)
moved-Agrees tenant_id id value desired change [] changes h = tt
moved-Agrees tenant_id id value desired change (s ∷ ss) changes h =
    let rest = moved-Agrees tenant_id id value desired change ss changes h.1 in
    elim (Bool-cases (is_stack_template tenant_id id s)) [
      | inl t ↦
          let (tenant, named, revision, config) =
            changes s (is_stack_template-eq tenant_id id s t) h.0 in
          let here : ((change s).tenant_id == tenant_id && (change s).id == id) ≡ true =
            ground (arith, tenant, named) in
          rw t ((rw here revision, rw here config), rest)
      | inr f ↦ rw f ((rw f h.0.0, rw f h.0.1), rest)
    ]

store_change-IsFrozen :
    (tenant_id id : Text) (value : Text × Text) (change : StackTemplate → StackTemplate)
    (store : ServiceStore) {after : ServiceStore} {s : StackTemplate}
    (frozen : IsFrozen store.database)
    → ((x : StackTemplate)
        → (x.tenant_id ≡ tenant_id) × (x.id ≡ id)
        → Agrees frozen.desired x
        → ((change x).tenant_id ≡ tenant_id)
          × ((change x).id ≡ id)
          × ((change x).desired_template_revision_id ≡ value.0)
          × (desired_config (change x) ≡ value.1))
    → any (in_flight tenant_id id) store.database.runs ≡ false
    → store_change tenant_id id change store ≡ ok (after, s)
    → IsFrozen after.database
unfolding store_change
store_change-IsFrozen tenant_id id value change store frozen changes free e =
    let ss = store.database.stack_templates in
    let (x, f, e1) =
      >>=-eq-ok (failed (or_fail (find? (is_stack_template tenant_id id) ss) not_found)) _ e in
    subst IsFrozen (ap (λ p. p.0.database) (ok-eq-ok _ refl e1)) (record {
      desired = moved tenant_id id value frozen.desired;
      agrees = moved-Agrees tenant_id id value frozen.desired change ss changes frozen.agrees;
      current =
          moved-Current tenant_id id value frozen.desired store.database.runs free frozen.current;
    })

still_false : {b c : Bool} → (b ≡ true → c ≡ true) → c ≡ false → b ≡ false
still_false {b = false} h n = refl
still_false {b = true} h n = absurd (false≢true (sym n ∙ h refl))

pub update-IsFrozen :
    (d : Deployment) (caller : Caller) (command : UpdateStackTemplateConfigCommand)
    (seen store : ServiceStore) {after : ServiceStore} {s : StackTemplate}
    → update_stack_template_config d caller command seen store ≡ ok (after, s)
    → (any (in_flight command.tenant_id command.stack_template_id) store.database.runs ≡ true
        → any (in_flight command.tenant_id command.stack_template_id) seen.database.runs ≡ true)
    → IsFrozen store.database
    → IsFrozen after.database
unfolding desired_config
update-IsFrozen d caller command seen store {s = s} e none_began frozen =
    let tenant_id = command.tenant_id in
    let id = command.stack_template_id in
    let (config, f) = update-stored d caller command seen store {s = s} e in
    store_change-IsFrozen tenant_id id ((frozen.desired tenant_id id).0, default_json config)
      (with_config config) store frozen
      (λ x same agrees. (
        same.0,
        same.1,
        agrees.0 ∙ ap (λ p. p.0) (ap₂ frozen.desired same.0 same.1),
        default_json_idempotent config,
      ))
      (still_false none_began (update-none_in_flight d caller command seen store e)) f

pub upgrade-IsFrozen :
    (d : Deployment) (caller : Caller) (command : UpgradeStackTemplateCommand)
    (seen store : ServiceStore) {after : ServiceStore} {s : StackTemplate}
    → upgrade_stack_template d caller command seen store ≡ ok (after, s)
    → (any (in_flight command.tenant_id command.stack_template_id) store.database.runs ≡ true
        → any (in_flight command.tenant_id command.stack_template_id) seen.database.runs ≡ true)
    → IsFrozen store.database
    → IsFrozen after.database
unfolding desired_config
upgrade-IsFrozen d caller command seen store {s = s} e none_began frozen =
    let (revision, config, f) = upgrade-stored d caller command seen store {s = s} e in
    store_change-IsFrozen command.tenant_id command.stack_template_id
      (revision, default_json config) (with_revision revision config) store frozen
      (λ x same agrees. (same.0, same.1, refl, default_json_idempotent config))
      (still_false none_began (upgrade-none_in_flight d caller command seen store e)) f

abbrev desired_in : Option StackTemplate → Option (Text × Text)
desired_in none = none
desired_in (some s) = some (s.desired_template_revision_id, desired_config s)

-- The desired revision and config of a stack template, if it is there.
abbrev pub desired_of : Text → Text → Database → Option (Text × Text)
desired_of tenant_id id db = desired_in (find? (is_stack_template tenant_id id) db.stack_templates)

pub desired_of-find? :
    (tenant_id id : Text) (db : Database) {s : StackTemplate}
    → find? (is_stack_template tenant_id id) db.stack_templates ≡ some s
    → desired_of tenant_id id db ≡ some (s.desired_template_revision_id, desired_config s)
desired_of-find? tenant_id id db found = rw found refl

pub desired_of-Agrees :
    (tenant_id id : Text) (desired : Desired) (db : Database) {value : Text × Text}
    → desired_of tenant_id id db ≡ some value
    → All (Agrees desired) db.stack_templates
    → (value.0 ≡ (desired tenant_id id).0) × (value.1 ≡ (desired tenant_id id).1)
desired_of-Agrees tenant_id id desired db {value} e agrees =
    here (find? (is_stack_template tenant_id id) db.stack_templates) refl e
  where
    here :
        (found : Option StackTemplate)
        → find? (is_stack_template tenant_id id) db.stack_templates ≡ found
        → desired_in found ≡ some value
        → (value.0 ≡ (desired tenant_id id).0) × (value.1 ≡ (desired tenant_id id).1)
    here none f e = cc
    here (some s) f e =
        let (tenant, named) =
          is_stack_template-eq tenant_id id s (find?-test _ db.stack_templates f) in
        let agreed = All-find? (Agrees desired) _ db.stack_templates agrees f in
        let same = ap₂ desired tenant named in
        let value_of : (s.desired_template_revision_id, desired_config s) ≡ value =
          ground (arith, e) in
        (
          sym (ap (λ p. p.0) value_of) ∙ agreed.0 ∙ ap (λ p. p.0) same,
          sym (ap (λ p. p.1) value_of) ∙ agreed.1 ∙ ap (λ p. p.1) same,
        )
