-- ===== src/Workflow/Safety/Chains.antt =====
-- The chains of the session's work: what they ensure when they succeed, by the parts.
use tflive.Common.{◌∙◌, Bool, true, false, ◌≡◌, refl, arith, if◌then◌else◌}
use tflive.Common.Results.{Result, ok, err}
use tflive.Domain.{TerraformCommandType}
use tflive.Workflow.Calls.{WorkflowInput, Failure, Trace, Environment, W, continue, ◌>>=◌, pure}
use tflive.Workflow.Session.{Workspace, fetch_source_step, restore_saved_plan, terraform, ready}
use tflive.Workflow.Safety.{Safe, in_open_session, claimed, restored}
use tflive.Workflow.Safety.Steps.{
  Safe-refl, Safe-trans, fetch_source_step-Safe, restore_saved_plan-Safe, terraform-Safe,
}

-- A piece of work is safe from a trace, and a success leaves one of which `Q` holds.
pub record Ensures (input : WorkflowInput) {A : Type 0} (m : W A) (t : Trace) (Q : Trace → Type 0)
    : Type 0 where
  pub safe : Safe input t (m t).1
  pub after : (a : A) → (m t).0 ≡ ok a → Q (m t).1

pub >>=-Ensures :
    {A B : Type 0} (input : WorkflowInput) (m : W A) (f : A → W B) (t : Trace)
    {Q R : Trace → Type 0}
    → Ensures input m t Q
    → ((a : A) → Safe input t (m t).1 → Q (m t).1 → Ensures input (f a) (m t).1 R)
    → Ensures input (◌>>=◌ m f) t R
>>=-Ensures {A} {B} input m f t {Q} {R} p q = record {
  safe = (go (m t).0 refl).0;
  after = (go (m t).0 refl).1;
}
  where
    go :
        (r : Result Failure A)
        → (m t).0 ≡ r
        → Safe input t (continue r f (m t).1).1
          × ((b : B) → (continue r f (m t).1).0 ≡ ok b → R (continue r f (m t).1).1)
    go (ok a) e =
        let next = q a p.safe (p.after a e) in (Safe-trans input p.safe next.safe, next.after)
    go (err x) e = (p.safe, λ b n. cc)

abbrev pub Always : Trace → Type 0
Always t = Unit {0}

pub Safe-Ensures :
    {A : Type 0} (input : WorkflowInput) (m : W A) (t : Trace)
    → Safe input t (m t).1
    → Ensures input m t Always
Safe-Ensures input m t s = record { safe = s; after = λ a e. tt }

pub pure-Ensures :
    {A : Type 0} (input : WorkflowInput) (a : A) (t : Trace) {Q : Trace → Type 0}
    → Q t
    → Ensures input (pure a) t Q
pure-Ensures input a t q = record { safe = Safe-refl input t; after = λ b e. q }

pub if-Safe :
    {A : Type 0} (input : WorkflowInput) (b : Bool) (m n : W A) (t : Trace)
    → (b ≡ true → Safe input t (m t).1)
    → (b ≡ false → Safe input t (n t).1)
    → Safe input t ((if b then m else n) t).1
if-Safe input true m n t p q = p refl
if-Safe input false m n t p q = q refl

pub if-Ensures :
    {A : Type 0} (input : WorkflowInput) (b : Bool) (m n : W A) (t : Trace) {Q : Trace → Type 0}
    → (b ≡ true → Ensures input m t Q)
    → (b ≡ false → Ensures input n t Q)
    → Ensures input (if b then m else n) t Q
if-Ensures input true m n t p q = p refl
if-Ensures input false m n t p q = q refl

module _ (env : Environment) (input : WorkflowInput) where
  restore-Ensures :
      (restore_plan : Bool) (ws : Workspace) (t : Trace)
      → in_open_session t ≡ true
      → (restore_plan ≡ true → claimed t ≡ true)
      → Ensures input
          (if restore_plan then restore_saved_plan env ws else pure tt)
          t
          (λ u. restore_plan ≡ true → restored u ≡ true)
  restore-Ensures false ws t o c = pure-Ensures input tt t (λ e. ground arith)
  restore-Ensures true ws t o c =
      let (s, r) = restore_saved_plan-Safe env input ws t o (c refl) in
      record { safe = s; after = λ a e x. r a e }

  pub ready-Ensures :
      (restore_plan : Bool) (ws : Workspace) (t : Trace)
      → in_open_session t ≡ true
      → (restore_plan ≡ true → claimed t ≡ true)
      → Ensures input
          (ready env input restore_plan ws)
          t
          (λ u. restore_plan ≡ true → restored u ≡ true)
  unfolding ready
  ready-Ensures restore_plan ws t o c =
      >>=-Ensures input (fetch_source_step env ws) _ t
        (Safe-Ensures input (fetch_source_step env ws) t (fetch_source_step-Safe env input ws t o))
        (λ fetched s0 q0.
          let t1 = (fetch_source_step env ws t).1 in
          let put_back = if restore_plan then restore_saved_plan env fetched else pure tt in
          let t2 = (put_back t1).1 in
          let o1 = s0.same_session ∙ o in
          >>=-Ensures input put_back _ t1
            (restore-Ensures restore_plan fetched t1 o1 (λ e. s0.still_claimed (c e)))
            (λ u s1 r.
              let o2 = s1.same_session ∙ o1 in
              let init = terraform env input TerraformCommandType.init fetched in
              let s2 = terraform-Safe env input TerraformCommandType.init fetched t2 o2 refl in
              >>=-Ensures input init _ t2 (Safe-Ensures input init t2 s2) (λ a s2 q2.
                let select = terraform env input TerraformCommandType.select_workspace fetched in
                let t3 = (init t2).1 in
                let s3 =
                  terraform-Safe env input TerraformCommandType.select_workspace fetched t3
                    (s2.same_session ∙ o2) refl in
                >>=-Ensures input select _ t3 (Safe-Ensures input select t3 s3) (λ b s3 q3.
                  pure-Ensures input fetched (select t3).1
                    (λ e. s3.still_restored (s2.still_restored (r e)))))))
