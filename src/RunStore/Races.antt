-- ===== src/RunStore/Races.antt =====
-- internal/postgres/saved_plans.go and repositories.go: a discard, an approval and the claim of an apply exclude each
-- other, whichever commits first.
use tflive.Common.{
  ℕ, ◌≤◌, Bool, true, false, ◌≡◌, refl, arith, List, Option, none, some, find?, count, find?_unique,
  find?-test, find?-replace, Option-cases, inl, inr, subst, replace,
}
use tflive.Common.Results.{ok, err, >>=-eq-ok}
use tflive.Domain.{Text, TemplateRunStatus, same_status}
use tflive.RunStore.Executions.{insert_workflow_execution}
use tflive.RunStore.Rows.{M, Run, Database, Discard, Approval, not_approvable}
use tflive.RunStore.Plans.{
  claim_run, takes_claim, commit_claim, begin_template_apply, takes_discard, discard_run,
  commit_discard, discard_template_run, takes_approval, approve_template_run,
}
use tflive.RunStore.Operations.{committed_with, discards, begins_apply, perform}
use tflive.RunStore.History.{IsConsistent, has_id, perform-IsConsistent}

-- A test on a run's identifier that its one row fails takes no row.
find?-none_of :
    (q : Run → Bool) (id : Text) (runs : List Run) (r : Run)
    → count (has_id id) runs ≤ 1
    → find? (has_id id) runs ≡ some r
    → ((s : Run) → q s ≡ true → has_id id s ≡ true)
    → q r ≡ false
    → find? q runs ≡ none
find?-none_of q id runs r c f only n = elim (Option-cases (find? q runs)) [
  | inl e ↦ e
  | inr (s, e) ↦
      let t = find?-test q runs e in
      let g = find?_unique (has_id id) q runs c e (only s t) in ground (arith, f, g, t, n)
]

module _ (now : ℕ) (tenant_id run_id : Text) (discard : Discard) (db : Database) where
  -- The row of a run that was discarded.
  discarded_row :
      IsConsistent db
      → (discard_template_run now tenant_id run_id discard db).1 ≡ true
      → (r : Run) × (find?
            (has_id run_id)
            (discard_template_run now tenant_id run_id discard db).0.runs
          ≡ some (discard_run now discard r))
  unfolding discard_template_run
  discarded_row c = go (find? (takes_discard tenant_id run_id) db.runs) refl
    where
      go :
          (o : Option Run)
          → find? (takes_discard tenant_id run_id) db.runs ≡ o
          → (elim o as (λ x. Database × Bool) [
            | none ↦ (db, false)
            | some r ↦ commit_discard now tenant_id run_id discard db r
          ]).1
            ≡ true
          → (r : Run) × (find?
                (has_id run_id)
                (elim o as (λ x. Database × Bool) [
                  | none ↦ (db, false)
                  | some r ↦ commit_discard now tenant_id run_id discard db r
                ]).0.runs
              ≡ some (discard_run now discard r))
      go none e w = cc
      go (some r) e w =
          let t : has_id run_id r ≡ true =
            ground (arith, find?-test (takes_discard tenant_id run_id) db.runs e) in
          (
            r,
            find?-replace (has_id run_id) (takes_discard tenant_id run_id)
                (discard_run now discard r) db.runs e
                (find?_unique (has_id run_id) (takes_discard tenant_id run_id) db.runs
                  (c.unique run_id) e t)
                t,
          )

  discarded-IsConsistent :
      IsConsistent db → IsConsistent (discard_template_run now tenant_id run_id discard db).0
  unfolding perform
  discarded-IsConsistent c = perform-IsConsistent now (discards tenant_id run_id discard) db tt c

  -- Once a discard of a run committed on a consistent database, the claim of its apply is lost and
  -- changes nothing, and its approval is refused.
  pub discard_template_run-final :
      (now' : ℕ) (auto_approve : Bool) (workflow_id : Text) (approval : Approval)
      → IsConsistent db
      → (discard_template_run now tenant_id run_id discard db).1 ≡ true
      → (begin_template_apply now' tenant_id run_id auto_approve workflow_id
            (discard_template_run now tenant_id run_id discard db).0
          ≡ ok ((discard_template_run now tenant_id run_id discard db).0, false))
        × (approve_template_run tenant_id run_id approval
              (discard_template_run now tenant_id run_id discard db).0
            ≡ err not_approvable)
  unfolding begin_template_apply approve_template_run
  discard_template_run-final now' auto_approve workflow_id approval c w =
      let (r, f) = discarded_row c w in
      let unique = (discarded-IsConsistent c).unique run_id in
      let db' = (discard_template_run now tenant_id run_id discard db).0 in
      let lost =
        find?-none_of (takes_claim tenant_id run_id auto_approve) run_id db'.runs
          (discard_run now discard r) unique f (λ s t. ground arith) (ground arith) in
      let refused =
        find?-none_of (takes_approval tenant_id run_id) run_id db'.runs (discard_run now discard r)
          unique f (λ s t. ground arith) (ground arith) in
      (rw (lost, begin_template_apply) refl, rw (refused, approve_template_run) refl)

claim_run-running :
    (now id : ℕ) (workflow_id : Text) (r : Run) {r' : Run}
    → claim_run now id workflow_id r ≡ ok r'
    → (r'.id ≡ r.id) × (same_status r'.status TemplateRunStatus.running ≡ true)
unfolding claim_run insert_workflow_execution
claim_run-running now id workflow_id r e = ground arith

module _ (now : ℕ) (tenant_id run_id : Text) (auto_approve : Bool) (workflow_id : Text)
    (db : Database) where
  -- The row of a run that was claimed.
  claimed_row :
      {db' : Database}
      → IsConsistent db
      → begin_template_apply now tenant_id run_id auto_approve workflow_id db ≡ ok (db', true)
      → (r : Run) × (find? (has_id run_id) db'.runs ≡ some r)
        × (same_status r.status TemplateRunStatus.running ≡ true)
  unfolding begin_template_apply
  claimed_row {db'} c = go (find? (takes_claim tenant_id run_id auto_approve) db.runs) refl
    where
      go :
          (o : Option Run)
          → find? (takes_claim tenant_id run_id auto_approve) db.runs ≡ o
          → (elim o as (λ x. M (Database × Bool)) [
            | none ↦ ok (db, false)
            | some r ↦ commit_claim now tenant_id run_id auto_approve workflow_id db r
          ])
            ≡ ok (db', true)
          → (r : Run) × (find? (has_id run_id) db'.runs ≡ some r)
            × (same_status r.status TemplateRunStatus.running ≡ true)
      go none e w = ground arith
      go (some r) e w =
          let (claimed, f, g) = >>=-eq-ok (claim_run now db.next_execution_id workflow_id r) _ w in
          let (same, running) = claim_run-running now db.next_execution_id workflow_id r f in
          let written : replace (takes_claim tenant_id run_id auto_approve) claimed db.runs
              ≡ db'.runs =
            ground (arith, g) in
          let t : has_id run_id r ≡ true =
            ground (arith, find?-test (takes_claim tenant_id run_id auto_approve) db.runs e) in
          let here =
            find?_unique (has_id run_id) (takes_claim tenant_id run_id auto_approve) db.runs
              (c.unique run_id) e t in
          (
            claimed,
            subst (λ runs. find? (has_id run_id) runs ≡ some claimed) written
                (find?-replace (has_id run_id) (takes_claim tenant_id run_id auto_approve) claimed
                  db.runs e here (ground (arith, same, t))),
            running,
          )

  -- Once the claim of a run's apply committed on a consistent database, a discard of the run is
  -- refused and changes nothing.
  pub begin_template_apply-final :
      (db' : Database) (now' : ℕ) (discard : Discard)
      → IsConsistent db
      → begin_template_apply now tenant_id run_id auto_approve workflow_id db ≡ ok (db', true)
      → discard_template_run now' tenant_id run_id discard db' ≡ (db', false)
  unfolding perform discard_template_run
  begin_template_apply-final db' now' discard c e =
      let (r, f, running) = claimed_row c e in
      let consistent =
        subst (λ m. IsConsistent (committed_with db m)) e
          (perform-IsConsistent now (begins_apply tenant_id run_id auto_approve workflow_id) db tt
            c) in
      let refused =
        find?-none_of (takes_discard tenant_id run_id) run_id db'.runs r (consistent.unique run_id)
          f (λ s t. ground arith) (ground (arith, running)) in
      rw (refused, discard_template_run) refl
