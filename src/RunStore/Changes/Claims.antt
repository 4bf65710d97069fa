-- ===== src/RunStore/Changes/Claims.antt =====
-- What claims, discards, plan keys, insertions and approvals do to the table of runs.
use tflive.Common.{
  ℕ, Bool, true, ◌≡◌, refl, arith, inl, inr, ◌==◌, ◌+◌, not, Option, some, find?, any, All,
  All-find?, find?-test, Option-cases,
}
use tflive.Common.Results.{ok, or_fail, or_fail-eq-ok, guard, >>=-eq-ok}
use tflive.Domain.{Text}
use tflive.RunStore.Rows.{Run, Approval, Discard, Database, in_flight}
use tflive.RunStore.Plans.{
  claimable, claim_run, takes_claim, commit_claim, takes_discard, takes_approval, discardable,
  discard_run, approvable, approve_run, begin_template_apply, discard_template_run,
  approve_template_run,
}
use tflive.RunStore.Operations.{queued_run}
use tflive.RunStore.Create.{
  inserted, max_run_number, takes_plan_key, plan_key, fill_plan_key, create_template_run,
  create_plan_key,
}
use tflive.RunStore.Soundness.{IsSound}
use tflive.RunStore.Soundness.Rows.{
  claim_run-IsSound, discard_run-IsSound, approve_run-IsSound, inserted-IsSound,
  takes_plan_key-IsSound,
}
use tflive.RunStore.Lifecycle.{Follows}
use tflive.RunStore.Lifecycle.Rows.{claim_run-Follows, discard_run-Follows, approve_run-Follows}
use tflive.RunStore.Changes.{Change, Update}

pub commit_claim-Update :
    (now : ℕ) (tenant_id run_id : Text) (auto : Bool) (workflow_id : Text) (db : Database) (r : Run)
    {db' : Database} {claimed : Bool}
    → All IsSound db.runs
    → find? (takes_claim tenant_id run_id auto) db.runs ≡ some r
    → commit_claim now tenant_id run_id auto workflow_id db r ≡ ok (db', claimed)
    → Update db.runs db'.runs
unfolding commit_claim
commit_claim-Update now tenant_id run_id auto workflow_id db r s f e =
    let (r', g, e1) = >>=-eq-ok (claim_run now db.next_execution_id workflow_id r) _ e in
    let taken : claimable auto r ≡ true =
      ground (arith, find?-test (takes_claim tenant_id run_id auto) db.runs f) in
    inr (
      (record {
        takes = takes_claim tenant_id run_id auto;
        previous = r;
        next = r';
        found = f;
        sound =
            claim_run-IsSound now _ workflow_id auto r (All-find? IsSound _ db.runs s f) taken g;
        follows = claim_run-Follows now _ workflow_id auto r taken g;
        written = ground arith;
      }))

pub begin_template_apply-Update :
    (now : ℕ) (tenant_id run_id : Text) (auto : Bool) (workflow_id : Text) (db : Database)
    {db' : Database} {claimed : Bool}
    → All IsSound db.runs
    → begin_template_apply now tenant_id run_id auto workflow_id db ≡ ok (db', claimed)
    → Update db.runs db'.runs
unfolding begin_template_apply
begin_template_apply-Update now tenant_id run_id auto workflow_id db s e =
    elim (Option-cases (find? (takes_claim tenant_id run_id auto) db.runs)) [
      | inl missing ↦ inl (ground arith)
      | inr (r, f) ↦
          commit_claim-Update now tenant_id run_id auto workflow_id db r s f
            (rw (f, begin_template_apply) at e)
    ]

pub discard_template_run-Update :
    (now : ℕ) (tenant_id run_id : Text) (discard : Discard) (db : Database)
    → All IsSound db.runs
    → Update db.runs (discard_template_run now tenant_id run_id discard db).0.runs
unfolding discard_template_run
discard_template_run-Update now tenant_id run_id discard db s =
    elim (Option-cases (find? (takes_discard tenant_id run_id) db.runs)) [
      | inl missing ↦ rw (missing, discard_template_run) (inl refl)
      | inr (r, f) ↦
          let taken : discardable r ≡ true =
            ground (arith, find?-test (takes_discard tenant_id run_id) db.runs f) in
          rw (f, discard_template_run)
            (inr (
              (record {
                takes = takes_discard tenant_id run_id;
                previous = r;
                next = discard_run now discard r;
                found = f;
                sound = discard_run-IsSound now discard r (All-find? IsSound _ db.runs s f) taken;
                follows = discard_run-Follows now discard r taken;
                written = refl;
              })))
    ]

pub takes_plan_key-Follows :
    (r : Run) (key : Text) → Follows r (record r { plan_artifact_dek = some key })
takes_plan_key-Follows r key = ground arith

pub fill_plan_key-Update :
    (tenant_id run_id key : Text) (db : Database)
    → All IsSound db.runs
    → Update db.runs (fill_plan_key tenant_id run_id key db).0.runs
unfolding fill_plan_key
fill_plan_key-Update tenant_id run_id key db s =
    elim (Option-cases (find? (takes_plan_key tenant_id run_id) db.runs)) [
      | inl missing ↦ rw (missing, fill_plan_key) (inl refl)
      | inr (r, f) ↦
          rw (f, fill_plan_key)
            (inr (
              (record {
                takes = takes_plan_key tenant_id run_id;
                previous = r;
                next = record r { plan_artifact_dek = some key };
                found = f;
                sound =
                    takes_plan_key-IsSound tenant_id run_id key r (All-find? IsSound _ db.runs s f)
                      (find?-test (takes_plan_key tenant_id run_id) db.runs f);
                follows = takes_plan_key-Follows r key;
                written = refl;
              })))
    ]

pub create_plan_key-Update :
    (tenant_id run_id key : Text) (db : Database) {db' : Database} {stored : Option Text}
    → All IsSound db.runs
    → create_plan_key tenant_id run_id key db ≡ ok (db', stored)
    → Update db.runs db'.runs
unfolding create_plan_key
create_plan_key-Update tenant_id run_id key db {db'} s e =
    let (o, _, e1) = >>=-eq-ok (plan_key tenant_id run_id db) _ e in
    elim (Option-cases o) [
      | inr (k, q) ↦ inl (ground arith)
      | inl q ↦
          let same : db' ≡ (fill_plan_key tenant_id run_id key db).0 = ground arith in
          rw same (fill_plan_key-Update tenant_id run_id key db s)
    ]

pub create_template_run-Change :
    (r : Run) (db : Database) {db' : Database} {run_number : ℕ}
    → create_template_run (queued_run r) db ≡ ok (db', run_number)
    → Change db.runs db'.runs
unfolding create_template_run
create_template_run-Change r db e =
    let (_, g, e1) = >>=-eq-ok (guard (not (any (λ x. x.id == r.id) db.runs)) _) _ e in
    let (_, h, e2) =
      >>=-eq-ok (guard (not (any (in_flight r.tenant_id r.stack_template_id) db.runs)) _) _ e1 in
    let run_number = max_run_number r.tenant_id r.stack_template_id db.runs + 1 in
    inr (
      inr (record {
        added = inserted (queued_run r) run_number;
        sound = inserted-IsSound (queued_run r) run_number refl refl;
        queued = refl;
        fresh = ground arith;
        alone = ground arith;
        appended = ground arith;
      }))

pub approve_template_run-Update :
    (tenant_id run_id : Text) (approval : Approval) (db : Database) {db' : Database}
    → All IsSound db.runs
    → approve_template_run tenant_id run_id approval db ≡ ok db'
    → Update db.runs db'.runs
unfolding approve_template_run
approve_template_run-Update tenant_id run_id approval db s e =
    let (r, f, e1) = >>=-eq-ok (or_fail (find? (takes_approval tenant_id run_id) db.runs) _) _ e in
    let (r', g, e2) = >>=-eq-ok (approve_run approval r) _ e1 in
    let found = or_fail-eq-ok _ _ f in
    let taken : approvable r ≡ true =
      ground (arith, find?-test (takes_approval tenant_id run_id) db.runs found) in
    inr (
      (record {
        takes = takes_approval tenant_id run_id;
        previous = r;
        next = r';
        found = found;
        sound = approve_run-IsSound approval r (All-find? IsSound _ db.runs s found) taken g;
        follows = approve_run-Follows approval r taken g;
        written = ground arith;
      }))
