-- ===== src/RunStore/History.antt =====
-- What holds of the tables after any history of operations.
use tflive.Common.{
  ℕ, ◌≤◌, ◌==◌, Bool, true, false, ◌≡◌, refl, arith, inl, inr, List, [], ◌∷◌, none, some, find?,
  count, count-replace, count-add_le_one, bit, any, All, All-replace, All-append, Bool-cases,
  All-find?, ==_iff, ◌∙◌, subst, find?_unique, find?-replace, find?-replace_ne, find?-append_some,
}
use mathlib.Core.Path.{subst₂}
use tflive.Domain.{Text, terminal}
use tflive.RunStore.Rows.{Run, Database, in_flight}
use tflive.RunStore.Soundness.{IsSound}
use tflive.RunStore.Lifecycle.{Follows}
use tflive.RunStore.Operations.{Operation, FromWorkflow, perform, run_history}
use tflive.RunStore.Changes.{Change, Writes, Adds}
use tflive.RunStore.Changes.Operations.{perform-Change}

-- At most one run of a stack template is in flight, and an identifier names one run.
pub record IsConsistent (db : Database) : Type 0 where
  pub sound : All IsSound db.runs
  pub exclusive :
      (tenant_id stack_template_id : Text)
      → count (in_flight tenant_id stack_template_id) db.runs ≤ 1
  pub unique : (id : Text) → count (λ r. r.id == id) db.runs ≤ 1

Follows-in_flight :
    (tenant_id stack_template_id : Text) (r r' : Run)
    → Follows r r'
    → bit (in_flight tenant_id stack_template_id r') ≤ bit (in_flight tenant_id stack_template_id r)
Follows-in_flight tenant_id stack_template_id r r' f = ground arith

Writes-exclusive :
    (tenant_id stack_template_id : Text) (runs runs' : List Run)
    → Writes runs runs'
    → count (in_flight tenant_id stack_template_id) runs'
      ≤ count (in_flight tenant_id stack_template_id) runs
Writes-exclusive tenant_id stack_template_id runs runs' w = rw w.written (
    omega (
      arith,
      count-replace (in_flight tenant_id stack_template_id) w.takes w.next runs w.found,
      Follows-in_flight tenant_id stack_template_id w.previous w.next w.follows,
    ))

Writes-unique :
    (id : Text) (runs runs' : List Run)
    → Writes runs runs'
    → count (λ r. r.id == id) runs' ≡ count (λ r. r.id == id) runs
Writes-unique id runs runs' w =
    rw w.written (
      ground
        (arith, count-replace (λ r. r.id == id) w.takes w.next runs w.found, w.follows.same_id))

in_flight-eq :
    (tenant_id stack_template_id : Text) (r : Run)
    → in_flight tenant_id stack_template_id r ≡ true
    → (r.tenant_id ≡ tenant_id) × (r.stack_template_id ≡ stack_template_id)
in_flight-eq tenant_id stack_template_id r h = ground arith

Adds-exclusive :
    (tenant_id stack_template_id : Text) (runs runs' : List Run)
    → Adds runs runs'
    → count (in_flight tenant_id stack_template_id) runs ≤ 1
    → count (in_flight tenant_id stack_template_id) runs' ≤ 1
Adds-exclusive tenant_id stack_template_id runs runs' a h = rw a.appended (
    count-add_le_one (in_flight tenant_id stack_template_id) runs a.added
      (λ t.
        let (p, q) = in_flight-eq tenant_id stack_template_id a.added t in
        subst₂ (λ x y. any (in_flight x y) runs ≡ false) p q a.alone)
      h)

Adds-unique :
    (id : Text) (runs runs' : List Run)
    → Adds runs runs'
    → count (λ r. r.id == id) runs ≤ 1
    → count (λ r. r.id == id) runs' ≤ 1
Adds-unique id runs runs' a h = rw a.appended (
    count-add_le_one (λ r. r.id == id) runs a.added
      (λ t. subst (λ x. any (λ r. r.id == x) runs ≡ false) ((==_iff a.added.id id).0 t) a.fresh) h)

Change-IsConsistent :
    (db db' : Database) → Change db.runs db'.runs → IsConsistent db → IsConsistent db'
Change-IsConsistent db db' (inl same) c = record {
  sound = rw same c.sound;
  exclusive = λ t s. rw same (c.exclusive t s);
  unique = λ i. rw same (c.unique i);
}
Change-IsConsistent db db' (inr (inl w)) c = record {
  sound = rw w.written (All-replace IsSound w.takes w.next db.runs c.sound w.sound);
  exclusive = λ t s. omega (arith, Writes-exclusive t s db.runs db'.runs w, c.exclusive t s);
  unique = λ i. omega (arith, Writes-unique i db.runs db'.runs w, c.unique i);
}
Change-IsConsistent db db' (inr (inr a)) c = record {
  sound = rw a.appended (All-append IsSound db.runs (a.added ∷ []) c.sound (a.sound, tt));
  exclusive = λ t s. Adds-exclusive t s db.runs db'.runs a (c.exclusive t s);
  unique = λ i. Adds-unique i db.runs db'.runs a (c.unique i);
}

-- Every operation by the workflows and the service, which record running only for the plan phase,
-- keeps a consistent table of runs consistent, whether it commits or fails: every run is sound, no
-- stack template has two runs in flight, and no identifier two rows.
pub perform-IsConsistent :
    (now : ℕ) (op : Operation) (db : Database)
    → FromWorkflow op
    → IsConsistent db
    → IsConsistent (perform now op db)
perform-IsConsistent now op db w c =
    Change-IsConsistent db (perform now op db) (perform-Change now op db w c.sound) c

abbrev pub AllFromWorkflow : List (ℕ × Operation) → Type 0
AllFromWorkflow = All (λ p. FromWorkflow p.1)

-- Every history of operations by the workflows and the service, which record running only for the
-- plan phase, keeps a consistent table of runs consistent.
pub run_history-IsConsistent :
    (ops : List (ℕ × Operation)) (db : Database)
    → AllFromWorkflow ops
    → IsConsistent db
    → IsConsistent (run_history ops db)
unfolding run_history
run_history-IsConsistent [] db w c = c
run_history-IsConsistent ((now, op) ∷ ops) db w c =
    run_history-IsConsistent ops (perform now op db) w.1 (perform-IsConsistent now op db w.0 c)

-- A run's row after some writes.
pub data Evolves (r : Run) : Run → Type 0 where
  here : Evolves r r
  then : {s t : Run} → Evolves r s → Follows s t → Evolves r t

Evolves-trans : {r s t : Run} → Evolves r s → Evolves s t → Evolves r t
Evolves-trans p here = p
Evolves-trans p (then q f) = then (Evolves-trans p q) f

abbrev pub has_id : Text → Run → Bool
has_id id r = r.id == id

-- One operation finds the run again, as it was or after one write.
pub perform-Evolves :
    (now : ℕ) (op : Operation) (db : Database) (id : Text) (r : Run)
    → FromWorkflow op
    → IsConsistent db
    → find? (has_id id) db.runs ≡ some r
    → (r' : Run) × (find? (has_id id) (perform now op db).runs ≡ some r') × Evolves r r'
perform-Evolves now op db id r w c f = elim (perform-Change now op db w c.sound) [
  | inl same ↦ (r, rw same f, here)
  | inr (inl x) ↦ elim (Bool-cases (has_id id x.previous)) [
    | inl t ↦
        let g : find? (has_id id) db.runs ≡ some x.previous =
          find?_unique (has_id id) x.takes db.runs (c.unique id) x.found t in
        let same : x.previous ≡ r = ground (arith, f, g) in
        (
          x.next,
          rw x.written (
              find?-replace (has_id id) x.takes x.next db.runs x.found g
                (ground (arith, x.follows.same_id, t))),
          subst (λ y. Evolves y x.next) same (then here x.follows),
        )
    | inr n ↦ (
      r,
      rw x.written (
          find?-replace_ne (has_id id) x.takes x.next db.runs x.found n
            (ground (arith, x.follows.same_id, n))
          ∙ f),
      here,
    )
  ]
  | inr (inr a) ↦ (r, rw a.appended (find?-append_some (has_id id) db.runs (a.added ∷ []) f), here)
]

-- A run stored in a consistent database is never lost: after any history of operations by the
-- workflows and the service, which record running only for the plan phase, its row is there,
-- reached by writes that each keep its identity and snapshot and leave its status or move it along
-- the lifecycle.
pub run_history-Evolves :
    (ops : List (ℕ × Operation)) (db : Database) (id : Text) (r : Run)
    → AllFromWorkflow ops
    → IsConsistent db
    → find? (has_id id) db.runs ≡ some r
    → (r' : Run) × (find? (has_id id) (run_history ops db).runs ≡ some r') × Evolves r r'
unfolding run_history
run_history-Evolves [] db id r w c f = (r, f, here)
run_history-Evolves ((now, op) ∷ ops) db id r w c f =
    let (s, g, p) = perform-Evolves now op db id r w.0 c f in
    let (t, h, q) =
      run_history-Evolves ops (perform now op db) id s w.1 (perform-IsConsistent now op db w.0 c)
        g in
    (t, h, Evolves-trans p q)

Follows-terminal : (r s : Run) → Follows r s → terminal r.status ≡ true → s.status ≡ r.status
Follows-terminal r s f t = ground arith

Evolves-terminal : {r s : Run} → Evolves r s → terminal r.status ≡ true → s.status ≡ r.status
Evolves-terminal here t = refl
Evolves-terminal {r} (then {s} {t} p f) h =
    let same : s.status ≡ r.status = Evolves-terminal p h in
    Follows-terminal s t f (rw same h) ∙ same

-- A run of a consistent database that completed, failed or was canceled keeps that status, and has
-- no plan key, after any history of operations by the workflows and the service, which record
-- running only for the plan phase.
pub run_history-terminal :
    (ops : List (ℕ × Operation)) (db : Database) (id : Text) (r : Run)
    → AllFromWorkflow ops
    → IsConsistent db
    → find? (has_id id) db.runs ≡ some r
    → terminal r.status ≡ true
    → (r' : Run) × (find? (has_id id) (run_history ops db).runs ≡ some r')
      × (r'.status ≡ r.status)
      × (r'.plan_artifact_dek ≡ none)
run_history-terminal ops db id r w c f t =
    let (r', g, p) = run_history-Evolves ops db id r w c f in
    let same = Evolves-terminal p t in
    let sound = All-find? IsSound (has_id id) _ (run_history-IsConsistent ops db w c).sound g in
    (r', g, same, sound.terminal_dropped (rw same t))
