-- ===== src/Service/Carrying.antt =====
-- The config that an upgrade carries forward, against the validation that follows it.
use tflive.Common.{
  ◌==◌, Bool, true, false, not, ◌≡◌, refl, sym, ◌∙◌, arith, inl, inr, List, [], ◌∷◌, some, none,
  all, Bool-cases, Option-cases, if◌then◌else◌, ==-refl, ==_iff,
}
use tflive.Domain.{Text}
use tflive.Service.State.{Json, TemplateVariable}
use tflive.Service.Configs.{
  value_of, is_declared, entry_allowed, variable_satisfied, config_allowed, carried_entries,
}

-- The values that a validated config holds.
abbrev pub not_null : Json → Text × Text → Bool
not_null json entry = not (entry.1 == json.null)

value_of-not_null :
    (json : Json) (name : Text) (current : List (Text × Text)) {value : Text}
    → all (not_null json) current ≡ true
    → value_of name current ≡ some value
    → (value == json.null) ≡ false
value_of-not_null json name [] h e = cc
value_of-not_null json name ((n, v) ∷ current) {value} h e = elim (Bool-cases (n == name)) [
  | inl t ↦ ground (arith, h, e, t)
  | inr f ↦ value_of-not_null json name current (ground (arith, h)) (rw f at e)
]

all-entry_allowed :
    (json : Json) (declared variables : List TemplateVariable) (current : List (Text × Text))
    → all (not_null json) current ≡ true
    → ((name : Text) → is_declared variables name ≡ true → is_declared declared name ≡ true)
    → all (entry_allowed json declared) (carried_entries variables current) ≡ true
unfolding carried_entries
all-entry_allowed json declared [] current h within = refl
all-entry_allowed json declared (v ∷ variables) current h within =
    let rest =
      all-entry_allowed json declared variables current h
        (λ name d. within name (ground (arith, d))) in
    elim (Option-cases (value_of v.name current)) [
      | inl missing ↦ rw missing rest
      | inr (value, found) ↦
          let declares = within v.name (ground (arith, ==-refl v.name)) in
          let given = value_of-not_null json v.name current h found in
          rw found (ground (arith, rest, declares, given))
    ]

if-same : {A : Type 0} (b : Bool) (x : A) → (if b then x else x) ≡ x
if-same true x = refl
if-same false x = refl

-- A name is carried with its value exactly if the target declares it.
value_of-carried_entries :
    (variables : List TemplateVariable) (current : List (Text × Text)) (name : Text)
    → value_of name (carried_entries variables current)
      ≡ (if is_declared variables name then value_of name current else none)
unfolding carried_entries
value_of-carried_entries [] current name = refl
value_of-carried_entries (v ∷ variables) current name =
    let rest = value_of-carried_entries variables current name in
    elim (Bool-cases (v.name == name)) [
      | inl t ↦
          let same : v.name ≡ name = (==_iff v.name name).0 t in
          elim (Option-cases (value_of name current)) [
            | inl missing ↦
                rw (same, missing) ((rw missing at rest) ∙ if-same _ none ∙ sym (if-same _ none))
            | inr (value, found) ↦ rw (same, found) (rw (==-refl name) refl)
          ]
      | inr f ↦ elim (Option-cases (value_of v.name current)) [
        | inl missing ↦ rw (missing, f) rest
        | inr (value, found) ↦ rw (found, f) rest
      ]
    ]

satisfied-carried :
    (json : Json) (declared variables : List TemplateVariable) (current : List (Text × Text))
    → ((name : Text) → is_declared variables name ≡ true → is_declared declared name ≡ true)
    → all (variable_satisfied json (carried_entries declared current)) variables
      ≡ all (variable_satisfied json current) variables
satisfied-carried json declared [] current within = refl
satisfied-carried json declared (v ∷ variables) current within =
    let rest =
      satisfied-carried json declared variables current
        (λ name d. within name (ground (arith, d))) in
    let declares = within v.name (ground (arith, ==-refl v.name)) in
    let same : value_of v.name (carried_entries declared current) ≡ value_of v.name current =
      rw declares at (value_of-carried_entries declared current v.name) in
    rw (same, rest) refl

-- Where no value of the current config is null, the config that carryForwardConfig makes for the
-- variables of a revision passes the validation of that revision exactly if the current config gives
-- every required variable: no name is unknown and no value that the revision still declares is lost.
pub config_allowed-carried_entries :
    (json : Json) (variables : List TemplateVariable) (current : List (Text × Text))
    → all (not_null json) current ≡ true
    → (config_allowed json variables (carried_entries variables current)
        ≡ all (variable_satisfied json current) variables)
      × ((name : Text)
          → value_of name (carried_entries variables current)
            ≡ (if is_declared variables name then value_of name current else none))
unfolding config_allowed
config_allowed-carried_entries json variables current h = (
  rw (all-entry_allowed json variables variables current h (λ name d. d))
      (satisfied-carried json variables variables current (λ name d. d)),
  value_of-carried_entries variables current,
)
