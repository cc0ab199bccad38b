-- ===== src/Sql.antt =====
-- Statements with numbered placeholders, as the services and the teams build them for node-postgres.
-- PostgreSQL refuses a statement that is bound to another number of parameters than it names.
use ops_mesh.Base.{
  ℕ, ◌+◌, max, Option, none, some, List, [], ◌∷◌, ◌++◌, String, ◌==◌, nat_eq, if◌then◌else◌, length,
  get_elem?, ◌-◌,
}
use ops_mesh.Types.{ServiceCriticality, ServiceStatus}
use ops_mesh.Errors.{Result, ok, err, other}

pub data Value : Type 0 where
  text : String → Value
  number : ℕ → Value
  criticality : ServiceCriticality → Value
  status : ServiceStatus → Value

-- An assignment `column = $n`.
abbrev pub Sets : Type 0 → Type 0
Sets C = List (C × ℕ)

abbrev pub bind_error : String
bind_error = "bind message supplies a wrong number of parameters"

-- `$n` of the bound parameters
abbrev pub param : List Value → ℕ → Option Value
param params n = get_elem? params (n - 1)

module _ {C : Type 0} where
  abbrev pub highest : Sets C → ℕ
  highest [] = 0
  highest ((c, n) ∷ sets) = max n (highest sets)

  -- One round of the loop that collects the columns that are given.
  abbrev pub push : Sets C × List Value → C × Option Value → Sets C × List Value
  push (sets, params) (c, none) = (sets, params)
  push (sets, params) (c, some v) = (sets ++ (c, length params + 1) ∷ [], params ++ v ∷ [])

  unfoldable pub collect : Sets C × List Value → List (C × Option Value) → Sets C × List Value
  collect acc [] = acc
  collect acc (given ∷ columns) = collect (push acc given) columns

  -- What the assignments do to a row; `set` is none where the value is not of the column's type.
  unfoldable pub assign {ℓ} :
      {R : Type ℓ} → (C → Value → R → Option R) → List Value → Sets C → R → Option R
  assign set params [] r = some r
  assign set params ((c, n) ∷ sets) r = elim (param params n) [
    | none ↦ none
    | some v ↦ elim (set c v r) [ none ↦ none | some r' ↦ assign set params sets r' ]
  ]

-- `$1` is the id of the `WHERE` clause.
unfoldable pub bound : {C : Type 0} → Sets C → List Value → Result (Unit {0})
bound sets params = if length params == max 1 (highest sets) then ok tt else err (other bind_error)
