-- ===== src/Teams.antt =====
-- apps/api/src/modules/teams/teams.routes.ts: the routes that write teams and users, behind their guards.
pub mod Edited
use ops_mesh.Base.{
  ℕ, ◌≡◌, refl, Bool, true, false, Option, none, some, List, [], ◌∷◌, ◌++◌, String, ◌==◌, string_eq,
  if◌then◌else◌, any, find, update_where,
}
use ops_mesh.Types.{UserRole}
use ops_mesh.Db.{Db, TeamRow}
use ops_mesh.Errors.{app, other, Result, ok, err, not_found_error}
use ops_mesh.Sql.{Value, Sets, collect, assign, bound}

abbrev pub has_team_id : String → TeamRow → Bool
has_team_id id t = t.id == id

unfoldable pub create_team :
    Db → (name : String) → Option String → (id : String) → Db × Result TeamRow
create_team db name description id =
    if any (has_team_id id) db.teams then (db, err (other "unique violation")) else (
      record db {
        teams = db.teams ++ record { id = id; name = name; description = description } ∷ [];
      },
      ok (record { id = id; name = name; description = description }),
    )

pub data TeamColumn : Type 0 where
  name description : TeamColumn

abbrev as_text : Option String → Option Value
as_text none = none
as_text (some s) = some (Value.text s)

abbrev pub team_columns : Option String → Option String → List (TeamColumn × Option Value)
team_columns new_name new_description =
    (TeamColumn.name, as_text new_name) ∷ (TeamColumn.description, as_text new_description) ∷ []

abbrev pub set_team : TeamColumn → Value → TeamRow → Option TeamRow
set_team TeamColumn.name (Value.text v) t = some (record t { name = v })
set_team TeamColumn.description (Value.text v) t = some (record t { description = some v })
set_team c v t = none

-- `UPDATE teams SET … WHERE id = $1 RETURNING …`, on the row that it finds.
abbrev pub written_team :
    Db → String → Option TeamRow → Option TeamRow → Db × Result (Option TeamRow)
written_team db id none row = (db, err (app (not_found_error "Team not found")))
written_team db id (some old) none = (db, err (other "invalid input syntax"))
written_team db id (some old) (some row) =
    (record db { teams = update_where (has_team_id id) (λ _. row) db.teams }, ok (some row))

abbrev pub team_after : Sets TeamColumn → List Value → Option TeamRow → Option TeamRow
team_after sets params none = none
team_after sets params (some old) = assign set_team params sets old

abbrev pub run_team :
    Db → String → Sets TeamColumn → List Value → Result (Unit {0}) → Db × Result (Option TeamRow)
run_team db id sets params (err e) = (db, err e)
run_team db id sets params (ok _) =
    let old = find (has_team_id id) db.teams in written_team db id old (team_after sets params old)

-- No column given: nothing is done, and the answer has no row.
abbrev pub apply_team : Db → String → Sets TeamColumn × List Value → Db × Result (Option TeamRow)
apply_team db id ([], params) = (db, ok none)
apply_team db id (first ∷ rest, params) =
    run_team db id (first ∷ rest) params (bound (first ∷ rest) params)

-- The parameters start with the id, and the placeholders count it.
unfoldable pub update_team :
    Db → String → Option String → Option String → Db × Result (Option TeamRow)
update_team db id new_name new_description =
    apply_team db id (collect ([], Value.text id ∷ []) (team_columns new_name new_description))
