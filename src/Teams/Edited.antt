-- ===== src/Teams/Edited.antt =====
-- What an update of a team does.
use ops_mesh.Base.{
  ◌≡◌, refl, true, Option, none, some, String, ◌||◌, string_eq, is_some, find, update_where,
  or_else, arith,
}
use ops_mesh.Db.{Db, TeamRow}
use ops_mesh.Errors.{app, ok, err, not_found_error}
use ops_mesh.Sql.{collect, assign, bound}
use ops_mesh.Teams.{has_team_id, update_team}

-- The row with the fields that were given.
abbrev pub edited : Option String → Option String → TeamRow → TeamRow
edited new_name new_description t = record t {
  name = or_else new_name t.name;
  description = elim new_description [ none ↦ t.description | some d ↦ some d ];
}

-- An update with a name, a description or both, of a team that exists, sets exactly the given ones of
-- them in its row and answers with it; of a team that does not exist, nothing changes and the answer is
-- that it was not found; and an update that gives neither changes nothing and answers with no row.
pub update_team_lem :
    (db : Db) (id : String) (new_name new_description : Option String) (t : TeamRow)
    → find (has_team_id id) db.teams ≡ some t
    → (other : String) → find (has_team_id other) db.teams ≡ none
    → is_some new_name || is_some new_description ≡ true
    → (update_team db id new_name new_description ≡ (
      record db {
        teams = update_where (has_team_id id) (λ _. edited new_name new_description t) db.teams;
      },
      ok (some (edited new_name new_description t)),
    ))
      × (update_team db other new_name new_description
          ≡ (db, err (app (not_found_error "Team not found"))))
      × (update_team db id none none ≡ (db, ok none))
unfolding update_team collect bound assign
update_team_lem db id (some n) (some d) t h other gone given = (rw h refl, rw gone refl, refl)
update_team_lem db id (some n) none t h other gone given = (rw h refl, rw gone refl, refl)
update_team_lem db id none (some d) t h other gone given = (rw h refl, rw gone refl, refl)
update_team_lem db id none none t h other gone given = absurd (ground (arith, given))
