-- ===== src/Incidents/Listed.antt =====
-- The incident list: listIncidents and countActiveIncidents of
-- apps/api/src/modules/incidents/incidents.service.ts and the route `GET /` of incidents.routes.ts.
use ops_mesh.Base.{
  or_else, ℕ, ◌*◌, ◌≤◌, ◌≡◌, refl, sym, ◌∙◌, ap, Bool, true, false, not, Option, none, some, List,
  [], ◌∷◌, ◌++◌, String, ◌==◌, string_eq, if◌then◌else◌, ◌&&◌, length, filter, subst, Bool-cases,
  ◌⊎◌, inl, inr, arith, suc, zero, ◌+◌, sort_desc_by, length-sort_desc_by, length-append,
}
use ops_mesh.Types.{
  IncidentStatus, open_, acknowledged, investigating, mitigated, resolved, escalated,
}
use ops_mesh.Shared.StateMachine.{status_eq}
use ops_mesh.Shared.Severity.{severity_text}
use ops_mesh.Db.{Db, IncidentRow}
use ops_mesh.Errors.{Result, ok, ◌>>=◌}
use ops_mesh.Auth.{non_empty}
use ops_mesh.Listing.{
  Query, num, Pagination, parse_pagination, validate_query, text_of, number_at, page_at, Listed,
}
use ops_mesh.Listing.Pages.{pages, pages_all}

pub record ListOptions : Type 0 where
  pub page : Option ℕ
  pub limit : Option ℕ
  pub status : Option IncidentStatus
  pub severity : Option String
  pub service_id : Option String
  pub assignee_id : Option String

-- `column = $n`, when the option is given
abbrev pub equals : Option String → String → Bool
equals none value = true
equals (some wanted) value = value == wanted

abbrev pub status_matches : Option IncidentStatus → IncidentStatus → Bool
status_matches none status = true
status_matches (some wanted) status = status == wanted

-- A column that may be NULL equals nothing then.
abbrev pub equals_option : Option String → Option String → Bool
equals_option none value = true
equals_option (some wanted) none = false
equals_option (some wanted) (some value) = value == wanted

abbrev pub is_wanted : ListOptions → IncidentRow → Bool
is_wanted o i =
    status_matches o.status i.status
    && equals (non_empty o.severity) (severity_text i.severity)
    && equals (non_empty o.service_id) i.service_id
    && equals_option (non_empty o.assignee_id) i.assigned_engineer_id

abbrev pub is_resolved : IncidentRow → Bool
is_resolved i = i.status == resolved

-- `ORDER BY (status = 'RESOLVED') ASC, created_at DESC`
unfoldable pub ordered : List IncidentRow → List IncidentRow
ordered rows =
    sort_desc_by (λ i. i.created_at) (filter (λ i. not (is_resolved i)) rows)
    ++ sort_desc_by (λ i. i.created_at) (filter is_resolved rows)

unfoldable pub list_incidents : Db → ListOptions → Listed IncidentRow
list_incidents db o = record {
  data_ =
      page_at (or_else o.page 1) (or_else o.limit 20) (ordered (filter (is_wanted o) db.incidents));
  total = length (filter (is_wanted o) db.incidents);
}

unfoldable pub count_active_incidents : Db → ℕ
count_active_incidents db = length (filter (λ i. not (is_resolved i)) db.incidents)

abbrev pub parse_status : Option String → Option IncidentStatus
parse_status none = none
parse_status (some s) =
    if s == "OPEN"
    then some open_
    else (if s == "ACKNOWLEDGED"
        then some acknowledged
        else (if s == "INVESTIGATING"
            then some investigating
            else (if s == "MITIGATED"
                then some mitigated
                else (if s == "RESOLVED"
                    then some resolved
                    else (if s == "ESCALATED" then some escalated else none)))))

abbrev pub options_of_query : Query → ListOptions
options_of_query q = record {
  page = some (number_at q "page" 1);
  limit = some (number_at q "limit" 20);
  status = parse_status (text_of q "status");
  severity = text_of q "severity";
  service_id = text_of q "serviceId";
  assignee_id = text_of q "assigneeId";
}

unfoldable pub get_incidents : (String → Option ℕ) → Db → Query → Result (Listed IncidentRow)
get_incidents coerce db query =
    validate_query coerce query >>= λ q. ok (list_incidents db (options_of_query q))

length_parts :
    (rows : List IncidentRow)
    → length (filter (λ i. not (is_resolved i)) rows) + length (filter is_resolved rows)
      ≡ length rows
length_parts [] = refl
length_parts (i ∷ rows) = ground (arith, length_parts rows)

length-ordered : (rows : List IncidentRow) → length (ordered rows) ≡ length rows
unfolding ordered
length-ordered rows =
    let open_part = sort_desc_by (λ i. i.created_at) (filter (λ i. not (is_resolved i)) rows) in
    let closed_part = sort_desc_by (λ i. i.created_at) (filter is_resolved rows) in
    omega (
      arith,
      length-append open_part closed_part,
      length-sort_desc_by (λ i. i.created_at) (filter (λ i. not (is_resolved i)) rows),
      length-sort_desc_by (λ i. i.created_at) (filter is_resolved rows),
      length_parts rows,
    )

-- The pages together are the rows that are wanted, as the query orders them.
pub pages-ordered :
    (db : Db) (o : ListOptions) (n : ℕ)
    → (list_incidents db o).total ≤ n * or_else o.limit 20
    → (pages (λ p. (list_incidents db (record o { page = some p })).data_) n
        ≡ ordered (filter (is_wanted o) db.incidents))
      × ((list_incidents db o).total ≡ length (ordered (filter (is_wanted o) db.incidents)))
unfolding list_incidents
pages-ordered db o n h =
    let wanted = filter (is_wanted o) db.incidents in
    (
      pages_all (or_else o.limit 20) n (ordered wanted)
          (subst (λ k. k ≤ n * or_else o.limit 20) (sym (length-ordered wanted)) h),
      sym (length-ordered wanted),
    )

-- Whatever filters the query string of `GET /incidents` has, if its page and limit are accepted,
-- then the reply is that page of all incidents, filtered by nothing.
pub get_incidents_unfiltered :
    (coerce : String → Option ℕ) (db : Db) (query : Query) (p : Pagination)
    → parse_pagination coerce query ≡ ok p
    → get_incidents coerce db query
      ≡ ok (
          list_incidents db (record {
            page = some p.page;
            limit = some p.limit;
            status = none;
            severity = none;
            service_id = none;
            assignee_id = none;
          }))
unfolding get_incidents validate_query ops_mesh.Base.lookup
get_incidents_unfiltered coerce db query p h =
    ap
      (λ r. r >>= (λ p. ok (("page", num p.page) ∷ ("limit", num p.limit) ∷ [])) >>= λ q.
        ok (list_incidents db (options_of_query q)))
      h
