-- ===== src/Listing.antt =====
-- Lists that are served in pages: paginationSchema of packages/shared/src/schemas/index.ts, what
-- `validate` of apps/api/src/middleware/validate.ts makes of a query string with it, and `LIMIT … OFFSET`.
pub mod Pages
use ops_mesh.Base.{
  ℕ, ◌+◌, ◌-◌, ◌*◌, Bool, true, false, Option, none, some, List, [], ◌∷◌, String, if◌then◌else◌,
  ◌&&◌, leb, take, drop, Map, lookup, or_else,
}
use ops_mesh.Errors.{AppError, Result, ok, err, app, validation_error, ◌>>=◌}

-- The value of a query parameter: a text, or after the parser a number.
pub data QueryValue : Type 0 where
  str : String → QueryValue
  num : ℕ → QueryValue

abbrev pub Query : Type 0
Query = Map QueryValue

pub record Pagination : Type 0 where
  pub page : ℕ
  pub limit : ℕ

-- `z.coerce.number().int()`: `coerce` is what `Number` makes of a text, where that is a natural number.
module _ (coerce : String → Option ℕ) where
  abbrev pub number_of : QueryValue → Option ℕ
  number_of (str s) = coerce s
  number_of (num n) = some n

  abbrev pub at_least_one : Option ℕ → Option ℕ
  at_least_one none = none
  at_least_one (some n) = if leb 1 n then some n else none

  abbrev pub at_most_100 : Option ℕ → Option ℕ
  at_most_100 none = none
  at_most_100 (some n) = if leb n 100 then some n else none

  abbrev pub page_of_query : Option QueryValue → Option ℕ
  page_of_query none = some 1
  page_of_query (some v) = at_least_one (number_of v)

  abbrev pub limit_of_query : Option QueryValue → Option ℕ
  limit_of_query none = some 20
  limit_of_query (some v) = at_most_100 (at_least_one (number_of v))

  abbrev pub paginated : Option ℕ → Option ℕ → Result Pagination
  paginated none limit = err (app (validation_error "Invalid request payload"))
  paginated (some page) none = err (app (validation_error "Invalid request payload"))
  paginated (some page) (some limit) = ok (record { page = page; limit = limit })

  unfoldable pub parse_pagination : Query → Result Pagination
  parse_pagination q =
      paginated (page_of_query (lookup "page" q)) (limit_of_query (lookup "limit" q))

  -- `req.query = schemas.query.parse(req.query)`: the parser of an object keeps its own keys only.
  unfoldable pub validate_query : Query → Result Query
  unfolding parse_pagination
  validate_query q =
      parse_pagination q >>= λ p. ok (("page", num p.page) ∷ ("limit", num p.limit) ∷ [])

-- `q.name` where the code takes it for a text
abbrev pub text_of : Query → String → Option String
text_of q key = elim (lookup key q) [
  | none ↦ none
  | some v ↦ elim v [ str s ↦ some s | num n ↦ none ]
]

abbrev pub number_at : Query → String → ℕ → ℕ
number_at q key default = elim (lookup key q) [
  | none ↦ default
  | some v ↦ elim v [ str s ↦ default | num n ↦ n ]
]

-- `LIMIT limit OFFSET (page - 1) * limit`
unfoldable pub page_at {ℓ} : {A : Type ℓ} → ℕ → ℕ → List A → List A
page_at page limit rows = take limit (drop ((page - 1) * limit) rows)

pub record Listed {ℓ} (A : Type ℓ) : Type ℓ where
  pub data_ : List A
  pub total : ℕ
