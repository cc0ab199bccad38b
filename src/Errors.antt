-- ===== src/Errors.antt =====
-- apps/api/src/common/errors.ts and middleware/error-handler.ts: the errors that a request ends in.
use ops_mesh.Base.{ℕ, String, Option, none, some, List, []}

pub record AppError : Type 0 where
  pub status_code : ℕ
  pub code : String
  pub message : String
  pub details : List (String × String)

abbrev pub validation_error : String → AppError
validation_error m = record {
  status_code = 422;
  code = "VALIDATION_ERROR";
  message = m;
  details = [];
}

abbrev pub unauthorized_error : String → AppError
unauthorized_error m = record {
  status_code = 401;
  code = "UNAUTHORIZED";
  message = m;
  details = [];
}

abbrev pub forbidden_error : String → AppError
forbidden_error m = record { status_code = 403; code = "FORBIDDEN"; message = m; details = [] }

abbrev pub not_found_error : String → AppError
not_found_error m = record { status_code = 404; code = "NOT_FOUND"; message = m; details = [] }

abbrev pub conflict_error : String → AppError
conflict_error m = record { status_code = 409; code = "CONFLICT"; message = m; details = [] }

abbrev pub rate_limit_error : String → AppError
rate_limit_error m = record { status_code = 429; code = "RATE_LIMITED"; message = m; details = [] }

abbrev pub bad_request_error : String → AppError
bad_request_error m = record { status_code = 400; code = "BAD_REQUEST"; message = m; details = [] }

-- What a handler may throw: an `AppError`, a `ZodError` with its issues, or anything else, such as an
-- error of the database.
pub data Thrown : Type 0 where
  app : AppError → Thrown
  zod : List (String × String) → Thrown
  other : String → Thrown

-- A value, or what was thrown in its place.
pub data Result {ℓ} (A : Type ℓ) : Type ℓ where
  err : Thrown → Result A
  ok : A → Result A

-- The rest of a block runs on the value only.
module _ {κ} {B : Type κ} where
  infixl 5 ◌>>=◌ ◌>>◌
  abbrev pub ◌>>=◌ {ℓ} : {A : Type ℓ} → Result A → (A → Result B) → Result B
  err e >>= rest = err e
  ok value >>= rest = rest value

  abbrev pub ◌>>◌ : Result (Unit {0}) → Result B → Result B
  check >> rest = check >>= λ _. rest

-- `if (!x) throw e`
abbrev pub or_throw {ℓ} : {A : Type ℓ} → Option A → Thrown → Result A
or_throw none e = err e
or_throw (some a) e = ok a

-- The JSON body of an error response.
pub record ErrorResponse : Type 0 where
  pub status : ℕ
  pub code : String
  pub message : String
  pub details : List (String × String)
  pub request_id : String

-- `request_id` is that of the request's context.
unfoldable pub error_handler : (request_id : String) → Thrown → ErrorResponse
error_handler request_id (app e) = record {
  status = e.status_code;
  code = e.code;
  message = e.message;
  details = e.details;
  request_id = request_id;
}
error_handler request_id (zod issues) = record {
  status = 422;
  code = "VALIDATION_ERROR";
  message = "Invalid request payload";
  details = issues;
  request_id = request_id;
}
error_handler request_id (other message) = record {
  status = 500;
  code = "INTERNAL_ERROR";
  message = "Internal server error";
  details = [];
  request_id = request_id;
}

unfoldable pub not_found_handler : (request_id : String) → ErrorResponse
not_found_handler request_id = record {
  status = 404;
  code = "NOT_FOUND";
  message = "Route not found";
  details = [];
  request_id = request_id;
}
