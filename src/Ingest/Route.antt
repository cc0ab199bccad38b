-- ===== src/Ingest/Route.antt =====
-- POST /api/v1/events of apps/api/src/modules/events/events.routes.ts: the key, the limit, the schema,
-- and the ingestion, in this order.
use ops_mesh.Base.{ℕ, Bool, true, false, not, some, [], ◌∷◌, String, string_eq, if◌then◌else◌}
use ops_mesh.Types.{event_ingest}
use ops_mesh.Errors.{app, Result, ok, err, validation_error, AppError}
use ops_mesh.World.{World, text}
use ops_mesh.RateLimit.{RateLimitOptions, Passage, admitted, refused, rate_limiter}
use ops_mesh.Auth.{Headers, ApiKeyAuth, require_api_key}
use ops_mesh.Ingest.{IngestEventInput, IngestResult, Outside, Call, Intake, ingest_event}

-- The status and the fields of the answer.
pub record EventReply : Type 0 where
  pub status : ℕ
  pub event_id : String
  pub duplicate : Bool
  pub fingerprint : String

-- The body of the answer 400, which the route writes itself.
abbrev pub event_rejected : AppError
event_rejected = record {
  status_code = 400;
  code = "EVENT_REJECTED";
  message = "Event was not accepted";
  details = [];
}

-- The answers by what ingestEvent returned.
abbrev pub reply_of : IngestResult → Result EventReply
reply_of r =
    if r.duplicate
    then ok (record {
      status = 200;
      event_id = r.event_id;
      duplicate = true;
      fingerprint = r.fingerprint;
    })
    else if not r.accepted
    then err (app event_rejected)
    else ok (record {
      status = 202;
      event_id = r.event_id;
      duplicate = false;
      fingerprint = r.fingerprint;
    })

abbrev pub replied : Intake × Result IngestResult → Intake × Result EventReply
replied (s, ok r) = (s, reply_of r)
replied (s, err e) = (s, err e)

-- `event:${req.apiKey.subject}`
abbrev pub event_limit_id : ApiKeyAuth → String
event_limit_id key = text ("event:" ∷ key.subject ∷ [])

-- `valid` is the parser of ingestEventSchema.
module _ (o : Outside) (sha256 : String → String) (valid : IngestEventInput → Bool) where
  abbrev pub validated : Call → Intake → IngestEventInput → ApiKeyAuth → Intake × Result EventReply
  validated c s input key =
      if valid input
      then replied (ingest_event o c s input (some key.subject))
      else (s, err (app (validation_error "Invalid request payload")))

  abbrev pub limited :
      Call → Intake → IngestEventInput → ApiKeyAuth → World × Passage → Intake × Result EventReply
  limited c s input key (w, refused e after headers) = (record s { world = w }, err (app e))
  limited c s input key (w, admitted headers) = validated c (record s { world = w }) input key

  abbrev pub accepted :
      RateLimitOptions
      → Call
      → (member : String) → Intake
      → IngestEventInput
      → Result ApiKeyAuth
      → Intake × Result EventReply
  accepted opts c member s input (err e) = (s, err e)
  accepted opts c member s input (ok key) =
      limited c s input key (rate_limiter opts s.world (event_limit_id key) c.now member)

  unfoldable pub post_event :
      RateLimitOptions
      → Call
      → (member : String) → Intake
      → Headers
      → IngestEventInput
      → Intake × Result EventReply
  post_event opts c member s h input =
      accepted opts c member s input (require_api_key sha256 event_ingest s.world.db h)
