-- ===== src/Types.antt =====
-- packages/shared/src/types/index.ts: the enumerations.

pub data ServiceStatus : Type 0 where
  healthy degraded down unknown maintenance : ServiceStatus

pub data ServiceCriticality : Type 0 where
  low medium high critical : ServiceCriticality

pub data Environment : Type 0 where
  development staging production : Environment

pub data EventSeverity : Type 0 where
  low medium high critical : EventSeverity

pub data IncidentSeverity : Type 0 where
  sev1 sev2 sev3 sev4 : IncidentSeverity

pub data IncidentStatus : Type 0 where
  open_ acknowledged investigating mitigated resolved escalated : IncidentStatus

pub data IncidentPriority : Type 0 where
  p1 p2 p3 p4 : IncidentPriority

pub data UserRole : Type 0 where
  admin engineer viewer : UserRole

pub data NotificationChannel : Type 0 where
  email webhook slack : NotificationChannel

pub data NotificationStatus : Type 0 where
  pending sent failed retrying : NotificationStatus

pub data ApiKeyPurpose : Type 0 where
  event_ingest admin : ApiKeyPurpose
