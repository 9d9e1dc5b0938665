-- ===== src/Audit.antt =====
-- src/dbsc/audit.py: the state transitions that are reported to the host's audit logger. The
-- logger is the host's; a call of it is an effect.
use dbsc_python.Base.Text.{Text, codes}

pub data AuditEvent : Type 0 where
  registered registration_failed refreshed refresh_failed refresh_retryable revoked : AuditEvent
  enforcement_terminated : AuditEvent

-- The wire name of an event.
unfoldable pub value : AuditEvent → Text
unfolding codes
value registered = codes "dbscRegistered"
value registration_failed = codes "dbscRegistrationFailed"
value refreshed = codes "dbscRefreshed"
value refresh_failed = codes "dbscRefreshFailed"
value refresh_retryable = codes "dbscRefreshRetryable"
value revoked = codes "dbscRevoked"
value enforcement_terminated = codes "dbscEnforcementTerminated"
