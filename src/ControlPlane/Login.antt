-- ===== src/ControlPlane/Login.antt =====
-- aurora_core/control_plane/service.py: ControlPlaneService, which owns the sessions, the limiter of
-- logins and the audit. `client_digest`, `digest` and `token_factory` are as in Limiter and
-- Sessions; `verify_password` stands for the function of security/passwords.py. A login reads the
-- clock once for the limiter and once for the new session.
pub mod Authorization
pub mod Rotation
use text.Mathlib.Text.{◌==◌ as str_eq}
use project_aurora.Base.{
  ℕ, ◌*◌, ◌⊎◌, inl, inr, Bool, true, false, not, ◌&&◌, Option, none, some, String, List, [], ◌∷◌,
  ◌++◌, if◌then◌else◌,
}
use project_aurora.Base.Checked.{Checked, ok, value_error, ◌>>=◌}
use project_aurora.ControlPlane.Audit.{
  AuditEvent, AuditReason, login_succeeded, login_failed, login_rate_limited, logout_succeeded,
  csrf_rejected, session_rejected, protected_page_denied, protected_api_denied,
  authentication_request_rejected, authenticated, invalid_credentials, attempt_limit, logged_out,
  invalid_session, expired_session, malformed_cookie, missing_csrf, invalid_csrf,
}
use project_aurora.ControlPlane.Limiter.{
  LoginAttemptLimiter, create_limiter, begin_attempt, clear, max_tracked_clients,
  tracked_client_count,
}
use project_aurora.ControlPlane.Sessions.{
  SessionStore, SessionContext, SessionLookup, SessionLookupStatus, CreatedSession, Token, valid,
  invalid, expired, create_store, create, resolve, invalidate, csrf_is_valid, active_count, Raising,
}

pub data LoginStatus : Type 0 where
  success failure rate_limited unavailable : LoginStatus

pub record LoginResult : Type 0 where
  pub status : LoginStatus
  pub created_session : Option CreatedSession

-- `DashboardAuthenticationSettings`
pub record AuthenticationSettings : Type 0 where
  pub enabled : Bool
  pub username : Option String
  pub password_hash : Option String
  pub session_ttl_minutes : ℕ
  pub maximum_sessions : ℕ
  pub login_attempt_limit : ℕ
  pub login_attempt_window_seconds : ℕ

pub record Entry : Type 0 where
  pub event : AuditEvent
  pub reason : AuditReason

pub record ControlPlaneService : Type 0 where
  pub settings : AuthenticationSettings
  pub sessions : SessionStore
  pub limiter : LoginAttemptLimiter
  pub audit : List Entry

-- `x or ""`
abbrev pub text_or_empty : Option String → String
text_or_empty none = ""
text_or_empty (some text) = text

-- `__init__`
unfoldable pub create_service : AuthenticationSettings → Checked ControlPlaneService
create_service settings = do
  sessions ← create_store (settings.session_ttl_minutes * 60) settings.maximum_sessions
  limiter ←
      create_limiter settings.login_attempt_limit settings.login_attempt_window_seconds
        max_tracked_clients
  ok (record { settings = settings; sessions = sessions; limiter = limiter; audit = [] })

-- `self._audit.emit(event, reason)`
abbrev pub emit : ControlPlaneService → AuditEvent → AuditReason → ControlPlaneService
emit s event reason = record s { audit = s.audit ++ record { event = event; reason = reason } ∷ [] }

abbrev pub without_session : LoginStatus → LoginResult ⊎ String
without_session status = inl (record { status = status; created_session = none })

-- What follows `create`: the RuntimeError goes on to the caller.
unfoldable pub signed_in :
    ControlPlaneService → Raising CreatedSession → ControlPlaneService × (LoginResult ⊎ String)
signed_in s (sessions, inl created) = (
  emit (record s { sessions = sessions }) login_succeeded authenticated,
  inl (record { status = success; created_session = some created }),
)
signed_in s (sessions, inr error) = (record s { sessions = sessions }, inr error)

module _ (digest : Token → ℕ) (token_factory : ℕ → ℕ → Token) where
  -- `if prior_session_token is not None: ...`
  unfoldable pub invalidate_prior : SessionStore → Option Token → SessionStore
  invalidate_prior sessions none = sessions
  invalidate_prior sessions (some token) = (invalidate digest token_factory sessions token).0

  module _ (client_digest : String → ℕ) (verify_password : String → String → Bool) where
    abbrev pub credentials_match : ControlPlaneService → String → String → Bool
    credentials_match s username password =
        str_eq username (text_or_empty s.settings.username)
        && verify_password password (text_or_empty s.settings.password_hash)

    -- What `authenticate` does for credentials that match.
    unfoldable pub sign_in :
        ControlPlaneService
        → String
        → Option Token
        → ℕ
        → ControlPlaneService × (LoginResult ⊎ String)
    sign_in s client prior now =
        let s' = record s {
          limiter = clear client_digest s.limiter client;
          sessions = invalidate_prior s.sessions prior;
        } in
        signed_in s'
          (create digest token_factory s'.sessions (text_or_empty s.settings.username) now)

    -- `authenticate`
    unfoldable pub authenticate :
        ControlPlaneService
        → String
        → String
        → String
        → Option Token
        → ℕ
        → ℕ
        → ControlPlaneService × (LoginResult ⊎ String)
    authenticate s username password client prior attempted_at created_at =
        let (limiter, accepted) = begin_attempt client_digest s.limiter client attempted_at in
        let s' = record s { limiter = limiter } in
        if not s.settings.enabled
        then (s, without_session unavailable)
        else if not accepted
        then (emit s' login_rate_limited attempt_limit, without_session rate_limited)
        else if not (credentials_match s username password)
        then (emit s' login_failed invalid_credentials, without_session failure)
        else sign_in s' client prior created_at

  abbrev pub rejection_of : SessionLookupStatus → AuditReason
  rejection_of expired = expired_session
  rejection_of _ = invalid_session

  -- What `resolve_session` does with a lookup, by its status.
  unfoldable pub answer_lookup :
      ControlPlaneService
      → SessionLookupStatus
      → Option SessionContext
      → ControlPlaneService × Option SessionContext
  answer_lookup s valid session = (s, session)
  answer_lookup s status session = (emit s session_rejected (rejection_of status), none)

  -- `resolve_session`
  unfoldable pub resolve_session :
      ControlPlaneService → Option Token → ℕ → ControlPlaneService × Option SessionContext
  resolve_session s none now = (s, none)
  resolve_session s (some token) now =
      if not s.settings.enabled
      then (s, none)
      else let (sessions, lookup) = resolve digest token_factory s.sessions token now in
        answer_lookup (record s { sessions = sessions }) lookup.status lookup.session

  -- `logout`
  unfoldable pub logout :
      ControlPlaneService → Token → SessionContext → Option Token → ControlPlaneService × Bool
  logout s token session none = (emit s csrf_rejected missing_csrf, false)
  logout s token session (some csrf) =
      if not (csrf_is_valid session csrf) then (emit s csrf_rejected invalid_csrf, false) else (
        emit (record s { sessions = (invalidate digest token_factory s.sessions token).0 })
            logout_succeeded logged_out,
        true,
      )

-- The properties `active_session_count` and `tracked_client_count`, which clean up.
unfoldable active_session_count : ControlPlaneService → ℕ → ControlPlaneService × ℕ
active_session_count s now =
    let (sessions, count) = active_count s.sessions now in (record s { sessions = sessions }, count)

unfoldable count_login_clients : ControlPlaneService → ℕ → ControlPlaneService × ℕ
count_login_clients s now =
    let (limiter, count) = tracked_client_count s.limiter now in
    (record s { limiter = limiter }, count)

-- `audit_page_denied` and `audit_api_denied`, `audit_malformed_cookie`, `audit_malformed_request`
unfoldable audit_page_denied : ControlPlaneService → AuditReason → ControlPlaneService
audit_page_denied s reason = emit s protected_page_denied reason

unfoldable audit_api_denied : ControlPlaneService → AuditReason → ControlPlaneService
audit_api_denied s reason = emit s protected_api_denied reason

unfoldable audit_malformed_cookie : ControlPlaneService → ControlPlaneService
audit_malformed_cookie s = emit s session_rejected malformed_cookie

unfoldable audit_malformed_request : ControlPlaneService → AuditReason → ControlPlaneService
audit_malformed_request s reason = emit s authentication_request_rejected reason
