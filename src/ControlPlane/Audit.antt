-- ===== src/ControlPlane/Audit.antt =====
-- aurora_core/control_plane/audit.py: the security events and their reasons.
pub data AuditEvent : Type 0 where
  login_succeeded login_failed login_rate_limited logout_succeeded : AuditEvent
  protected_page_denied protected_api_denied csrf_rejected : AuditEvent
  authentication_request_rejected session_rejected : AuditEvent
  wled_operation_succeeded wled_operation_failed wled_operation_denied : AuditEvent
  wled_operation_rate_limited wled_operation_busy wled_confirmation_rejected : AuditEvent
  wled_state_verification_failed : AuditEvent
  hyperhdr_operation_succeeded hyperhdr_operation_failed hyperhdr_operation_denied : AuditEvent
  hyperhdr_operation_rate_limited hyperhdr_operation_busy : AuditEvent
  hyperhdr_confirmation_rejected hyperhdr_state_verification_failed : AuditEvent
  aurora_operation_succeeded aurora_operation_partially_completed : AuditEvent
  aurora_operation_denied aurora_operation_rate_limited aurora_operation_busy : AuditEvent
  aurora_operation_failed aurora_operation_unverified : AuditEvent

pub data AuditReason : Type 0 where
  authenticated invalid_credentials attempt_limit logged_out : AuditReason
  authentication_required authentication_disabled invalid_session expired_session : AuditReason
  malformed_cookie missing_csrf invalid_csrf content_type content_length : AuditReason
  body_too_large transfer_encoding malformed_form controls_disabled : AuditReason
  operation_not_allowlisted invalid_brightness missing_confirmation : AuditReason
  invalid_confirmation operation_limit operation_in_progress connection_failure : AuditReason
  timeout http_rejection redirect_rejection oversized_response malformed_json : AuditReason
  missing_expected_state state_verification_mismatch unauthorized_response : AuditReason
  missing_success invalid_success command_mismatch missing_component_state : AuditReason
  ambiguous_component_state verified partial_completion : AuditReason
