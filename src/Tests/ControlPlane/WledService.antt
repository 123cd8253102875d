-- ===== src/Tests/ControlPlane/WledService.antt =====
-- Runs of aurora_core/control_plane/wled_service.py.
use project_aurora.Base.{ℕ, zero, suc, ◌≤◌, ◌≡◌, refl, true, false, none, some, String, [], ◌∷◌}
use project_aurora.Base.Dict.{get, put, retain}
use project_aurora.ControlPlane.Audit.{wled_operation_succeeded, AuditReason}
use project_aurora.ControlPlane.Limiter.{begin_attempt, reserve, admit, cleanup, trim_records}
use project_aurora.ControlPlane.Sessions.{
  Token, SessionContext, all_token_chars, opaque_token_is_valid, same_token, csrf_is_valid,
}
use project_aurora.ControlPlane.WledService.{
  WledControlService, Adapter, AdapterReason, brightness_set, brightness_input, audited, executed,
  invalidated, is_available, availability, authentication_failure, confirmation_failure, conclude,
  call_adapter, lock_operation, pass_gate, pass_limiter, pass_checks, execute, set_brightness,
}
use project_aurora.ControlPlane.WledService.Outcomes.{Outcome}
use project_aurora.ControlPlane.WledService.Guards.{
  IsPermitted, execute-Outcome, set_brightness-Outcome,
}

-- Stands for the keyed hash.
abbrev digest : String → ℕ
digest client = 1

abbrev repeat : ℕ → Token
repeat zero = []
repeat (suc n) = 65 ∷ repeat n

-- Stands for a device that confirms each request.
abbrev adapter : Adapter
adapter n operation input = some (record { verified = true; reason = AdapterReason.verified })

abbrev session : SessionContext
session = record { username = "admin"; csrf_token = repeat 32; expires_in_seconds = 10 }

abbrev service : WledControlService
service = record {
  settings = record { enabled = true; host = some "10.0.0.3"; port = none };
  controls = record {
    enabled = true;
    allowed_operations = brightness_set ∷ [];
    maximum_brightness = 200;
  };
  authentication_enabled = true;
  adapter = some adapter;
  limiter = record {
    attempt_limit = 2;
    window_seconds = 10;
    maximum_clients = 4;
    records = [];
    global_attempts = [];
    global_attempt_limit = 32;
  };
  operation_locked = false;
  gate_taken = false;
  gate_depth = 0;
  effects = [];
}

brightness_verified :
    (set_brightness digest service (some session) (some (repeat 32)) 120 "a" 5).0.effects
    ≡ executed brightness_set (brightness_input 120)
      ∷ audited wled_operation_succeeded AuditReason.verified (some brightness_set)
      ∷ invalidated
      ∷ []
unfolding set_brightness execute pass_checks pass_limiter pass_gate lock_operation call_adapter
    conclude is_available availability authentication_failure confirmation_failure csrf_is_valid
    opaque_token_is_valid all_token_chars same_token begin_attempt reserve admit cleanup
    trim_records get put retain
brightness_verified = refl

execute-Outcome_example :
    Outcome
      (IsPermitted digest service brightness_set
        (brightness_input 120)
        "a"
        5
        (some session)
        (some (repeat 32))
        none)
      service
      (execute digest service brightness_set
        (brightness_input 120)
        (some session)
        (some (repeat 32))
        "a"
        5
        none)
execute-Outcome_example =
    execute-Outcome digest service brightness_set (brightness_input 120) "a" 5 (some session)
      (some (repeat 32)) none

set_brightness-Outcome_example :
    Outcome
      ((1 ≤ 120) × (120 ≤ 255) × (120 ≤ 200))
      service
      (set_brightness digest service (some session) (some (repeat 32)) 120 "a" 5)
set_brightness-Outcome_example =
    set_brightness-Outcome digest service (some session) (some (repeat 32)) 120 "a" 5
