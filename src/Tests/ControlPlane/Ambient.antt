-- ===== src/Tests/ControlPlane/Ambient.antt =====
-- Runs of aurora_core/control_plane/ambient_service.py.
use project_aurora.Base.{ℕ, zero, suc, ◌≡◌, refl, true, false, none, some, String, [], ◌∷◌}
use project_aurora.Base.Checked.{ok, value_error}
use project_aurora.ControlPlane.Limiter.{create_limiter}
use project_aurora.ControlPlane.Sessions.{Token, SessionContext}
use project_aurora.ControlPlane.WledService.{
  WledControlService, Adapter, AdapterReason, power_on, power_off,
}
use project_aurora.ControlPlane.HyperhdrService
use project_aurora.ControlPlane.HyperhdrService.{
  HyperhdrControlService, HyperhdrAdapterReason, grabber_enable, grabber_disable, output_enable,
  output_disable,
}
use project_aurora.ControlPlane.Ambient.{
  AmbientControlService, create_ambient_service, ambient_on, ambient_off, run_ambient_on,
  run_ambient_off,
}
use project_aurora.ControlPlane.Ambient.Request.{execute}
use project_aurora.ControlPlane.Ambient.Requests.{IsGuarded, execute-IsGuarded, execute-gate_depth}
use project_aurora.ControlPlane.Ambient.Runs.{IsRunOn, Performs, steps, run_ambient_on-IsRunOn}
use project_aurora.ControlPlane.Ambient.Off.{IsRunOff, run_ambient_off-IsRunOff}

-- Stands for the keyed hash.
abbrev digest : String → ℕ
digest client = 1

abbrev repeat : ℕ → Token
repeat zero = []
repeat (suc n) = 65 ∷ repeat n

-- Stands for a device that confirms each request.
abbrev adapter : Adapter
adapter n operation input = some (record { verified = true; reason = AdapterReason.verified })

abbrev session : SessionContext
session = record { username = "admin"; csrf_token = repeat 32; expires_in_seconds = 10 }

abbrev wled : WledControlService
wled = record {
  settings = record { enabled = true; host = some "10.0.0.3"; port = none };
  controls = record {
    enabled = true;
    allowed_operations = power_on ∷ power_off ∷ [];
    maximum_brightness = 200;
  };
  authentication_enabled = true;
  adapter = some adapter;
  limiter = record {
    attempt_limit = 2;
    window_seconds = 10;
    maximum_clients = 4;
    records = [];
    global_attempts = [];
    global_attempt_limit = 32;
  };
  operation_locked = false;
  gate_taken = false;
  gate_depth = 0;
  effects = [];
}

-- Stands for a device that confirms its first request, and whose other calls raise.
abbrev hyperhdr_adapter : HyperhdrService.Adapter
hyperhdr_adapter n operation = elim n [
  | zero ↦
      some
        (record { verified = true; acknowledged = true; reason = HyperhdrAdapterReason.verified })
  | suc m ↦ none
]

abbrev hyperhdr : HyperhdrControlService
hyperhdr = record {
  settings = record { enabled = true; host = some "10.0.0.4"; port = some 8090 };
  controls = record {
    enabled = true;
    allowed_operations = grabber_enable ∷ grabber_disable ∷ output_enable ∷ output_disable ∷ [];
  };
  authentication_enabled = true;
  adapter = some hyperhdr_adapter;
  limiter = wled.limiter;
  operation_locked = false;
  gate_taken = false;
  gate_depth = 0;
  effects = [];
}

abbrev service : AmbientControlService
service = record {
  settings = record {
    enabled = true;
    allowed_operations = ambient_on ∷ ambient_off ∷ [];
    operation_limit = 2;
    operation_window_seconds = 10;
  };
  authentication_enabled = true;
  wled = wled;
  hyperhdr = hyperhdr;
  limiter = wled.limiter;
  log = [];
}

-- The constructor takes the services that share its gate, and no others.
service-created :
    create_ambient_service service.settings true wled hyperhdr 7 7 7
    ≡ ok (record service { limiter = record wled.limiter { maximum_clients = 256 } })
unfolding create_ambient_service create_limiter
service-created = refl

other_gate-raises :
    create_ambient_service service.settings true wled hyperhdr 7 8 7
    ≡ value_error "shared_mutation_gate_required"
unfolding create_ambient_service
other_gate-raises = refl

run_ambient_on-IsRunOn_example :
    IsRunOn
      (Performs digest session (repeat 32) "a" 5)
      (steps ambient_on)
      []
      service
      (run_ambient_on digest session (repeat 32) "a" 5 service)
run_ambient_on-IsRunOn_example = run_ambient_on-IsRunOn digest session (repeat 32) "a" 5 service

run_ambient_off-IsRunOff_example :
    IsRunOff
      (Performs digest session (repeat 32) "a" 5)
      service
      (run_ambient_off digest session (repeat 32) "a" 5 service)
run_ambient_off-IsRunOff_example = run_ambient_off-IsRunOff digest session (repeat 32) "a" 5 service

execute-IsGuarded_example :
    IsGuarded digest ambient_off "a" 5 6 service
      (some session)
      (some (repeat 32))
      (some "confirm_ambient_off")
      (execute digest ambient_off "a" 5 6 service
        (some session)
        (some (repeat 32))
        (some "confirm_ambient_off"))
execute-IsGuarded_example =
    execute-IsGuarded digest ambient_off "a" 5 6 service (some session) (some (repeat 32))
      (some "confirm_ambient_off")

execute-gate_depth_example :
    (execute digest ambient_on "a" 5 6 service
      (some session)
      (some (repeat 32))
      none).0.wled.gate_depth
    ≡ 0
execute-gate_depth_example =
    execute-gate_depth digest ambient_on "a" 5 6 service (some session) (some (repeat 32)) none
