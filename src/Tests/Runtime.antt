-- ===== src/Tests/Runtime.antt =====
-- Runs of aurora_core/runtime.
use project_aurora.Base.{
  ◌≡◌, refl, ◌≢◌, ◌↔◌, inl, Bool, true, false, Option, none, some, List, [], ◌∷◌, keep_if, All, map,
}
use project_aurora.Config.{AuroraSettings, EndpointSettings}
use project_aurora.Runtime.Models.{
  ComponentId, wled, ddp, component_order, ComponentId-discrete, created, running,
  ComponentHealthState, OverallHealthState, RuntimePlan, ComponentHealthReport, startup_failed,
  key_error, shutdown_failed,
}
use project_aurora.Runtime.Planning.{build_runtime_plan, component_plan}
use project_aurora.Runtime.Health.{derive_overall_health}
use project_aurora.Runtime.Health.Laws.{IsFine, derive_overall_health-healthy}
use project_aurora.Runtime.Snapshot.{snapshot, IsComplete, snapshot-IsComplete}
use project_aurora.Runtime.Controller.{
  RuntimeComponent, RuntimeController, start_call, stop_call, create, initial_lifecycle, start,
  start_item, stop,
}
use project_aurora.Runtime.Controller.Ownership.{
  IsOwned, Settled, NoneRunning, starts, stops, run, start-Settled, stop-NoneRunning,
  run-create-IsOwned,
}
use project_aurora.Runtime.Controller.Order.{stop-start-calls}

abbrev endpoint : Bool → EndpointSettings
endpoint on = record { enabled = on; host = none; port = none }

-- WLED and DDP are enabled.
abbrev settings : AuroraSettings
settings = record {
  capture_device_enabled = false;
  hyperhdr = endpoint false;
  wled = endpoint true;
  ddp = endpoint true;
  mqtt = endpoint false;
  lighting_zones = [];
  led_layout = record { orientation = none; starting_corner = none };
}

abbrev component : ComponentId → Bool → Bool → RuntimeComponent
component i fails_to_start fails_to_stop = record {
  component_id = i;
  start_raises = λ _. fails_to_start;
  stop_raises = λ _. fails_to_stop;
  health = λ _. none;
}

abbrev plan : RuntimePlan
plan = record {
  components = map (component_plan settings) component_order;
  lighting_zone_count = 0;
  led_layout_configured = false;
}

abbrev injected : Bool → ComponentId → Option RuntimeComponent
injected fails wled = some (component wled false false)
injected fails ddp = some (component ddp fails true)
injected fails _ = none

abbrev idle : Bool → RuntimeController
idle fails = record {
  plan = plan;
  components = injected fails;
  lifecycle = λ _. some created;
  started = [];
  calls = [];
}

idle-IsOwned : (fails : Bool) → IsOwned (idle fails)
idle-IsOwned fails = record { running_started = λ i h. absurd (cc); started_known = tt }

-- DDP fails to start, so WLED is stopped again.
failed_start :
    ((start (idle true)).0.calls ≡ start_call wled ∷ start_call ddp ∷ stop_call wled ∷ [])
    × ((start (idle true)).1 ≡ some (startup_failed ddp))
unfolding start start_item ComponentId-discrete
failed_start = (refl, refl)

start-Settled_example : Settled (start (idle true))
start-Settled_example = start-Settled (idle true) (idle-IsOwned true)

abbrev two_running : RuntimeController
two_running = record (idle false) { lifecycle = λ _. some created; started = ddp ∷ wled ∷ [] }

two_running-IsOwned : IsOwned two_running
two_running-IsOwned = record {
  running_started = λ i h. absurd (cc);
  started_known = (refl, (refl, tt));
}

-- DDP fails to stop, and WLED is stopped all the same.
failed_stop : (stop two_running).1 ≡ some (shutdown_failed ddp)
unfolding stop ComponentId-discrete
failed_stop = refl

stop-NoneRunning_example :
    NoneRunning (stop two_running).0
    × ((stop two_running).0.started ≡ [])
    × ((i : ComponentId) → (stop two_running).1 ≢ some (key_error i))
stop-NoneRunning_example = stop-NoneRunning two_running two_running-IsOwned

stop-start-calls_example :
    (stop (start (idle false)).0).0.calls
    ≡ start_call wled ∷ start_call ddp ∷ stop_call ddp ∷ stop_call wled ∷ []
stop-start-calls_example =
    stop-start-calls (idle false) (idle-IsOwned false) refl
      (unfold start start_item ComponentId-discrete in refl)

abbrev components : List RuntimeComponent
components = component wled false false ∷ component ddp true true ∷ []

abbrev table : ComponentId → Option RuntimeComponent
table = λ i. elim (ComponentId-discrete ddp i) [
  | yes _ ↦ some (component ddp true true)
  | no _ ↦ elim (ComponentId-discrete wled i) [
    | yes _ ↦ some (component wled false false)
    | no _ ↦ none
  ]
]

abbrev built : RuntimeController
built = record {
  plan = build_runtime_plan settings;
  components = table;
  lifecycle =
      unfold initial_lifecycle in
      initial_lifecycle (build_runtime_plan settings).components (λ _. none);
  started = [];
  calls = [];
}

created_lem : create (build_runtime_plan settings) components ≡ inl built
unfolding create ComponentId-discrete
created_lem = refl

run-create-IsOwned_example : IsOwned (run (starts ∷ stops ∷ starts ∷ []) built)
run-create-IsOwned_example =
    run-create-IsOwned settings components built (starts ∷ stops ∷ starts ∷ []) created_lem

abbrev well : ComponentId → Option ComponentHealthReport
well i = some (record {
  component_id = i;
  state = ComponentHealthState.healthy;
  reason_code = none;
  message = none;
})

derive_overall_health-healthy_example :
    (derive_overall_health plan.components well (λ _. some running) ≡ OverallHealthState.healthy)
    ↔ (keep_if (λ p. p.enabled) plan.components ≢ [])
      × All (IsFine well (λ _. some running)) (keep_if (λ p. p.enabled) plan.components)
derive_overall_health-healthy_example =
    derive_overall_health-healthy well (λ _. some running) plan.components

-- The health check of WLED raises, and the others are missing or off.
snapshot-IsComplete_example : IsComplete (idle true) (snapshot (idle true))
snapshot-IsComplete_example =
    snapshot-IsComplete (idle true) (refl, (refl, (refl, (refl, (refl, tt)))))
