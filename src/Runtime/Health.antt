-- ===== src/Runtime/Health.antt =====
-- aurora_core/runtime/health.py: conservative aggregation of component health. The two mappings
-- are functions into `Option`, `none` where `.get` finds no entry.
pub mod Laws
use project_aurora.Base.{
  Bool, true, false, Option, none, some, List, [], ◌∷◌, if◌then◌else◌, keep_if, any,
}
use project_aurora.Runtime.Models.{
  ComponentId, ComponentLifecycleState, failed, ComponentHealthState, OverallHealthState,
  ComponentPlan, ComponentHealthReport,
}

-- `lifecycle.get(...) is ComponentLifecycleState.FAILED`
abbrev pub is_failed : Option ComponentLifecycleState → Bool
is_failed (some failed) = true
is_failed _ = false

abbrev pub reported_state : Option ComponentHealthReport → ComponentHealthState
reported_state none = ComponentHealthState.unknown
reported_state (some r) = r.state

abbrev pub is_unhealthy : ComponentHealthState → Bool
is_unhealthy ComponentHealthState.unhealthy = true
is_unhealthy _ = false

abbrev pub is_degraded : ComponentHealthState → Bool
is_degraded ComponentHealthState.degraded = true
is_degraded _ = false

abbrev pub is_unknown : ComponentHealthState → Bool
is_unknown ComponentHealthState.unknown = true
is_unknown _ = false

-- The loop over the enabled plans; `none` is its early return of UNHEALTHY.
unfoldable pub collect_states :
    (ComponentId → Option ComponentHealthReport)
    → (ComponentId → Option ComponentLifecycleState)
    → List ComponentPlan
    → Option (List ComponentHealthState)
collect_states reports lifecycle [] = some []
collect_states reports lifecycle (p ∷ ps) =
    let rest = collect_states reports lifecycle ps in
    if is_failed (lifecycle p.component_id) then none else elim rest [
      | none ↦ none
      | some states ↦ some (reported_state (reports p.component_id) ∷ states)
    ]

abbrev pub classify : Option (List ComponentHealthState) → OverallHealthState
classify none = OverallHealthState.unhealthy
classify (some states) =
    if any is_unhealthy states
    then OverallHealthState.unhealthy
    else if any is_degraded states
    then OverallHealthState.degraded
    else if any is_unknown states
    then OverallHealthState.unknown
    else OverallHealthState.healthy

-- What is done with the list `enabled`.
unfoldable pub judge_enabled :
    (ComponentId → Option ComponentHealthReport)
    → (ComponentId → Option ComponentLifecycleState)
    → List ComponentPlan
    → OverallHealthState
unfolding collect_states
judge_enabled reports lifecycle [] = OverallHealthState.disabled
judge_enabled reports lifecycle (p ∷ ps) = classify (collect_states reports lifecycle (p ∷ ps))

unfoldable pub derive_overall_health :
    List ComponentPlan
    → (ComponentId → Option ComponentHealthReport)
    → (ComponentId → Option ComponentLifecycleState)
    → OverallHealthState
unfolding judge_enabled
derive_overall_health plans reports lifecycle =
    judge_enabled reports lifecycle (keep_if (λ p. p.enabled) plans)
