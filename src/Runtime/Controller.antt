-- ===== src/Runtime/Controller.antt =====
-- aurora_core/runtime/controller.py: RuntimeController, which starts injected components in plan
-- order and stops them in reverse. A component is what its methods do at each call: `raises` when
-- an `Exception` leaves the call. The number that they are given is the count of calls made so
-- far, so one component may behave differently each time.
pub mod Ownership
pub mod Order
use project_aurora.Base.{
  ℕ, ◌⊎◌, inl, inr, Bool, true, false, Option, none, some, List, [], ◌∷◌, ◌++◌, if◌then◌else◌,
  is_some, length,
}
use project_aurora.Runtime.Models.{
  ComponentId, ComponentId-discrete, ComponentLifecycleState, starting, running, stopping, stopped,
  failed, ComponentHealthState, ComponentPlan, RuntimePlan, ComponentHealthReport, RuntimeSnapshot,
  RuntimeError, duplicate_component, missing_component, startup_failed, shutdown_failed, key_error,
}
use project_aurora.Runtime.Health.{derive_overall_health}

-- contracts.py; `health` is `none` when the call raises.
pub record RuntimeComponent : Type 0 where
  pub component_id : ComponentId
  pub start_raises : ℕ → Bool
  pub stop_raises : ℕ → Bool
  pub health : ℕ → Option ComponentHealthReport

-- The calls into components, in the order in which they are made.
pub data Call : Type 0 where
  start_call stop_call health_call : ComponentId → Call

-- The head of `started` is the last item of the source's list.
pub record RuntimeController : Type 0 where
  pub plan : RuntimePlan
  pub components : ComponentId → Option RuntimeComponent
  pub lifecycle : ComponentId → Option ComponentLifecycleState
  pub started : List ComponentId
  pub calls : List Call

-- `d[k] = v` on a dict keyed by component.
abbrev pub assign {ℓ} :
    {V : Type ℓ} → (ComponentId → Option V) → ComponentId → V → ComponentId → Option V
assign d k v j = elim (ComponentId-discrete k j) [ yes _ ↦ some v | no _ ↦ d j ]

abbrev pub set_lifecycle :
    RuntimeController → ComponentId → ComponentLifecycleState → RuntimeController
set_lifecycle c i s = record c { lifecycle = assign c.lifecycle i s }

abbrev pub record_call : RuntimeController → Call → RuntimeController
record_call c call = record c { calls = c.calls ++ call ∷ [] }

-- The loop of `__init__` over the injected components.
unfoldable pub register :
    List RuntimeComponent
    → (ComponentId → Option RuntimeComponent)
    → (ComponentId → Option RuntimeComponent) ⊎ RuntimeError
register [] table = inl table
register (c ∷ cs) table =
    let rest = register cs (assign table c.component_id c) in
    if is_some (table c.component_id) then inr (duplicate_component c.component_id) else rest

unfoldable pub initial_lifecycle :
    List ComponentPlan
    → (ComponentId → Option ComponentLifecycleState)
    → ComponentId
    → Option ComponentLifecycleState
initial_lifecycle [] table = table
initial_lifecycle (p ∷ ps) table =
    initial_lifecycle ps (assign table p.component_id p.initial_lifecycle)

unfoldable pub create : RuntimePlan → List RuntimeComponent → RuntimeController ⊎ RuntimeError
unfolding register initial_lifecycle
create plan components = elim (register components (λ _. none)) [
  | inl table ↦ inl (record {
    plan = plan;
    components = table;
    lifecycle = initial_lifecycle plan.components (λ _. none);
    started = [];
    calls = [];
  })
  | inr e ↦ inr e
]

-- `_stop_started`: one round, for a component that is found. `failure` is the first that failed.
unfoldable pub stop_component :
    RuntimeComponent → ComponentId → RuntimeController → RuntimeController × Bool
stop_component component i c =
    let raised = component.stop_raises (length c.calls) in
    (
      set_lifecycle (record_call (set_lifecycle c i stopping) (stop_call i)) i
          (if raised then failed else stopped),
      raised,
    )

abbrev pub first_failure : Option ComponentId → ComponentId → Bool → Option ComponentId
first_failure (some j) i raised = some j
first_failure none i true = some i
first_failure none i false = none

-- The `while` loop over the popped identities, which are those of `started`; the second result is
-- the first failure, or the error of a missing dict entry.
unfoldable pub stop_from :
    List ComponentId
    → RuntimeController
    → Option ComponentId
    → RuntimeController × (Option ComponentId ⊎ RuntimeError)
unfolding stop_component
stop_from [] c failure = (record c { started = [] }, inl failure)
stop_from (i ∷ rest) c failure = elim (c.components i) [
  | none ↦ (record c { started = rest }, inr (key_error i))
  | some component ↦
      let (c', raised) = stop_component component i (record c { started = rest }) in
      stop_from rest c' (first_failure failure i raised)
]

abbrev pub raise_failure : Bool → Option ComponentId ⊎ RuntimeError → Option RuntimeError
raise_failure raise_on_failure (inr e) = some e
raise_failure true (inl (some i)) = some (shutdown_failed i)
raise_failure false (inl (some i)) = none
raise_failure raise_on_failure (inl none) = none

unfoldable pub stop_started : Bool → RuntimeController → RuntimeController × Option RuntimeError
unfolding stop_from
stop_started raise_on_failure c =
    let (c', r) = stop_from c.started c none in (c', raise_failure raise_on_failure r)

abbrev pub replaced_by : RuntimeError → Option RuntimeError → RuntimeError
replaced_by e none = e
replaced_by e (some e') = e'

-- An error of `_rollback` itself would replace the one that it was called for.
unfoldable pub rollback_then :
    RuntimeController → RuntimeError → RuntimeController × Option RuntimeError
unfolding stop_started
rollback_then c e = let (c', e') = stop_started false c in (c', some (replaced_by e e'))

-- One round of the loop of `start`.
unfoldable pub start_item :
    RuntimeController → ComponentPlan → RuntimeController × Option RuntimeError
unfolding rollback_then
start_item c item =
    let i = item.component_id in
    if item.enabled
    then elim (c.components i) [
      | none ↦ rollback_then (set_lifecycle c i failed) (missing_component i)
      | some component ↦
          let c' = record_call (set_lifecycle c i starting) (start_call i) in
          if component.start_raises (length c.calls)
          then rollback_then (set_lifecycle c' i failed) (startup_failed i)
          else (record (set_lifecycle c' i running) { started = i ∷ c.started }, none)
    ]
    else (c, none)

unfoldable pub start_from :
    List ComponentPlan → RuntimeController → RuntimeController × Option RuntimeError
start_from [] c = (c, none)
start_from (item ∷ rest) c =
    let (c', e) = start_item c item in elim e [ some x ↦ (c', some x) | none ↦ start_from rest c' ]

abbrev pub nothing_started : List ComponentId → Bool
nothing_started [] = true
nothing_started (i ∷ is) = false

unfoldable pub start : RuntimeController → RuntimeController × Option RuntimeError
unfolding start_from
start c = if nothing_started c.started then start_from c.plan.components c else (c, none)

unfoldable pub stop : RuntimeController → RuntimeController × Option RuntimeError
unfolding stop_started
stop c = stop_started true c
