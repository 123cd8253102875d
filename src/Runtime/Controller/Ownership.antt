-- ===== src/Runtime/Controller/Ownership.antt =====
-- aurora_core/runtime/controller.py: which components run, and which ones the next stop stops.
use project_aurora.Base.{
  ◌≡◌, refl, ◌≢◌, ◌⊎◌, inl, inr, Bool, true, false, Option, none, some, List, [], ◌∷◌, map, arith,
  if◌then◌else◌, is_some, All, Option-cases, Bool-cases,
}
use project_aurora.Runtime.Models.{
  component_order, RuntimePlan, ComponentLifecycleState, ComponentId, running, starting, failed,
  ComponentPlan, RuntimeError, key_error, startup_failed,
}
use project_aurora.Config.{AuroraSettings}
use project_aurora.Runtime.Planning.{component_plan, build_runtime_plan}
use project_aurora.Runtime.Controller.{
  RuntimeController, RuntimeComponent, nothing_started, initial_lifecycle, create, start_call,
  set_lifecycle, record_call, raise_failure, stop_component, stop_from, stop_started, rollback_then,
  start_item, start_from, start, stop,
}

abbrev pub In : ComponentId → List ComponentId → Type 0
In i [] = ⊥
In i (j ∷ js) = (i ≡ j) ⊎ In i js

abbrev pub NoneRunning : RuntimeController → Type 0
NoneRunning c = (i : ComponentId) → c.lifecycle i ≢ some running

abbrev pub AllKnown : RuntimeController → List ComponentId → Type 0
AllKnown c ids = All (λ i. is_some (c.components i) ≡ true) ids

abbrev pub RunningIn : RuntimeController → List ComponentId → Type 0
RunningIn c ids = (i : ComponentId) → c.lifecycle i ≡ some running → In i ids

-- Every running component is on the list of those to stop, and each of these is registered.
pub record IsOwned (c : RuntimeController) : Type 0 where
  pub running_started : (i : ComponentId) → c.lifecycle i ≡ some running → In i c.started
  pub started_known : All (λ i. is_some (c.components i) ≡ true) c.started

abbrev pub Stopped : RuntimeController × (Option ComponentId ⊎ RuntimeError) → Type 0
Stopped (c, inl f) = NoneRunning c × (c.started ≡ [])
Stopped (c, inr e) = ⊥

stop_component-RunningIn :
    (component : RuntimeComponent) (i : ComponentId) (rest : List ComponentId)
    (c : RuntimeController)
    → RunningIn c (i ∷ rest)
    → RunningIn (stop_component component i (record c { started = rest })).0 rest
unfolding stop_component
stop_component-RunningIn component i rest c h j e = ground (arith, h j)

pub stop_from-Stopped :
    (ids : List ComponentId) (c : RuntimeController) (f : Option ComponentId)
    → RunningIn c ids
    → AllKnown c ids
    → Stopped (stop_from ids c f)
unfolding stop_from
stop_from-Stopped [] c f h k = (λ i e. absurd (h i e), refl)
stop_from-Stopped (i ∷ rest) c f h k = elim (Option-cases (c.components i)) [
  | inl e ↦ ground arith
  | inr (component, e) ↦
      rw (e, stop_from)
        (stop_from-Stopped rest _ _ (stop_component-RunningIn component i rest c h) k.1)
]

-- What `stop` and the rollback leave: nothing runs, nothing is to be stopped, and no KeyError.
stop_started-NoneRunning :
    (raise_on_failure : Bool) (c : RuntimeController)
    → IsOwned c
    → NoneRunning (stop_started raise_on_failure c).0
      × ((stop_started raise_on_failure c).0.started ≡ [])
      × ((i : ComponentId) → (stop_started raise_on_failure c).1 ≢ some (key_error i))
unfolding stop_started
stop_started-NoneRunning raise_on_failure c v =
    split (stop_from c.started c none)
      (stop_from-Stopped c.started c none v.running_started v.started_known)
  where
    split :
        (r : RuntimeController × (Option ComponentId ⊎ RuntimeError))
        → Stopped r
        → NoneRunning r.0
          × (r.0.started ≡ [])
          × ((i : ComponentId) → raise_failure raise_on_failure r.1 ≢ some (key_error i))
    split (c', inl f) s = (s.0, s.1, λ i. ground arith)
    split (c', inr e) s = absurd s

-- After one item, or all: a controller that goes on owns what runs; after an error nothing runs.
abbrev pub Settled : RuntimeController × Option RuntimeError → Type 0
Settled (c, none) = IsOwned c
Settled (c, some e) = NoneRunning c × (c.started ≡ []) × ((i : ComponentId) → e ≢ key_error i)

rollback_then-Settled :
    (c : RuntimeController) (e : RuntimeError)
    → IsOwned c
    → ((i : ComponentId) → e ≢ key_error i)
    → Settled (rollback_then c e)
unfolding rollback_then
rollback_then-Settled c e v h =
    let s = stop_started-NoneRunning false c v in (s.0, s.1, λ i. ground (arith, s.2 i, h i))

set_lifecycle-IsOwned :
    (c : RuntimeController) (i : ComponentId) (s : ComponentLifecycleState)
    → s ≢ running
    → IsOwned c
    → IsOwned (set_lifecycle c i s)
set_lifecycle-IsOwned c i s h v = record {
  running_started = λ j e. ground (arith, v.running_started j);
  started_known = v.started_known;
}

-- The state in which `component.start()` has been called.
abbrev called : RuntimeController → ComponentId → RuntimeController
called c i = record_call (set_lifecycle c i starting) (start_call i)

called-IsOwned : (c : RuntimeController) (i : ComponentId) → IsOwned c → IsOwned (called c i)
called-IsOwned c i v =
    let w = set_lifecycle-IsOwned c i starting (λ e. cc) v in
    record { running_started = w.running_started; started_known = w.started_known }

start_component-Settled :
    (c : RuntimeController) (i : ComponentId) (component : RuntimeComponent) (raised : Bool)
    → c.components i ≡ some component
    → IsOwned c
    → Settled (
        if raised
        then rollback_then (set_lifecycle (called c i) i failed) (startup_failed i)
        else (record (set_lifecycle (called c i) i running) { started = i ∷ c.started }, none))
start_component-Settled c i component true e v =
    rollback_then-Settled _ _
      (set_lifecycle-IsOwned (called c i) i failed (λ e'. cc) (called-IsOwned c i v))
      (λ j. ground arith)
start_component-Settled c i component false e v = record {
  running_started = λ j h. ground (arith, v.running_started j);
  started_known = (rw e refl, v.started_known);
}

start_item-Settled :
    (c : RuntimeController) (item : ComponentPlan) → IsOwned c → Settled (start_item c item)
unfolding start_item
start_item-Settled c item v = elim (Bool-cases item.enabled) [
  | inr off ↦ rw off v
  | inl on ↦ elim (Option-cases (c.components item.component_id)) [
    | inl e ↦
        rw (on, e)
          (rollback_then-Settled _ _ (set_lifecycle-IsOwned c item.component_id failed (λ e'. cc) v)
            (λ j. ground arith))
    | inr (component, e) ↦ rw (on, e) (start_component-Settled c item.component_id component _ e v)
  ]
]

start_from-Settled :
    (items : List ComponentPlan) (c : RuntimeController) → IsOwned c → Settled (start_from items c)
unfolding start_from
start_from-Settled [] c v = v
start_from-Settled (item ∷ rest) c v =
    go (start_item c item) (start_item-Settled c item v) (start_from-Settled rest)
  where
    go :
        (r : RuntimeController × Option RuntimeError)
        → Settled r
        → ((c' : RuntimeController) → IsOwned c' → Settled (start_from rest c'))
        → Settled (elim r.1 [ some x ↦ (r.0, some x) | none ↦ start_from rest r.0 ])
    go (c', some x) w ih = w
    go (c', none) w ih = ih c' w

-- From a controller that owns what runs, `start` either returns, and the controller still owns
-- what runs, or raises an error that is no KeyError, and then no component is running and none is
-- left to stop.
pub start-Settled : (c : RuntimeController) → IsOwned c → Settled (start c)
unfolding start
start-Settled c v = elim (Bool-cases (nothing_started c.started)) [
  | inl e ↦ rw e (start_from-Settled c.plan.components c v)
  | inr e ↦ rw e v
]

-- From a controller that owns what runs, `stop` leaves no component running and none to stop,
-- whichever calls raise, and raises no KeyError.
pub stop-NoneRunning :
    (c : RuntimeController)
    → IsOwned c
    → NoneRunning (stop c).0
      × ((stop c).0.started ≡ [])
      × ((i : ComponentId) → (stop c).1 ≢ some (key_error i))
unfolding stop
stop-NoneRunning c v = stop_started-NoneRunning true c v

NoneRunning-IsOwned : (c : RuntimeController) → NoneRunning c → c.started ≡ [] → IsOwned c
NoneRunning-IsOwned c h e = record {
  running_started = λ i r. absurd (h i r);
  started_known = rw e tt;
}

Settled-IsOwned : (r : RuntimeController × Option RuntimeError) → Settled r → IsOwned r.0
Settled-IsOwned (c, none) v = v
Settled-IsOwned (c, some e) v = NoneRunning-IsOwned c v.0 v.1

initial_lifecycle-created :
    (s : AuroraSettings) (ids : List ComponentId)
    (table : ComponentId → Option ComponentLifecycleState)
    → ((i : ComponentId) → table i ≢ some running)
    → (i : ComponentId) → initial_lifecycle (map (component_plan s) ids) table i ≢ some running
unfolding initial_lifecycle
initial_lifecycle-created s [] table h = h
initial_lifecycle-created s (j ∷ ids) table h =
    initial_lifecycle-created s ids _ (λ i. ground (arith, h i))

create-fields :
    (plan : RuntimePlan) (components : List RuntimeComponent) (c : RuntimeController)
    → create plan components ≡ inl c
    → (c.lifecycle ≡ initial_lifecycle plan.components (λ _. none)) × (c.started ≡ [])
unfolding create
create-fields plan components c e = ground arith

create-IsOwned :
    (s : AuroraSettings) (components : List RuntimeComponent) (c : RuntimeController)
    → create (build_runtime_plan s) components ≡ inl c
    → IsOwned c
unfolding build_runtime_plan
create-IsOwned s components c e =
    let (l, started) = create-fields (build_runtime_plan s) components c e in
    NoneRunning-IsOwned c
      (λ i. rw l (initial_lifecycle-created s component_order (λ _. none) (λ j. ground arith) i))
      started

-- The public calls on one controller, in any order; an error of one is no end of the history.
pub data Operation : Type 0 where
  starts stops : Operation

abbrev pub run : List Operation → RuntimeController → RuntimeController
run [] c = c
run (starts ∷ os) c = run os (start c).0
run (stops ∷ os) c = run os (stop c).0

run-IsOwned : (os : List Operation) (c : RuntimeController) → IsOwned c → IsOwned (run os c)
run-IsOwned [] c v = v
run-IsOwned (starts ∷ os) c v = run-IsOwned os _ (Settled-IsOwned (start c) (start-Settled c v))
run-IsOwned (stops ∷ os) c v =
    let s = stop-NoneRunning c v in run-IsOwned os _ (NoneRunning-IsOwned (stop c).0 s.0 s.1)

-- A controller that was built from settings owns every running component after any history of
-- starts and stops, with whatever calls raising: a component that runs is among those that the
-- next `stop` stops, and each of these is registered.
pub run-create-IsOwned :
    (s : AuroraSettings) (components : List RuntimeComponent) (c : RuntimeController)
    (os : List Operation)
    → create (build_runtime_plan s) components ≡ inl c
    → IsOwned (run os c)
run-create-IsOwned s components c os e = run-IsOwned os c (create-IsOwned s components c e)
