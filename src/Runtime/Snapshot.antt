-- ===== src/Runtime/Snapshot.antt =====
-- aurora_core/runtime/controller.py: RuntimeController.snapshot.
use mathlib.Core.Path.{ap₂}
use project_aurora.Base.{
  ℕ, Bool-cases, ◌≡◌, refl, sym, ◌∙◌, ap, subst, Bool, true, false, ◌⊎◌, inl, inr, Option, none,
  some, String, List, [], ◌∷◌, if◌then◌else◌, is_some, length, All, map, arith,
}
use project_aurora.Runtime.Models.{
  ComponentId, ComponentId-discrete, ComponentLifecycleState, disabled, unhealthy, ComponentPlan,
  ComponentHealthReport, RuntimeSnapshot, RuntimeError, key_error,
}
use project_aurora.Runtime.Health.{derive_overall_health}
use project_aurora.Runtime.Controller.{
  RuntimeComponent, RuntimeController, health_call, assign, record_call,
}

abbrev pub failed_report : ComponentId → String → String → ComponentHealthReport
failed_report i reason message = record {
  component_id = i;
  state = unhealthy;
  reason_code = some reason;
  message = some message;
}

abbrev pub checked_report : ComponentId → Option ComponentHealthReport → ComponentHealthReport
checked_report i none = failed_report i "health_check_failed" "Component health check failed."
checked_report i (some r) = r

-- One round of the loop, for an enabled item.
abbrev pub enabled_report :
    RuntimeController
    → ComponentId
    → Option RuntimeComponent
    → RuntimeController × ComponentHealthReport
enabled_report c i none = (c, failed_report i "missing_component" "Component is not injected.")
enabled_report c i (some component) =
    (record_call c (health_call i), checked_report i (component.health (length c.calls)))

-- One round of the loop.
unfoldable pub report_item :
    RuntimeController → ComponentPlan → RuntimeController × ComponentHealthReport
report_item c item =
    if item.enabled then enabled_report c item.component_id (c.components item.component_id) else (
      c,
      record {
        component_id = item.component_id;
        state = disabled;
        reason_code = none;
        message = none;
      },
    )

-- The loop over the plan, which fills the dict of reports.
unfoldable pub collect_reports :
    List ComponentPlan
    → RuntimeController
    → (ComponentId → Option ComponentHealthReport)
    → RuntimeController × (ComponentId → Option ComponentHealthReport)
collect_reports [] c reports = (c, reports)
collect_reports (item ∷ rest) c reports =
    let (c', r) = report_item c item in collect_reports rest c' (assign reports item.component_id r)

-- `tuple((i, d[i]) for ...)`, or the KeyError of the first key that is missing.
unfoldable pub entries {ℓ} :
    {V : Type ℓ}
    → (ComponentId → Option V)
    → List ComponentPlan
    → List (ComponentId × V) ⊎ RuntimeError
entries d [] = inl []
entries d (item ∷ rest) = elim (d item.component_id) [
  | none ↦ inr (key_error item.component_id)
  | some v ↦ elim (entries d rest) [ inr e ↦ inr e | inl vs ↦ inl ((item.component_id, v) ∷ vs) ]
]

-- `snapshot`
unfoldable pub snapshot : RuntimeController → RuntimeController × (RuntimeSnapshot ⊎ RuntimeError)
snapshot c =
    let (c', reports) = collect_reports c.plan.components c (λ i. none) in
    (
      c',
      elim (entries c'.lifecycle c.plan.components) [
        | inr e ↦ inr e
        | inl lifecycle ↦ elim (entries reports c.plan.components) [
          | inr e ↦ inr e
          | inl health ↦ inl (record {
            lifecycle = lifecycle;
            health_reports = map (λ x. x.1) health;
            overall_health = derive_overall_health c.plan.components reports c'.lifecycle;
          })
        ]
      ],
    )

abbrev pub IsKnown {ℓ} : {V : Type ℓ} → (ComponentId → Option V) → List ComponentPlan → Type 0
IsKnown d items = All (λ p. is_some (d p.component_id) ≡ true) items

-- The same lifecycle and the same started components.
abbrev pub Keeps : RuntimeController → RuntimeController → Type 0
Keeps c c' = (c'.lifecycle ≡ c.lifecycle) × (c'.started ≡ c.started)

report_item-Keeps : (c : RuntimeController) (item : ComponentPlan) → Keeps c (report_item c item).0
unfolding report_item
report_item-Keeps c item = go item.enabled (c.components item.component_id) _
  where
    go :
        (b : Bool) (o : Option RuntimeComponent) (r : ComponentHealthReport)
        → Keeps c (if b then enabled_report c item.component_id o else (c, r)).0
    go false o r = (refl, refl)
    go true none r = (refl, refl)
    go true (some x) r = (refl, refl)

collect_reports-Keeps :
    (items : List ComponentPlan) (c : RuntimeController)
    (reports : ComponentId → Option ComponentHealthReport)
    → Keeps c (collect_reports items c reports).0
unfolding collect_reports
collect_reports-Keeps [] c reports = (refl, refl)
collect_reports-Keeps (item ∷ rest) c reports =
    let (l, s) =
      collect_reports-Keeps rest (report_item c item).0
        (assign reports item.component_id (report_item c item).1) in
    let (l', s') = report_item-Keeps c item in (l ∙ l', s ∙ s')

assign-known :
    {V : Type 0} (d : ComponentId → Option V) (i j : ComponentId) (v : V)
    → is_some (d j) ≡ true
    → is_some (assign d i v j) ≡ true
assign-known d i j v h = ground arith

assign-known_same :
    {V : Type 0} (d : ComponentId → Option V) (i : ComponentId) (v : V)
    → is_some (assign d i v i) ≡ true
assign-known_same d i v = ground arith

collect_reports-known :
    (items : List ComponentPlan) (c : RuntimeController)
    (reports : ComponentId → Option ComponentHealthReport) (j : ComponentId)
    → is_some (reports j) ≡ true
    → is_some ((collect_reports items c reports).1 j) ≡ true
unfolding collect_reports
collect_reports-known [] c reports j h = h
collect_reports-known (item ∷ rest) c reports j h =
    collect_reports-known rest _ _ j (assign-known reports item.component_id j _ h)

collect_reports-IsKnown :
    (items : List ComponentPlan) (c : RuntimeController)
    (reports : ComponentId → Option ComponentHealthReport)
    → IsKnown (collect_reports items c reports).1 items
unfolding collect_reports
collect_reports-IsKnown [] c reports = tt
collect_reports-IsKnown (item ∷ rest) c reports = (
  collect_reports-known rest _ _ item.component_id (assign-known_same reports item.component_id _),
  collect_reports-IsKnown rest _ _,
)

abbrev pub as_stored {ℓ} : {V : Type ℓ} → ComponentId × V → ComponentId × Option V
as_stored (i, v) = (i, some v)

abbrev pub looked_up {ℓ} :
    {V : Type ℓ} → (ComponentId → Option V) → ComponentPlan → ComponentId × Option V
looked_up d p = (p.component_id, d p.component_id)

-- The entries are those of the dict, in plan order.
abbrev pub Listed :
    {V : Type 0}
    → (ComponentId → Option V)
    → List ComponentPlan
    → List (ComponentId × V) ⊎ RuntimeError
    → Type 0
Listed d items (inr e) = ⊥
Listed d items (inl vs) =
    (map as_stored vs ≡ map (looked_up d) items)
    × (map some (map (λ x. x.1) vs) ≡ map (λ p. d p.component_id) items)

entries-Listed :
    {V : Type 0} (d : ComponentId → Option V) (items : List ComponentPlan)
    → IsKnown d items
    → Listed d items (entries d items)
unfolding entries
entries-Listed d [] k = (refl, refl)
entries-Listed {V} d (item ∷ rest) k =
    go (d item.component_id) refl k.0 (entries d rest) (entries-Listed d rest k.1)
  where
    first_entry : Option V → List (ComponentId × Option V) → List (ComponentId × Option V)
    first_entry w ws = (item.component_id, w) ∷ ws

    go :
        (o : Option V)
        → d item.component_id ≡ o
        → is_some o ≡ true
        → (r : List (ComponentId × V) ⊎ RuntimeError) → Listed d rest r
        → Listed d (item ∷ rest) (elim o as (λ x. List (ComponentId × V) ⊎ RuntimeError) [
          | none ↦ inr (key_error item.component_id)
          | some v ↦ elim r as (λ x. List (ComponentId × V) ⊎ RuntimeError) [
            | inr e ↦ inr e
            | inl vs ↦ inl ((item.component_id, v) ∷ vs)
          ]
        ])
    go none e n r h = absurd (cc)
    go (some v) e n (inr x) h = h
    go (some v) e n (inl vs) h = (ap₂ first_entry (sym e) h.0, ap₂ (λ w ws. w ∷ ws) (sym e) h.1)

-- What the report of an item may be: that of a disabled item, of a missing component, or what the
-- component answers to one of its health checks, of which one that raises is reported as failed.
abbrev pub IsReport :
    (ComponentId → Option RuntimeComponent) → ComponentPlan → ComponentHealthReport → Type 0
IsReport components item r =
    ((item.enabled ≡ false)
      × (r ≡ record {
        component_id = item.component_id;
        state = disabled;
        reason_code = none;
        message = none;
      }))
    ⊎ ((item.enabled ≡ true)
        × (components item.component_id ≡ none)
        × (r ≡ record {
          component_id = item.component_id;
          state = unhealthy;
          reason_code = some "missing_component";
          message = some "Component is not injected.";
        }))
    ⊎ ((item.enabled ≡ true)
        × ((x : RuntimeComponent) × (call : ℕ) × (components item.component_id ≡ some x)
            × (((x.health call ≡ none)
                  × (r ≡ record {
                    component_id = item.component_id;
                    state = unhealthy;
                    reason_code = some "health_check_failed";
                    message = some "Component health check failed.";
                  }))
                ⊎ (x.health call ≡ some r))))

-- The report is that of an item of the list with this identifier.
abbrev pub IsReportIn :
    (ComponentId → Option RuntimeComponent)
    → List ComponentPlan
    → ComponentId
    → ComponentHealthReport
    → Type 0
IsReportIn components [] i r = ⊥
IsReportIn components (item ∷ rest) i r =
    ((item.component_id ≡ i) × IsReport components item r) ⊎ IsReportIn components rest i r

report_item-IsReport :
    (c : RuntimeController) (item : ComponentPlan)
    → IsReport c.components item (report_item c item).1
unfolding report_item
report_item-IsReport c item = elim (Bool-cases item.enabled) [
  | inr off ↦ rw off (inl (refl, refl))
  | inl on ↦ rw on (inr (go (true ≡ true) refl (c.components item.component_id) refl))
]
  where
    checked :
        (x : RuntimeComponent) (call : ℕ) (o : Option ComponentHealthReport)
        → x.health call ≡ o
        → ((x.health call ≡ none)
            × (checked_report item.component_id o
                ≡ failed_report item.component_id "health_check_failed"
                    "Component health check failed."))
          ⊎ (x.health call ≡ some (checked_report item.component_id o))
    checked x call none e = inl (e, refl)
    checked x call (some r) e = inr e

    go :
        (P : Type 0)
        → P
        → (o : Option RuntimeComponent) → c.components item.component_id ≡ o
        → let r = (enabled_report c item.component_id o).1 in
          (P
            × (c.components item.component_id ≡ none)
            × (r
                ≡ failed_report item.component_id "missing_component" "Component is not injected."))
          ⊎ (P
              × ((x : RuntimeComponent) × (call : ℕ) × (c.components item.component_id ≡ some x)
                  × (((x.health call ≡ none)
                        × (r
                            ≡ failed_report item.component_id "health_check_failed"
                                "Component health check failed."))
                      ⊎ (x.health call ≡ some r))))
    go P on none e = inl (on, e, refl)
    go P on (some x) e = inr (on, (x, length c.calls, e, checked x (length c.calls) _ refl))

report_item-components :
    (c : RuntimeController) (item : ComponentPlan)
    → (report_item c item).0.components ≡ c.components
unfolding report_item
report_item-components c item = go item.enabled (c.components item.component_id) _
  where
    go :
        (b : Bool) (o : Option RuntimeComponent) (r : ComponentHealthReport)
        → (if b then enabled_report c item.component_id o else (c, r)).0.components ≡ c.components
    go false o r = refl
    go true none r = refl
    go true (some x) r = refl

module _ (components : ComponentId → Option RuntimeComponent)
    (Q : ComponentId → ComponentHealthReport → Type 0) where
  -- What holds of the reports of items.
  abbrev HoldsOf : List ComponentPlan → Type 0
  HoldsOf items =
      All (λ q. (r : ComponentHealthReport) → IsReport components q r → Q q.component_id r) items

  each-HoldsOf :
      (items : List ComponentPlan)
      → ((i : ComponentId) (r : ComponentHealthReport) → IsReportIn components items i r → Q i r)
      → HoldsOf items
  each-HoldsOf [] h = tt
  each-HoldsOf (item ∷ rest) h =
      ((λ r x. h _ r (inl (refl, x))), each-HoldsOf rest λ i r x. h i r (inr x))

  assign-holds :
      (reports : ComponentId → Option ComponentHealthReport) (i : ComponentId)
      (v : ComponentHealthReport)
      → ((j : ComponentId) (r : ComponentHealthReport) → reports j ≡ some r → Q j r)
      → Q i v
      → (j : ComponentId) (r : ComponentHealthReport) → assign reports i v j ≡ some r
      → Q j r
  assign-holds reports i v h q j r = go (ComponentId-discrete i j)
    where
      go :
          (same : Dec (i ≡ j))
          → (let o : Option ComponentHealthReport = elim same [
            | yes _ ↦ some v
            | no _ ↦ reports j
          ] in
              o ≡ some r)
          → Q j r
      go (yes i_is_j) e =
          let v_is_r : v ≡ r = cc in subst (λ x. Q j x) v_is_r (subst (λ x. Q x v) i_is_j q)
      go (no differs) e = h j r e

  collect_reports-holds :
      (items : List ComponentPlan) (c : RuntimeController)
      (reports : ComponentId → Option ComponentHealthReport)
      → c.components ≡ components
      → HoldsOf items
      → ((j : ComponentId) (r : ComponentHealthReport) → reports j ≡ some r → Q j r)
      → (j : ComponentId) (r : ComponentHealthReport)
      → (collect_reports items c reports).1 j ≡ some r
      → Q j r
  unfolding collect_reports
  collect_reports-holds [] c reports same each h = h
  collect_reports-holds (item ∷ rest) c reports same each h =
      collect_reports-holds rest (report_item c item).0 _ (report_item-components c item ∙ same)
        each.1
        (assign-holds reports item.component_id _ h (
          each.0 _ (
            subst (λ d. IsReport d item (report_item c item).1) same
              (report_item-IsReport c item))))

-- Each item of a list has a report, which is that of an item of the plan with its identifier.
abbrev pub IsReported :
    RuntimeController → (ComponentId → Option ComponentHealthReport) → List ComponentPlan → Type 0
IsReported c reports items =
    All
      (λ p.
        (r : ComponentHealthReport) × (reports p.component_id ≡ some r)
        × IsReportIn c.components c.plan.components p.component_id r)
      items

known-IsReported :
    (c : RuntimeController) (reports : ComponentId → Option ComponentHealthReport)
    (items : List ComponentPlan)
    → IsKnown reports items
    → ((j : ComponentId) (r : ComponentHealthReport)
        → reports j ≡ some r
        → IsReportIn c.components c.plan.components j r)
    → IsReported c reports items
known-IsReported c reports [] k h = tt
known-IsReported c reports (p ∷ rest) k h =
    (go (reports p.component_id) refl k.0, known-IsReported c reports rest k.1 h)
  where
    go :
        (o : Option ComponentHealthReport)
        → reports p.component_id ≡ o
        → is_some o ≡ true
        → (r : ComponentHealthReport) × (reports p.component_id ≡ some r)
          × IsReportIn c.components c.plan.components p.component_id r
    go none e n = absurd (cc)
    go (some r) e n = (r, e, h p.component_id r e)

-- A snapshot that is returned, in plan order, and leaves the controller as it was but for the
-- calls made.
abbrev pub IsComplete :
    RuntimeController → RuntimeController × (RuntimeSnapshot ⊎ RuntimeError) → Type 0
IsComplete c (c', inr e) = ⊥
IsComplete c (c', inl s) =
    (reports : (ComponentId → Option ComponentHealthReport)) × Keeps c c'
    × (map as_stored s.lifecycle ≡ map (looked_up c.lifecycle) c.plan.components)
    × (map some s.health_reports ≡ map (λ p. reports p.component_id) c.plan.components)
    × IsReported c reports c.plan.components
    × (s.overall_health ≡ derive_overall_health c.plan.components reports c.lifecycle)

-- On a controller whose lifecycle knows each component of the plan, snapshot raises nothing,
-- whichever health checks raise and whichever components are missing. It lists in plan order each
-- component with its state in the lifecycle, and the health report of each: that of a disabled
-- item, of a missing component, of a check that raised, or the component's own answer; where
-- items share an identifier, that of one of them. The overall health is derived from these reports
-- and the lifecycle. Neither the lifecycle nor the started components change.
pub snapshot-IsComplete :
    (c : RuntimeController) → IsKnown c.lifecycle c.plan.components → IsComplete c (snapshot c)
unfolding snapshot
snapshot-IsComplete c known =
    let items = c.plan.components in
    let r = collect_reports items c (λ i. none) in
    let kept = collect_reports-Keeps items c (λ i. none) in
    let found = collect_reports-IsKnown items c (λ i. none) in
    let sound =
      collect_reports-holds c.components (IsReportIn c.components items) items c (λ i. none) refl
        (each-HoldsOf c.components (IsReportIn c.components items) items λ i q x. x)
        λ j q e. absurd (cc) in
    go r kept (known-IsReported c r.1 items found sound) (entries r.0.lifecycle items)
      (entries-Listed r.0.lifecycle items (subst (λ l. IsKnown l items) (sym kept.0) known))
      (entries r.1 items) (entries-Listed r.1 items found)
  where
    go :
        (r : RuntimeController × (ComponentId → Option ComponentHealthReport))
        → Keeps c r.0
        → IsReported c r.1 c.plan.components
        → (ls : List (ComponentId × ComponentLifecycleState) ⊎ RuntimeError)
        → Listed r.0.lifecycle c.plan.components ls
        → (hs : List (ComponentId × ComponentHealthReport) ⊎ RuntimeError)
        → Listed r.1 c.plan.components hs
        → IsComplete c (
          r.0,
          elim ls as (λ x. RuntimeSnapshot ⊎ RuntimeError) [
            | inr e ↦ inr e
            | inl lifecycle ↦ elim hs as (λ x. RuntimeSnapshot ⊎ RuntimeError) [
              | inr e ↦ inr e
              | inl health ↦ inl (record {
                lifecycle = lifecycle;
                health_reports = map (λ x. x.1) health;
                overall_health = derive_overall_health c.plan.components r.1 r.0.lifecycle;
              })
            ]
          ],
        )
    go r kept reported (inr e) l hs h = l
    go r kept reported (inl ls) l (inr e) h = h
    go r kept reported (inl ls) l (inl hs) h = (
      r.1,
      kept,
      l.0 ∙ ap (λ d. map (looked_up d) c.plan.components) kept.0,
      h.1,
      reported,
      ap (λ d. derive_overall_health c.plan.components r.1 d) kept.0,
    )
