-- ===== src/Runtime/Health/Laws.antt =====
-- aurora_core/runtime/health.py: when `derive_overall_health` answers HEALTHY.
use project_aurora.Base.{
  ◌≡◌, refl, ◌≢◌, ◌⊎◌, inl, inr, ◌↔◌, Option, some, List, [], ◌∷◌, arith, keep_if, All,
  Option-cases,
}
use project_aurora.Runtime.Models.{
  ComponentId, ComponentLifecycleState, failed, ComponentHealthState, OverallHealthState,
  ComponentPlan, ComponentHealthReport,
}
use project_aurora.Runtime.Health.{
  reported_state, collect_states, classify, judge_enabled, derive_overall_health,
}

module _ (reports : ComponentId → Option ComponentHealthReport)
    (lifecycle : ComponentId → Option ComponentLifecycleState) where
  -- The component of an enabled plan has not failed, and reports HEALTHY or DISABLED.
  abbrev pub IsFine : ComponentPlan → Type 0
  IsFine p =
      (lifecycle p.component_id ≢ some failed)
      × ((reported_state (reports p.component_id) ≡ ComponentHealthState.healthy)
          ⊎ (reported_state (reports p.component_id) ≡ ComponentHealthState.disabled))

  classify-healthy :
      (ps : List ComponentPlan)
      → classify (collect_states reports lifecycle ps) ≡ OverallHealthState.healthy
      → All IsFine ps
  unfolding collect_states
  classify-healthy [] h = tt
  classify-healthy (p ∷ ps) h = elim (Option-cases (collect_states reports lifecycle ps)) [
    | inl e ↦ ground arith
    | inr (states, e) ↦ ground (arith, classify-healthy ps)
  ]

  healthy-classify :
      (ps : List ComponentPlan)
      → All IsFine ps
      → classify (collect_states reports lifecycle ps) ≡ OverallHealthState.healthy
  unfolding collect_states
  healthy-classify [] h = ground arith
  healthy-classify (p ∷ ps) h = elim (Option-cases (collect_states reports lifecycle ps)) [
    | inl e ↦ ground (arith, healthy-classify ps)
    | inr (states, e) ↦ ground (arith, healthy-classify ps)
  ]

  judge_enabled-healthy :
      (ps : List ComponentPlan)
      → (judge_enabled reports lifecycle ps ≡ OverallHealthState.healthy)
        ↔ (ps ≢ []) × All IsFine ps
  unfolding judge_enabled
  judge_enabled-healthy [] = (λ h. absurd (cc), λ h. absurd (h.0 refl))
  judge_enabled-healthy (p ∷ ps) =
      (λ h. (λ e. cc, classify-healthy (p ∷ ps) h), λ h. healthy-classify (p ∷ ps) h.1)

  -- The overall health is HEALTHY exactly when some component is enabled, and each enabled one
  -- has not failed and reports HEALTHY or DISABLED.
  pub derive_overall_health-healthy :
      (plans : List ComponentPlan)
      → (derive_overall_health plans reports lifecycle ≡ OverallHealthState.healthy)
        ↔ (keep_if (λ p. p.enabled) plans ≢ []) × All IsFine (keep_if (λ p. p.enabled) plans)
  unfolding derive_overall_health
  derive_overall_health-healthy plans = judge_enabled-healthy (keep_if (λ p. p.enabled) plans)
