-- ===== src/M18Validation/AlertLifecycle/Outcomes.antt =====
-- aurora_core/m18_validation/alert_lifecycle.py: valid alerts, the diagram, and the kinds of result.
use project_aurora.Base.{
  ◌+◌, ◌≤◌, ◌≡◌, refl, sym, Bool, true, false, not, ◌&&◌, Option, none, some, arith, is_some,
}
use project_aurora.Base.Checked.{Checked, ok, require}
use project_aurora.M18Validation.AlertLifecycle.{
  AlertLifecycle, AlertState, AlertTransition, AlertOutcome, AlertEvent, applied,
  max_alert_generation, max_alert_occurrences, max_alert_time, same_alert, mutated, is_terminal,
  time_in_range, check_state, unchanged, changed, creating,
}

-- What `AlertState(...)` checks.
pub record IsValid (s : AlertState) : Type 0 where
  pub generation_positive : 1 ≤ s.generation
  pub generation_bounded : s.generation ≤ max_alert_generation
  pub occurrences_positive : 1 ≤ s.occurrence_count
  pub occurrences_bounded : s.occurrence_count ≤ max_alert_occurrences
  pub cooldown_bounded : s.cooldown_until ≤ max_alert_time
  pub recovery_bounded : time_in_range s.recovered_at ≡ true
  pub recovery_known : is_some s.recovered_at ≡ is_terminal s.lifecycle

pub check_state-IsValid : (s : AlertState) → IsValid s → check_state s ≡ ok s
unfolding check_state require
check_state-IsValid s v = ground arith

pub same_alert_refl : (s : AlertState) → same_alert s s ≡ true
unfolding same_alert
same_alert_refl s = ground arith

-- The diagram. Nothing leaves `archived`, and an alert is acknowledged only from `open`.
pub data Edge : AlertLifecycle → AlertLifecycle → Type 0 where
  stays : {l : AlertLifecycle} → Edge l l
  acknowledges : Edge AlertLifecycle.open_alert AlertLifecycle.acknowledged
  recovers : Edge AlertLifecycle.open_alert AlertLifecycle.recovered
  recovers_acknowledged : Edge AlertLifecycle.acknowledged AlertLifecycle.recovered
  archives : Edge AlertLifecycle.recovered AlertLifecycle.archived

-- The same alert, later.
pub record Later (s s' : AlertState) : Type 0 where
  pub valid : IsValid s'
  pub scope_kept : s'.scope ≡ s.scope
  pub kind_kept : s'.kind ≡ s.kind
  pub generation_kept : s'.generation ≡ s.generation
  pub cooldown_grows : s.cooldown_until ≤ s'.cooldown_until
  pub edge : Edge s.lifecycle s'.lifecycle

-- A new alert of the next generation.
pub record Successor (s c : AlertState) : Type 0 where
  pub valid : IsValid c
  pub scope_kept : c.scope ≡ s.scope
  pub next_generation : c.generation ≡ s.generation + 1
  pub is_open : c.lifecycle ≡ AlertLifecycle.open_alert

abbrev pub IsLater : Option AlertState → Option AlertState → Type 0
IsLater s none = (s ≡ none) × Unit {0}
IsLater none (some s') =
    IsValid s' × (s'.generation ≡ 1) × (s'.lifecycle ≡ AlertLifecycle.open_alert)
IsLater (some s) (some s') = Later s s'

abbrev pub IsSuccessor : Option AlertState → Option AlertState → Type 0
IsSuccessor s none = Unit
IsSuccessor none (some c) = ⊥
IsSuccessor (some s) (some c) = Successor s c

abbrev pub IsValidOption : Option AlertState → Type 0
IsValidOption none = Unit
IsValidOption (some s) = IsValid s

abbrev pub is_applied : AlertOutcome → Bool
is_applied applied = true
is_applied _ = false

-- An evaluation of `s` that returns; what it leaves and what it creates follows from `s`; there is
-- an event exactly where the outcome is `applied`, and no change where it is not.
pub record Sound (s : Option AlertState) (r : Checked AlertTransition) : Type 0 where
  pub result : AlertTransition
  pub returns : r ≡ ok result
  pub from_state : result.previous ≡ s
  pub later : IsLater s result.state
  pub successor : IsSuccessor s result.created_alert
  pub event_applied : is_some result.event ≡ is_applied result.outcome
  pub mutated_applied : mutated result && not (is_applied result.outcome) ≡ false

pub Later-refl : (s : AlertState) → IsValid s → Later s s
Later-refl s v = record {
  valid = v;
  scope_kept = refl;
  kind_kept = refl;
  generation_kept = refl;
  cooldown_grows = omega arith;
  edge = stays;
}

pub unchanged-Sound :
    (s : Option AlertState) (o : AlertOutcome)
    → IsValidOption s
    → is_applied o ≡ false
    → Sound s (unchanged s o)
unfolding mutated
unchanged-Sound none o v h = record {
  result = _;
  returns = refl;
  from_state = refl;
  later = (refl, tt);
  successor = tt;
  event_applied = sym h;
  mutated_applied = refl;
}
unchanged-Sound (some s) o v h = record {
  result = _;
  returns = refl;
  from_state = refl;
  later = Later-refl s v;
  successor = tt;
  event_applied = sym h;
  mutated_applied = rw (same_alert_refl s) refl;
}

pub changed-Sound :
    (s : Option AlertState) (e : AlertEvent) (next : AlertState)
    → IsLater s (some next)
    → Sound s (changed s e next)
changed-Sound s e next w = record {
  result = _;
  returns = refl;
  from_state = refl;
  later = w;
  successor = tt;
  event_applied = refl;
  mutated_applied = ground arith;
}

pub creating-Sound : (s c : AlertState) → IsValid s → Successor s c → Sound (some s) (creating s c)
creating-Sound s c v w = record {
  result = _;
  returns = refl;
  from_state = refl;
  later = Later-refl s v;
  successor = w;
  event_applied = refl;
  mutated_applied = ground arith;
}
