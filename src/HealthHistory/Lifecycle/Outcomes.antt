-- ===== src/HealthHistory/Lifecycle/Outcomes.antt =====
-- aurora_core/health_history/lifecycle.py: valid alerts, and the kinds of result.
use project_aurora.Base.{◌≤◌, ◌≡◌, refl, sym, Bool, true, false, Option, none, some, arith, is_some}
use project_aurora.Base.Checked.{Checked, ok, require}
use project_aurora.HealthHistory.Models.{max_bounded_counter, max_timestamp_us, LifecycleEvent}
use project_aurora.HealthHistory.Lifecycle.{
  AutomaticAlertState, AutomaticAlertTransition, AutomaticAlertOutcome, applied, same_alert,
  same_optional_alert, mutated, is_terminal, time_in_range, scope_fits_kind, same_bool, check_state,
  unchanged, changed, creating,
}

-- What `AutomaticAlertState(...)` checks.
pub record IsValid (s : AutomaticAlertState) : Type 0 where
  pub generation_positive : 1 ≤ s.generation
  pub generation_bounded : s.generation ≤ max_bounded_counter
  pub occurrences_positive : 1 ≤ s.occurrence_count
  pub occurrences_bounded : s.occurrence_count ≤ max_bounded_counter
  pub cooldown_bounded : s.cooldown_until_utc_us ≤ max_timestamp_us
  pub recovery_bounded : time_in_range s.recovered_at_utc_us ≡ true
  pub recovery_known : same_bool (is_terminal s.lifecycle) (is_some s.recovered_at_utc_us) ≡ true
  pub kind_fits : scope_fits_kind s.scope s.kind ≡ true

pub check_state-IsValid : (s : AutomaticAlertState) → IsValid s → check_state s ≡ ok s
unfolding check_state require
check_state-IsValid s v = ground arith

pub same_alert_refl : (s : AutomaticAlertState) → same_alert s s ≡ true
unfolding same_alert
same_alert_refl s = ground arith

abbrev pub IsValidOption : Option AutomaticAlertState → Type 0
IsValidOption none = Unit
IsValidOption (some s) = IsValid s

abbrev pub is_applied : AutomaticAlertOutcome → Bool
is_applied applied = true
is_applied _ = false

-- A transition from `s` that leaves and creates valid alerts, and reports `applied`, with an
-- event, exactly when it changes the alert or creates one.
pub record Accounted (s : Option AutomaticAlertState) (r : Checked AutomaticAlertTransition)
    : Type 0 where
  pub result : AutomaticAlertTransition
  pub returns : r ≡ ok result
  pub from_state : result.previous ≡ s
  pub state_valid : IsValidOption result.state
  pub created_valid : IsValidOption result.created_alert
  pub event_applied : is_some result.event ≡ is_applied result.outcome
  pub mutated_applied : mutated result ≡ is_applied result.outcome

pub unchanged-Accounted :
    (s : Option AutomaticAlertState) (o : AutomaticAlertOutcome)
    → IsValidOption s
    → is_applied o ≡ false
    → Accounted s (unchanged s o)
unfolding mutated
unchanged-Accounted none o v h = record {
  result = record {
    previous = none;
    state = none;
    created_alert = none;
    event = none;
    outcome = o;
  };
  returns = refl;
  from_state = refl;
  state_valid = tt;
  created_valid = tt;
  event_applied = sym h;
  mutated_applied = sym h;
}
unchanged-Accounted (some s) o v h = record {
  result = record {
    previous = some s;
    state = some s;
    created_alert = none;
    event = none;
    outcome = o;
  };
  returns = refl;
  from_state = refl;
  state_valid = v;
  created_valid = tt;
  event_applied = sym h;
  mutated_applied = rw (same_alert_refl s) (sym h);
}

pub changed-Accounted :
    (s : Option AutomaticAlertState) (next : AutomaticAlertState) (e : LifecycleEvent)
    → IsValid next
    → same_optional_alert (some next) s ≡ false
    → Accounted s (changed s next e)
unfolding mutated
changed-Accounted s next e v h = record {
  result = record {
    previous = s;
    state = some next;
    created_alert = none;
    event = some e;
    outcome = applied;
  };
  returns = refl;
  from_state = refl;
  state_valid = v;
  created_valid = tt;
  event_applied = refl;
  mutated_applied = rw h refl;
}

pub creating-Accounted :
    (s c : AutomaticAlertState) → IsValid s → IsValid c → Accounted (some s) (creating s c)
unfolding mutated
creating-Accounted s c v w = record {
  result = record {
    previous = some s;
    state = some s;
    created_alert = some c;
    event = some LifecycleEvent.opened;
    outcome = applied;
  };
  returns = refl;
  from_state = refl;
  state_valid = v;
  created_valid = w;
  event_applied = refl;
  mutated_applied = rw (same_alert_refl s) refl;
}
