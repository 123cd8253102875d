-- ===== src/HealthHistory/Models.antt =====
-- aurora_core/health_history/models.py: the code-owned types and bounds.
use project_aurora.Base.{ℕ}

abbrev pub max_timestamp_us : ℕ
max_timestamp_us = 9223372036854775807  -- 2 ** 63 - 1

abbrev pub max_bounded_counter : ℕ
max_bounded_counter = 65535

pub data HealthHistoryStatus : Type 0 where
  healthy degraded unavailable : HealthHistoryStatus

pub HealthHistoryStatus-discrete : Discrete HealthHistoryStatus
HealthHistoryStatus-discrete = hlevel

pub data AlertScope : Type 0 where
  overall wled hyperhdr capture raspberry_pi sampling : AlertScope

pub AlertScope-discrete : Discrete AlertScope
AlertScope-discrete = hlevel

pub data AlertKind : Type 0 where
  degraded unavailable sampling_gap : AlertKind

pub AlertKind-discrete : Discrete AlertKind
AlertKind-discrete = hlevel

pub data AlertLifecycle : Type 0 where
  open_alert acknowledged recovered archived : AlertLifecycle

pub AlertLifecycle-discrete : Discrete AlertLifecycle
AlertLifecycle-discrete = hlevel

pub data LifecycleEvent : Type 0 where
  opened occurrence_updated acknowledged recovered archived : LifecycleEvent

pub data SamplingGapPhase : Type 0 where
  clear candidate_one active recovery_one : SamplingGapPhase
