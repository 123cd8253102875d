-- ===== src/Tests/ControlPlane/Limiter.antt =====
-- Runs of aurora_core/control_plane/limiter.py.
use project_aurora.Base.{ℕ, ◌≤◌, ◌≡◌, refl, String, List, [], ◌∷◌, length, keep_if, arith}
use project_aurora.Base.Checked.{ok}
use project_aurora.Base.Dict.{get, put, retain}
use project_aurora.ControlPlane.Limiter.{
  LoginAttemptLimiter, create_limiter, is_recent, begin_attempt, reserve, admit, cleanup,
  trim_records, clear, tracked_client_count,
}
use project_aurora.ControlPlane.Limiter.Bounds.{
  Operation, begins, clears, counts_clients, step, run, IsBounded, run-create_limiter-IsBounded,
}
use project_aurora.ControlPlane.Limiter.Window.{accepted, accepted_by, accepted-in_window}

-- Stands for the keyed hash.
abbrev digest : String → ℕ
digest client = 1

abbrev limiter : LoginAttemptLimiter
limiter = record {
  attempt_limit = 2;
  window_seconds = 10;
  maximum_clients = 4;
  records = [];
  global_attempts = [];
  global_attempt_limit = 32;
}

limiter-created : create_limiter 2 10 4 ≡ ok limiter
unfolding create_limiter
limiter-created = refl

abbrev history : List Operation
history =
    begins "a" 0 ∷ begins "a" 1 ∷ begins "a" 5 ∷ counts_clients 6 ∷ begins "a" 11 ∷ clears "a" ∷ []

-- The third attempt is refused, and the window of the first has passed at 11.
accepted-history : accepted digest history limiter ≡ 0 ∷ 1 ∷ 11 ∷ []
unfolding accepted accepted_by step begin_attempt reserve admit cleanup trim_records get put retain
    clear tracked_client_count
accepted-history = refl

run-create_limiter-IsBounded_example : IsBounded (run digest history limiter)
run-create_limiter-IsBounded_example =
    run-create_limiter-IsBounded digest 2 10 4 limiter history limiter-created

accepted-in_window_example :
    length (keep_if (is_recent 10 11) (accepted digest history limiter)) ≤ 32
accepted-in_window_example =
    accepted-in_window digest 2 10 4 limiter history 0 limiter-created (omega arith)
