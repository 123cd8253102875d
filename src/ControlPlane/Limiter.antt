-- ===== src/ControlPlane/Limiter.antt =====
-- aurora_core/control_plane/limiter.py: LoginAttemptLimiter. A reading of the clock is a number of
-- ticks and an argument of the call that makes it. A digest is a number; `_digest`, a keyed hash
-- of the client identifier, is the parameter `digest` of the methods that use it.
pub mod Bounds
pub mod Window
use project_aurora.Base.{
  ℕ, ◌+◌, ◌*◌, Bool, true, false, not, ◌&&◌, Option, none, some, String, List, [], ◌∷◌, ◌++◌, arith,
  if◌then◌else◌, ltb, leb, is_some, length, keep_if,
}
use project_aurora.Base.Checked.{Checked, ok, value_error, ◌>>=◌, ◌>>◌, raise_if}
use project_aurora.Base.Dict.{Dict, get, put, remove, retain, remove_min}

abbrev pub max_tracked_clients : ℕ
max_tracked_clients = 256

abbrev pub global_attempt_multiplier : ℕ
global_attempt_multiplier = 16

pub record AttemptRecord : Type 0 where
  pub attempts : List ℕ
  pub last_seen : ℕ

pub record LoginAttemptLimiter : Type 0 where
  pub attempt_limit : ℕ
  pub window_seconds : ℕ
  pub maximum_clients : ℕ
  pub records : Dict AttemptRecord
  pub global_attempts : List ℕ
  pub global_attempt_limit : ℕ

-- `__init__`; the digest key's check belongs to the parameter `digest`.
unfoldable pub create_limiter : ℕ → ℕ → ℕ → Checked LoginAttemptLimiter
create_limiter attempt_limit window_seconds maximum_clients = do
  raise_if (not (ltb 0 attempt_limit && ltb 0 window_seconds && ltb 0 maximum_clients))
      "attempt-limiter bounds must be positive"
  ok (record {
    attempt_limit = attempt_limit;
    window_seconds = window_seconds;
    maximum_clients = maximum_clients;
    records = [];
    global_attempts = [];
    global_attempt_limit = attempt_limit * global_attempt_multiplier;
  })

-- `stamp > now - window_seconds`
abbrev pub is_recent : ℕ → ℕ → ℕ → Bool
is_recent window now stamp = ltb now (stamp + window)

abbrev pub has_attempts : AttemptRecord → Bool
has_attempts r = ltb 0 (length r.attempts)

abbrev pub trim : ℕ → ℕ → AttemptRecord → AttemptRecord
trim window now r = record r { attempts = keep_if (is_recent window now) r.attempts }

-- The loop of `_cleanup` over the records, which trims each of them in place.
unfoldable pub trim_records : ℕ → ℕ → Dict AttemptRecord → Dict AttemptRecord
trim_records window now [] = []
trim_records window now ((k, r) ∷ rest) = (k, trim window now r) ∷ trim_records window now rest

-- `_cleanup`
unfoldable pub cleanup : LoginAttemptLimiter → ℕ → LoginAttemptLimiter
cleanup l now = record l {
  global_attempts = keep_if (is_recent l.window_seconds now) l.global_attempts;
  records = retain has_attempts (trim_records l.window_seconds now l.records);
}

-- The records once the one of `digest` is there: a new client may evict the one last seen longest
-- ago.
unfoldable pub admit : LoginAttemptLimiter → ℕ → ℕ → Dict AttemptRecord
admit l digest now =
    if is_some (get digest l.records)
    then l.records
    else put digest (record { attempts = []; last_seen = now })
        (if leb l.maximum_clients (length l.records)
          then remove_min (λ r. r.last_seen) l.records
          else l.records)

abbrev pub attempts_of : Option AttemptRecord → List ℕ
attempts_of none = []
attempts_of (some r) = r.attempts

-- What follows the global check, on a limiter that is cleaned up.
unfoldable pub reserve : LoginAttemptLimiter → ℕ → ℕ → LoginAttemptLimiter × Bool
reserve l digest now =
    let records = admit l digest now in
    let recent = keep_if (is_recent l.window_seconds now) (attempts_of (get digest records)) in
    if leb l.attempt_limit (length recent)
    then (
      record l { records = put digest (record { attempts = recent; last_seen = now }) records },
      false,
    )
    else (
      record l {
        records = put digest (record { attempts = recent ++ now ∷ []; last_seen = now }) records;
        global_attempts = l.global_attempts ++ now ∷ [];
      },
      true,
    )

-- `begin_attempt`
unfoldable pub begin_attempt :
    (String → ℕ) → LoginAttemptLimiter → String → ℕ → LoginAttemptLimiter × Bool
begin_attempt digest l client_identifier now =
    let l' = cleanup l now in
    if leb l'.global_attempt_limit (length l'.global_attempts)
    then (l', false)
    else reserve l' (digest client_identifier) now

-- `clear`
unfoldable pub clear : (String → ℕ) → LoginAttemptLimiter → String → LoginAttemptLimiter
clear digest l client_identifier = record l {
  records = remove (digest client_identifier) l.records;
}

-- `tracked_client_count`
unfoldable pub tracked_client_count : LoginAttemptLimiter → ℕ → LoginAttemptLimiter × ℕ
tracked_client_count l now = let l' = cleanup l now in (l', length l'.records)

-- `attempt_count`
unfoldable pub attempt_count :
    (String → ℕ) → LoginAttemptLimiter → String → ℕ → LoginAttemptLimiter × ℕ
attempt_count digest l client_identifier now =
    let l' = cleanup l now in (l', length (attempts_of (get (digest client_identifier) l'.records)))
