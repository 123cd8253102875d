-- ===== src/ControlPlane/Limiter/Bounds.antt =====
-- aurora_core/control_plane/limiter.py: the sizes of what the limiter keeps.
use project_aurora.Base.{
  ℕ, ◌≤◌, ◌<◌, ◌≡◌, refl, true, false, ◌⊎◌, ◌==◌, leb→le, leb→lt, String, List, [], ◌∷◌, ◌++◌,
  arith, if◌then◌else◌, leb, inl, inr, is_some, length, length-append, keep_if, length-keep_if-le,
  Bool-cases,
}
use project_aurora.Base.Checked.{ok}
use project_aurora.Base.Dict.{
  Dict, get, put, remove_min, AllValues, put-AllValues, remove-AllValues, retain-AllValues,
  remove_min-AllValues, length-put-le, length-put_known, length-retain-le, length-remove-le,
  length-remove_min, get-put,
}
use project_aurora.ControlPlane.Limiter.{
  AttemptRecord, LoginAttemptLimiter, create_limiter, is_recent, has_attempts, trim_records,
  cleanup, admit, attempts_of, reserve, begin_attempt, clear, tracked_client_count, attempt_count,
}

abbrev pub IsCapped : ℕ → AttemptRecord → Type 0
IsCapped limit r = length r.attempts ≤ limit

-- Every list and dict of the limiter is within its bound, and the bounds are positive.
pub record IsBounded (l : LoginAttemptLimiter) : Type 0 where
  pub clients_positive : 0 < l.maximum_clients
  pub window_positive : 0 < l.window_seconds
  pub clients_bounded : length l.records ≤ l.maximum_clients
  pub global_bounded : length l.global_attempts ≤ l.global_attempt_limit
  pub attempts_bounded : AllValues (IsCapped l.attempt_limit) l.records

pub create_limiter-IsBounded :
    (attempt_limit window_seconds maximum_clients : ℕ) (l : LoginAttemptLimiter)
    → create_limiter attempt_limit window_seconds maximum_clients ≡ ok l
    → IsBounded l
unfolding create_limiter
create_limiter-IsBounded a w m l h = ground arith

length-trim_records :
    (w now : ℕ) (d : Dict AttemptRecord) → length (trim_records w now d) ≡ length d
unfolding trim_records
length-trim_records w now [] = refl
length-trim_records w now ((k, r) ∷ d) = omega (arith, length-trim_records w now d)

trim_records-IsCapped :
    (limit w now : ℕ) (d : Dict AttemptRecord)
    → AllValues (IsCapped limit) d
    → AllValues (IsCapped limit) (trim_records w now d)
unfolding trim_records
trim_records-IsCapped limit w now [] a = tt
trim_records-IsCapped limit w now ((k, r) ∷ d) a = (
  omega (arith, length-keep_if-le (is_recent w now) r.attempts),
  trim_records-IsCapped limit w now d a.1,
)

pub cleanup-IsBounded :
    (l : LoginAttemptLimiter) (now : ℕ) → IsBounded l → IsBounded (cleanup l now)
unfolding cleanup
cleanup-IsBounded l now v =
    let trimmed = trim_records l.window_seconds now l.records in
    record {
      clients_positive = v.clients_positive;
      window_positive = v.window_positive;
      clients_bounded = omega (
        arith,
        v.clients_bounded,
        length-retain-le has_attempts trimmed,
        length-trim_records l.window_seconds now l.records,
      );
      global_bounded = omega (
        arith,
        v.global_bounded,
        length-keep_if-le (is_recent l.window_seconds now) l.global_attempts,
      );
      attempts_bounded =
          retain-AllValues (IsCapped l.attempt_limit) has_attempts trimmed (
            trim_records-IsCapped l.attempt_limit l.window_seconds now l.records
              v.attempts_bounded);
    }

-- What `admit` leaves: room for the client within the bound, and its record.
record Admitted (l : LoginAttemptLimiter) (digest : ℕ) (d : Dict AttemptRecord) : Type 0 where
  clients_bounded : length d ≤ l.maximum_clients
  attempts_bounded : AllValues (IsCapped l.attempt_limit) d
  client_known : is_some (get digest d) ≡ true

admit-Admitted :
    (l : LoginAttemptLimiter) (digest now : ℕ)
    → IsBounded l
    → Admitted l digest (admit l digest now)
unfolding admit
admit-Admitted l digest now v = elim (Bool-cases (is_some (get digest l.records))) [
  | inl known ↦ rw known (record {
    clients_bounded = v.clients_bounded;
    attempts_bounded = v.attempts_bounded;
    client_known = known;
  })
  | inr new ↦ rw new (put_new (Bool-cases (leb l.maximum_clients (length l.records))))
]
  where
    fresh : AttemptRecord
    fresh = record { attempts = []; last_seen = now }

    known_after : (d : Dict AttemptRecord) → is_some (get digest (put digest fresh d)) ≡ true
    known_after d = rw (get-put digest digest fresh d) (ground arith)

    kept : Dict AttemptRecord
    kept =
        if leb l.maximum_clients (length l.records)
        then remove_min (λ r. r.last_seen) l.records
        else l.records

    put_new :
        (leb l.maximum_clients (length l.records) ≡ true)
          ⊎ (leb l.maximum_clients (length l.records) ≡ false)
        → Admitted l digest (put digest fresh kept)
    put_new (inl full) = rw full (record {
      clients_bounded = omega (
        arith,
        leb→le l.maximum_clients (length l.records) full,
        v.clients_positive,
        v.clients_bounded,
        length-remove_min (λ r. r.last_seen) l.records,
        length-put-le digest fresh (remove_min (λ r. r.last_seen) l.records),
      );
      attempts_bounded = put-AllValues (IsCapped l.attempt_limit) digest fresh _ (omega arith) (
          remove_min-AllValues (IsCapped l.attempt_limit) (λ r. r.last_seen) l.records
            v.attempts_bounded);
      client_known = known_after (remove_min (λ r. r.last_seen) l.records);
    })
    put_new (inr room) = rw room (record {
      clients_bounded = omega (
        arith,
        leb→lt l.maximum_clients (length l.records) room,
        length-put-le digest fresh l.records,
      );
      attempts_bounded =
          put-AllValues (IsCapped l.attempt_limit) digest fresh l.records (omega arith)
            v.attempts_bounded;
      client_known = known_after l.records;
    })

get-IsCapped :
    (limit digest : ℕ) (d : Dict AttemptRecord)
    → AllValues (IsCapped limit) d
    → length (attempts_of (get digest d)) ≤ limit
unfolding get
get-IsCapped limit digest [] a = omega arith
get-IsCapped limit digest ((k, r) ∷ d) a = elim (Bool-cases (k == digest)) [
  | inl e ↦ rw e a.0
  | inr e ↦ rw e (get-IsCapped limit digest d a.1)
]

store-IsBounded :
    (l : LoginAttemptLimiter) (digest : ℕ) (r : AttemptRecord) (d : Dict AttemptRecord)
    (global : List ℕ)
    → IsBounded l
    → Admitted l digest d
    → IsCapped l.attempt_limit r
    → length global ≤ l.global_attempt_limit
    → IsBounded (record l { records = put digest r d; global_attempts = global })
store-IsBounded l digest r d global v w capped below = record {
  clients_positive = v.clients_positive;
  window_positive = v.window_positive;
  clients_bounded = omega (arith, w.clients_bounded, length-put_known digest r d w.client_known);
  global_bounded = below;
  attempts_bounded = put-AllValues (IsCapped l.attempt_limit) digest r d capped w.attempts_bounded;
}

reserve-IsBounded :
    (l : LoginAttemptLimiter) (digest now : ℕ)
    → length l.global_attempts < l.global_attempt_limit
    → IsBounded l
    → IsBounded (reserve l digest now).0
unfolding reserve
reserve-IsBounded l digest now room v =
    let w = admit-Admitted l digest now v in
    let d = admit l digest now in
    let recent = keep_if (is_recent l.window_seconds now) (attempts_of (get digest d)) in
    elim (Bool-cases (leb l.attempt_limit (length recent))) [
      | inl full ↦ rw full (
          store-IsBounded l digest _ d l.global_attempts v w
            (omega (
              arith,
              get-IsCapped l.attempt_limit digest d w.attempts_bounded,
              length-keep_if-le (is_recent l.window_seconds now) (attempts_of (get digest d)),
            ))
            v.global_bounded)
      | inr open_slot ↦ rw open_slot (
          store-IsBounded l digest _ d (l.global_attempts ++ now ∷ []) v w
            (omega (
              arith,
              leb→lt l.attempt_limit (length recent) open_slot,
              length-append recent (now ∷ []),
            ))
            (omega (arith, length-append l.global_attempts (now ∷ []))))
    ]

pub begin_attempt-IsBounded :
    (digest : String → ℕ) (l : LoginAttemptLimiter) (client_identifier : String) (now : ℕ)
    → IsBounded l
    → IsBounded (begin_attempt digest l client_identifier now).0
unfolding begin_attempt
begin_attempt-IsBounded digest l client now v =
    let w = cleanup-IsBounded l now v in
    let l' = cleanup l now in
    elim (Bool-cases (leb l'.global_attempt_limit (length l'.global_attempts))) [
      | inl full ↦ rw full w
      | inr room ↦ rw room (
          reserve-IsBounded l' (digest client) now
            (leb→lt l'.global_attempt_limit (length l'.global_attempts) room) w)
    ]

clear-IsBounded :
    (digest : String → ℕ) (l : LoginAttemptLimiter) (client_identifier : String)
    → IsBounded l
    → IsBounded (clear digest l client_identifier)
unfolding clear
clear-IsBounded digest l client v = record {
  clients_positive = v.clients_positive;
  window_positive = v.window_positive;
  clients_bounded = omega (arith, v.clients_bounded, length-remove-le (digest client) l.records);
  global_bounded = v.global_bounded;
  attempts_bounded =
      remove-AllValues (IsCapped l.attempt_limit) (digest client) l.records v.attempts_bounded;
}

-- The calls of a client program, each with the clock's reading.
pub data Operation : Type 0 where
  begins : String → ℕ → Operation
  clears : String → Operation
  counts_clients : ℕ → Operation
  counts_attempts : String → ℕ → Operation

unfoldable pub step : (String → ℕ) → LoginAttemptLimiter → Operation → LoginAttemptLimiter
step digest l (begins client now) = (begin_attempt digest l client now).0
step digest l (clears client) = clear digest l client
step digest l (counts_clients now) = (tracked_client_count l now).0
step digest l (counts_attempts client now) = (attempt_count digest l client now).0

unfoldable pub run : (String → ℕ) → List Operation → LoginAttemptLimiter → LoginAttemptLimiter
run digest [] l = l
run digest (o ∷ os) l = run digest os (step digest l o)

step-IsBounded :
    (digest : String → ℕ) (l : LoginAttemptLimiter) (o : Operation)
    → IsBounded l
    → IsBounded (step digest l o)
unfolding step tracked_client_count attempt_count
step-IsBounded digest l (begins client now) v = begin_attempt-IsBounded digest l client now v
step-IsBounded digest l (clears client) v = clear-IsBounded digest l client v
step-IsBounded digest l (counts_clients now) v = cleanup-IsBounded l now v
step-IsBounded digest l (counts_attempts client now) v = cleanup-IsBounded l now v

run-IsBounded :
    (digest : String → ℕ) (os : List Operation) (l : LoginAttemptLimiter)
    → IsBounded l
    → IsBounded (run digest os l)
unfolding run
run-IsBounded digest [] l v = v
run-IsBounded digest (o ∷ os) l v =
    run-IsBounded digest os (step digest l o) (step-IsBounded digest l o v)

-- After any calls on a limiter that was constructed, whatever the clock and the digests: it tracks
-- no more clients than its maximum, no client has more attempts than the limit, and all together
-- no more than the global limit.
pub run-create_limiter-IsBounded :
    (digest : String → ℕ) (attempt_limit window_seconds maximum_clients : ℕ)
    (l : LoginAttemptLimiter) (os : List Operation)
    → create_limiter attempt_limit window_seconds maximum_clients ≡ ok l
    → IsBounded (run digest os l)
run-create_limiter-IsBounded digest a w m l os h =
    run-IsBounded digest os l (create_limiter-IsBounded a w m l h)
