-- ===== src/ControlPlane/Limiter/Window.antt =====
-- aurora_core/control_plane/limiter.py: the accepted attempts of the last window.
use project_aurora.Base.{
  ℕ, ◌≤◌, ◌≡◌, refl, sym, ap, subst, ◌∙◌, ◌*◌, length-keep_if-le, Bool, String, List, [], ◌∷◌, ◌++◌,
  arith, if◌then◌else◌, length, keep_if,
}
use mathlib.Core.List.{append-nil, append_assoc}
use project_aurora.Base.Checked.{ok}
use project_aurora.ControlPlane.Limiter.{
  create_limiter, LoginAttemptLimiter, is_recent, cleanup, reserve, begin_attempt, clear,
  tracked_client_count, attempt_count,
}
use project_aurora.ControlPlane.Limiter.Bounds.{
  Operation, begins, clears, counts_clients, counts_attempts, step, run,
  run-create_limiter-IsBounded,
}

-- An attempt that `begin_attempt` accepts, with its time.
unfoldable pub accepted_by : (String → ℕ) → LoginAttemptLimiter → Operation → List ℕ
accepted_by digest l (begins client now) =
    if (begin_attempt digest l client now).1 then now ∷ [] else []
accepted_by digest l _ = []

-- The times of the accepted attempts of a history, in order.
unfoldable pub accepted : (String → ℕ) → List Operation → LoginAttemptLimiter → List ℕ
accepted digest [] l = []
accepted digest (o ∷ os) l = accepted_by digest l o ++ accepted digest os (step digest l o)

-- The clock's last reading after a call.
abbrev pub reading : ℕ → Operation → ℕ
reading now (begins client later) = later
reading now (clears client) = now
reading now (counts_clients later) = later
reading now (counts_attempts client later) = later

abbrev pub last_reading : ℕ → List Operation → ℕ
last_reading now [] = now
last_reading now (o ∷ os) = last_reading (reading now o) os

-- The clock's readings do not fall, from `now` on.
abbrev pub IsClocked : ℕ → List Operation → Type 0
IsClocked now [] = Unit
IsClocked now (o ∷ os) = (now ≤ reading now o) × IsClocked (reading now o) os

keep_if-append :
    (p : ℕ → Bool) (xs ys : List ℕ) → keep_if p (xs ++ ys) ≡ keep_if p xs ++ keep_if p ys
keep_if-append p [] ys = refl
keep_if-append p (x ∷ xs) ys = ground (arith, keep_if-append p xs ys)

-- What is recent later was recent before.
keep_recent_twice :
    (w now later : ℕ) (xs : List ℕ)
    → now ≤ later
    → keep_if (is_recent w later) (keep_if (is_recent w now) xs) ≡ keep_if (is_recent w later) xs
keep_recent_twice w now later [] h = refl
keep_recent_twice w now later (x ∷ xs) h = ground (arith, keep_recent_twice w now later xs h)

-- The attempts that the list holds are, from `now` on, those of `past` that are recent.
abbrev InWindow : ℕ → List ℕ → List ℕ → ℕ → Type 0
InWindow w held past now =
    (t : ℕ) → now ≤ t → keep_if (is_recent w t) held ≡ keep_if (is_recent w t) past

trimmed-InWindow :
    (w now later : ℕ) (held past new : List ℕ)
    → now ≤ later
    → InWindow w held past now
    → InWindow w (keep_if (is_recent w later) held ++ new) (past ++ new) later
trimmed-InWindow w now later held past new h inv t later_t =
    keep_if-append (is_recent w t) (keep_if (is_recent w later) held) new
    ∙ ap (λ l. l ++ keep_if (is_recent w t) new)
        (keep_recent_twice w later t held later_t ∙ inv t (omega arith))
    ∙ sym (keep_if-append (is_recent w t) past new)

create_limiter-fields :
    (a w m : ℕ) (l : LoginAttemptLimiter)
    → create_limiter a w m ≡ ok l
    → (l.global_attempts ≡ []) × (l.window_seconds ≡ w) × (l.global_attempt_limit ≡ a * 16)
unfolding create_limiter
create_limiter-fields a w m l h = ground arith

-- What a call leaves of the global list, and of the bounds.
step_global :
    (digest : String → ℕ) (l : LoginAttemptLimiter) (client : String) (now : ℕ)
    → (begin_attempt digest l client now).0.global_attempts
      ≡ keep_if (is_recent l.window_seconds now) l.global_attempts
        ++ accepted_by digest l (begins client now)
unfolding begin_attempt reserve cleanup accepted_by
step_global digest l client now =
    ground (arith, append-nil (keep_if (is_recent l.window_seconds now) l.global_attempts))

begin_attempt-window :
    (digest : String → ℕ) (l : LoginAttemptLimiter) (client : String) (now : ℕ)
    → ((begin_attempt digest l client now).0.window_seconds ≡ l.window_seconds)
      × ((begin_attempt digest l client now).0.global_attempt_limit ≡ l.global_attempt_limit)
unfolding begin_attempt reserve cleanup
begin_attempt-window digest l client now = ground arith

step-window :
    (digest : String → ℕ) (l : LoginAttemptLimiter) (o : Operation)
    → ((step digest l o).window_seconds ≡ l.window_seconds)
      × ((step digest l o).global_attempt_limit ≡ l.global_attempt_limit)
unfolding step clear tracked_client_count attempt_count cleanup
step-window digest l (begins client now) = begin_attempt-window digest l client now
step-window digest l (clears client) = (refl, refl)
step-window digest l (counts_clients now) = (refl, refl)
step-window digest l (counts_attempts client now) = (refl, refl)

step-InWindow :
    (digest : String → ℕ) (l : LoginAttemptLimiter) (o : Operation) (past : List ℕ) (now : ℕ)
    → now ≤ reading now o
    → InWindow l.window_seconds l.global_attempts past now
    → InWindow l.window_seconds
        (step digest l o).global_attempts
        (past ++ accepted_by digest l o)
        (reading now o)
unfolding step clear tracked_client_count attempt_count cleanup
step-InWindow digest l (begins client later) past now h inv =
    rw (step_global digest l client later)
      (trimmed-InWindow l.window_seconds now later l.global_attempts past _ h inv)
step-InWindow digest l (clears client) past now h inv = unfold accepted_by in rw append-nil inv
step-InWindow digest l (counts_clients later) past now h inv =
    unfold accepted_by in
    rw (← append-nil (keep_if (is_recent l.window_seconds later) l.global_attempts))
      (trimmed-InWindow l.window_seconds now later l.global_attempts past [] h inv)
step-InWindow digest l (counts_attempts client later) past now h inv =
    unfold accepted_by in
    rw (← append-nil (keep_if (is_recent l.window_seconds later) l.global_attempts))
      (trimmed-InWindow l.window_seconds now later l.global_attempts past [] h inv)

run-InWindow :
    (digest : String → ℕ) (w : ℕ) (os : List Operation) (l : LoginAttemptLimiter) (past : List ℕ)
    (now : ℕ)
    → l.window_seconds ≡ w
    → IsClocked now os
    → InWindow w l.global_attempts past now
    → InWindow w
        (run digest os l).global_attempts
        (past ++ accepted digest os l)
        (last_reading now os)
unfolding run accepted
run-InWindow digest w [] l past now e k inv = rw append-nil inv
run-InWindow digest w (o ∷ os) l past now e k inv =
    rw (← append_assoc past (accepted_by digest l o) (accepted digest os (step digest l o))) (
      run-InWindow digest w os (step digest l o) (past ++ accepted_by digest l o) (reading now o)
        ((step-window digest l o).0 ∙ e) k.1
        (subst
          (λ v.
            InWindow v (step digest l o).global_attempts (past ++ accepted_by digest l o)
              (reading now o))
          e
          (step-InWindow digest l o past now k.0
            (subst (λ v. InWindow v l.global_attempts past now) (sym e) inv))))

run-global_limit :
    (digest : String → ℕ) (os : List Operation) (l : LoginAttemptLimiter)
    → (run digest os l).global_attempt_limit ≡ l.global_attempt_limit
unfolding run
run-global_limit digest [] l = refl
run-global_limit digest (o ∷ os) l =
    run-global_limit digest os (step digest l o) ∙ (step-window digest l o).1

-- After any calls on a limiter that was constructed, with a clock that does not fall, the attempts
-- accepted in the window that ends at the last reading are at most 16 times the attempt limit,
-- whatever clients they came from, and whatever was cleared or evicted.
pub accepted-in_window :
    (digest : String → ℕ) (attempt_limit window_seconds maximum_clients : ℕ)
    (l : LoginAttemptLimiter) (os : List Operation) (now : ℕ)
    → create_limiter attempt_limit window_seconds maximum_clients ≡ ok l
    → IsClocked now os
    → length (keep_if (is_recent window_seconds (last_reading now os)) (accepted digest os l))
      ≤ attempt_limit * 16
accepted-in_window digest a w m l os now h k =
    let last = last_reading now os in
    let (empty, window, limit) = create_limiter-fields a w m l h in
    let inv =
      run-InWindow digest w os l [] now window k (λ t le. ap (keep_if (is_recent w t)) empty) in
    omega (
      arith,
      ap length (inv last (omega arith)),
      length-keep_if-le (is_recent w last) (run digest os l).global_attempts,
      (run-create_limiter-IsBounded digest a w m l os h).global_bounded,
      run-global_limit digest os l,
      limit,
    )
