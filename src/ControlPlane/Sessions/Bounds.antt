-- ===== src/ControlPlane/Sessions/Bounds.antt =====
-- aurora_core/control_plane/sessions.py: the sizes of what the store keeps.
use project_aurora.Base.{
  ℕ, zero, suc, ◌+◌, ◌≤◌, ◌<◌, ◌≡◌, sym, subst, true, inl, inr, String, List, [], ◌∷◌, arith,
  Bool-cases, Option-cases, leb, length,
}
use project_aurora.Base.Checked.{ok}
use project_aurora.Base.Dict.{
  Dict, get, remove, AllValues, put-AllValues, remove-AllValues, retain-AllValues,
  remove_min-AllValues, weaken-AllValues, length-put-le, length-retain-le, length-remove-le,
}
use project_aurora.ControlPlane.Sessions.{
  Token, SessionRecord, SessionStore, CreatedSession, Raising, opaque_token_is_valid, create_store,
  is_live, purge_expired, evict, make_room, session_record, create, resolve, invalidate,
  active_count,
}
use project_aurora.ControlPlane.Sessions.Creation.{
  length-make_room, drawn, IsNew, Outcome, create-Outcome,
}

-- The number of a session is not above that of the store, and its CSRF token is a valid one.
pub record IsSound (sequence : ℕ) (r : SessionRecord) : Type 0 where
  pub numbered : r.sequence ≤ sequence
  pub csrf_valid : opaque_token_is_valid r.csrf_token ≡ true

pub record IsBounded (s : SessionStore) : Type 0 where
  pub maximum_positive : 0 < s.maximum_sessions
  pub sessions_bounded : length s.sessions ≤ s.maximum_sessions
  pub sessions_sound : AllValues (IsSound s.sequence) s.sessions

pub create_store-IsBounded :
    (ttl_seconds maximum_sessions : ℕ) (s : SessionStore)
    → create_store ttl_seconds maximum_sessions ≡ ok s
    → IsBounded s
unfolding create_store
create_store-IsBounded ttl maximum s h = ground arith

purge_expired-IsBounded :
    (s : SessionStore) (now : ℕ) → IsBounded s → IsBounded (purge_expired s now)
purge_expired-IsBounded s now v = record {
  maximum_positive = v.maximum_positive;
  sessions_bounded = omega (arith, v.sessions_bounded, length-retain-le (is_live now) s.sessions);
  sessions_sound = retain-AllValues _ (is_live now) s.sessions v.sessions_sound;
}

evict-AllValues :
    (P : SessionRecord → Type 0) (fuel maximum : ℕ) (d : Dict SessionRecord)
    → AllValues P d
    → AllValues P (evict fuel maximum d)
unfolding evict
evict-AllValues P zero maximum d a = a
evict-AllValues P (suc fuel) maximum d a = elim (Bool-cases (leb maximum (length d))) [
  | inr room ↦ rw room a
  | inl full ↦ rw full (evict-AllValues P fuel maximum _ (remove_min-AllValues P _ d a))
]

make_room-AllValues :
    (P : SessionRecord → Type 0) (s : SessionStore) (now : ℕ)
    → AllValues P s.sessions
    → AllValues P (make_room s now).sessions
unfolding make_room
make_room-AllValues P s now a =
    evict-AllValues P _ s.maximum_sessions _ (retain-AllValues P (is_live now) s.sessions a)

drawn-IsBounded : (s : SessionStore) (now n : ℕ) → IsBounded s → IsBounded (drawn s now n)
unfolding make_room
drawn-IsBounded s now n v =
    let a = make_room-AllValues (IsSound s.sequence) s now v.sessions_sound in
    let less = length-make_room s now v.maximum_positive in
    record {
      maximum_positive = v.maximum_positive;
      sessions_bounded = omega (arith, less);
      sessions_sound = a;
    }

module _ (digest : Token → ℕ) (token_factory : ℕ → ℕ → Token) where
  IsNew-IsBounded :
      (s : SessionStore) (username : String) (now : ℕ) (s' : SessionStore) (c : CreatedSession)
      → IsBounded s
      → IsNew digest token_factory s username now s' c
      → IsBounded s'
  unfolding make_room
  IsNew-IsBounded s username now s' c v new =
      let less = length-make_room s now v.maximum_positive in
      let d = (make_room s now).sessions in
      let r = session_record s username new.csrf_token now in
      let a =
        weaken-AllValues (IsSound s.sequence) (IsSound (s.sequence + 1)) d
          (λ x i. record { numbered = omega (arith, i.numbered); csrf_valid = i.csrf_valid })
          (make_room-AllValues (IsSound s.sequence) s now v.sessions_sound) in
      subst IsBounded (sym new.store_kept) (record {
        maximum_positive = v.maximum_positive;
        sessions_bounded = omega (arith, less, length-put-le (digest c.token) r d);
        sessions_sound =
            put-AllValues (IsSound (s.sequence + 1)) (digest c.token) r d
              (record { numbered = omega arith; csrf_valid = new.csrf_valid }) a;
      })

  create-IsBounded :
      (s : SessionStore) (username : String) (now : ℕ)
      → IsBounded s
      → IsBounded (create digest token_factory s username now).0
  create-IsBounded s username now v =
      go (create digest token_factory s username now)
        (create-Outcome digest token_factory s username now)
    where
      go :
          (r : Raising CreatedSession)
          → Outcome digest token_factory s username now r
          → IsBounded r.0
      go (s', inl c) new = IsNew-IsBounded s username now s' c v new
      go (s', inr e) kept = subst IsBounded (sym kept) (drawn-IsBounded s now s'.draws v)

  removed-IsBounded :
      (s : SessionStore) (k : ℕ)
      → IsBounded s
      → IsBounded (record s { sessions = remove k s.sessions })
  removed-IsBounded s k v = record {
    maximum_positive = v.maximum_positive;
    sessions_bounded = omega (arith, v.sessions_bounded, length-remove-le k s.sessions);
    sessions_sound = remove-AllValues (IsSound s.sequence) k s.sessions v.sessions_sound;
  }

  resolve-IsBounded :
      (s : SessionStore) (token : Token) (now : ℕ)
      → IsBounded s
      → IsBounded (resolve digest token_factory s token now).0
  unfolding resolve
  resolve-IsBounded s token now v = elim (Bool-cases (opaque_token_is_valid token)) [
    | inr bad ↦ rw bad v
    | inl good ↦ elim (Option-cases (get (digest token) s.sessions)) [
      | inl e ↦ rw (good, e) (purge_expired-IsBounded s now v)
      | inr (r, e) ↦ elim (Bool-cases (is_live now r)) [
        | inl live ↦ rw (good, e, live) (purge_expired-IsBounded s now v)
        | inr dead ↦
            rw (good, e, dead)
              (purge_expired-IsBounded _ now (removed-IsBounded s (digest token) v))
      ]
    ]
  ]

  invalidate-IsBounded :
      (s : SessionStore) (token : Token)
      → IsBounded s
      → IsBounded (invalidate digest token_factory s token).0
  unfolding invalidate
  invalidate-IsBounded s token v = elim (Bool-cases (opaque_token_is_valid token)) [
    | inr bad ↦ rw bad v
    | inl good ↦ rw good (removed-IsBounded s (digest token) v)
  ]

-- The calls of a client program, with the clock's reading where there is one.
pub data Operation : Type 0 where
  creates : String → ℕ → Operation
  resolves : Token → ℕ → Operation
  invalidates : Token → Operation
  counts : ℕ → Operation

module _ (digest : Token → ℕ) (token_factory : ℕ → ℕ → Token) where
  unfoldable pub step : SessionStore → Operation → SessionStore
  step s (creates username now) = (create digest token_factory s username now).0
  step s (resolves token now) = (resolve digest token_factory s token now).0
  step s (invalidates token) = (invalidate digest token_factory s token).0
  step s (counts now) = (active_count s now).0

  unfoldable pub run : List Operation → SessionStore → SessionStore
  run [] s = s
  run (o ∷ os) s = run os (step s o)

  step-IsBounded : (s : SessionStore) (o : Operation) → IsBounded s → IsBounded (step s o)
  unfolding step active_count
  step-IsBounded s (creates username now) v = create-IsBounded digest token_factory s username now v
  step-IsBounded s (resolves token now) v = resolve-IsBounded digest token_factory s token now v
  step-IsBounded s (invalidates token) v = invalidate-IsBounded digest token_factory s token v
  step-IsBounded s (counts now) v = purge_expired-IsBounded s now v

  run-IsBounded : (os : List Operation) (s : SessionStore) → IsBounded s → IsBounded (run os s)
  unfolding run
  run-IsBounded [] s v = v
  run-IsBounded (o ∷ os) s v = run-IsBounded os (step s o) (step-IsBounded s o v)

  -- After any calls on a store that was constructed, whatever the clock, the digests and the tokens
  -- drawn, and whether or not a call raised: there are no more sessions than the maximum, each is
  -- numbered no higher than the store's counter, and the CSRF token of each is a valid one.
  pub run-create_store-IsBounded :
      (ttl_seconds maximum_sessions : ℕ) (s : SessionStore) (os : List Operation)
      → create_store ttl_seconds maximum_sessions ≡ ok s
      → IsBounded (run os s)
  run-create_store-IsBounded ttl maximum s os h =
      run-IsBounded os s (create_store-IsBounded ttl maximum s h)
