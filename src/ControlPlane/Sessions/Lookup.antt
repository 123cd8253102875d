-- ===== src/ControlPlane/Sessions/Lookup.antt =====
-- aurora_core/control_plane/sessions.py: whether a token resolves.
use project_aurora.Base.{
  ℕ, zero, suc, ◌+◌, ◌-◌, ◌≡◌, ◌≢◌, refl, ap, subst, true, false, ◌⊎◌, inl, inr, none, some, Option,
  String, List, [], ◌∷◌, arith, Bool-cases, Option-cases, leb, ltb, length, if◌then◌else◌, ◌∙◌,
}
use project_aurora.Base.Dict.{
  Dict, get, put, get-put, get-remove, get-remove-none, get-remove_min-none, get-retain-none,
}
use project_aurora.ControlPlane.Sessions.{
  Token, SessionContext, SessionRecord, SessionStore, SessionLookup, CreatedSession, Raising, valid,
  invalid, expired, opaque_token_is_valid, same_token, csrf_is_valid, is_live, evict, make_room,
  session_record, create, found, resolve, invalidate, active_count,
}
use project_aurora.ControlPlane.Sessions.Creation.{IsNew, Outcome, create-Outcome}
use project_aurora.ControlPlane.Sessions.Bounds.{
  Operation, creates, resolves, invalidates, counts, step, run,
}

abbrev pub no_session : SessionLookup
no_session = record { status = invalid; session = none }

evict-none :
    (k fuel maximum : ℕ) (d : Dict SessionRecord)
    → get k d ≡ none
    → get k (evict fuel maximum d) ≡ none
unfolding evict
evict-none k zero maximum d h = h
evict-none k (suc fuel) maximum d h = elim (Bool-cases (leb maximum (length d))) [
  | inr room ↦ rw room h
  | inl full ↦ rw full (evict-none k fuel maximum _ (get-remove_min-none _ k d h))
]

make_room-none :
    (k : ℕ) (s : SessionStore) (now : ℕ)
    → get k s.sessions ≡ none
    → get k (make_room s now).sessions ≡ none
unfolding make_room
make_room-none k s now h = evict-none k _ s.maximum_sessions _ (get-retain-none _ k s.sessions h)

same_token_refl : (t : Token) → same_token t t ≡ true
unfolding same_token
same_token_refl [] = refl
same_token_refl (c ∷ cs) = ground (arith, same_token_refl cs)

-- What a client with the session's token finds, and whether it can submit its CSRF token.
abbrev pub Resolves : ℕ → ℕ → String → CreatedSession → SessionLookup → ℕ → Type 0
Resolves ttl now username c lookup later =
    (lookup ≡ (
      if ltb later (now + ttl)
      then record {
        status = valid;
        session = some (record {
          username = username;
          csrf_token = c.session.csrf_token;
          expires_in_seconds = now + ttl - later;
        });
      }
      else record { status = expired; session = none }))
    × (csrf_is_valid c.session c.session.csrf_token ≡ true)

csrf_is_valid_self :
    (c : SessionContext)
    → opaque_token_is_valid c.csrf_token ≡ true
    → csrf_is_valid c c.csrf_token ≡ true
unfolding csrf_is_valid
csrf_is_valid_self c h = rw (h, same_token_refl c.csrf_token) refl

module _ (digest : Token → ℕ) (token_factory : ℕ → ℕ → Token) where
  resolve-known :
      (s : SessionStore) (token : Token) (now : ℕ) (o : Option SessionRecord)
      → opaque_token_is_valid token ≡ true
      → get (digest token) s.sessions ≡ o
      → (resolve digest token_factory s token now).1 ≡ (found s (digest token) now o).1
  unfolding resolve
  resolve-known s token now o good e = rw (good, e) refl

  resolve-none :
      (s : SessionStore) (token : Token) (now : ℕ)
      → get (digest token) s.sessions ≡ none
      → (resolve digest token_factory s token now).1 ≡ no_session
  unfolding resolve
  resolve-none s token now e = elim (Bool-cases (opaque_token_is_valid token)) [
    | inr bad ↦ rw bad refl
    | inl good ↦ rw (good, e) refl
  ]

  -- The session that a `create` returned resolves by its token, at any reading of the clock: to
  -- its user, its CSRF token and the time left before it expires, and to EXPIRED from then on. Its
  -- own CSRF token is accepted.
  pub create-resolve :
      (s : SessionStore) (username : String) (now later : ℕ) (s' : SessionStore)
      (c : CreatedSession)
      → create digest token_factory s username now ≡ (s', inl c)
      → Resolves s.ttl_seconds now username c
          (resolve digest token_factory s' c.token later).1
          later
  create-resolve s username now later s' c e = go (
      subst (Outcome digest token_factory s username now) e
        (create-Outcome digest token_factory s username now))
    where
      go :
          IsNew digest token_factory s username now s' c
          → Resolves s.ttl_seconds now username c
              (resolve digest token_factory s' c.token later).1
              later
      go new =
          let k = digest c.token in
          let r = session_record s username new.csrf_token now in
          let d = (make_room s now).sessions in
          let put_same : get k (put k r d) ≡ some r = ground (arith, get-put k k r d) in
          let stored : get k s'.sessions ≡ some r =
            ap (λ x. get k x.sessions) new.store_kept ∙ put_same in
          let csrf : c.session.csrf_token ≡ new.csrf_token =
            ap (λ x. x.csrf_token) new.session_kept in
          let known = resolve-known s' c.token later (some r) new.token_valid stored in
          (
            elim (Bool-cases (ltb later (now + s.ttl_seconds))) [
              | inl live ↦ rw (known, live, csrf) refl
              | inr dead ↦ rw (known, dead) refl
            ],
            csrf_is_valid_self c.session (rw csrf new.csrf_valid),
          )

  -- What was created, if anything, has a token of another digest than `k`.
  abbrev pub IsOther : ℕ → CreatedSession ⊎ String → Type 0
  IsOther k (inl c) = digest c.token ≢ k
  IsOther k (inr e) = Unit

  abbrev pub Avoids1 : ℕ → SessionStore → Operation → Type 0
  Avoids1 k s (creates username now) = IsOther k (create digest token_factory s username now).1
  Avoids1 k s _ = Unit

  -- No session that the calls create has a token of the digest `k`.
  abbrev pub Avoids : ℕ → SessionStore → List Operation → Type 0
  Avoids k s [] = Unit
  Avoids k s (o ∷ os) = Avoids1 k s o × Avoids k (step digest token_factory s o) os

  create-none :
      (k : ℕ) (s : SessionStore) (username : String) (now : ℕ)
      → get k s.sessions ≡ none
      → Avoids1 k s (creates username now)
      → get k (create digest token_factory s username now).0.sessions ≡ none
  create-none k s username now h =
      go (create digest token_factory s username now)
        (create-Outcome digest token_factory s username now)
    where
      go :
          (r : Raising CreatedSession)
          → Outcome digest token_factory s username now r
          → IsOther k r.1
          → get k r.0.sessions ≡ none
      go (s', inr e) kept a = ap (λ x. get k x.sessions) kept ∙ make_room-none k s now h
      go (s', inl c) new a =
          let r = session_record s username new.csrf_token now in
          let d = (make_room s now).sessions in
          let other : get k (put (digest c.token) r d) ≡ none =
            ground (arith, get-put (digest c.token) k r d, make_room-none k s now h) in
          ap (λ x. get k x.sessions) new.store_kept ∙ other

  resolve-keeps_none :
      (k : ℕ) (s : SessionStore) (token : Token) (now : ℕ)
      → get k s.sessions ≡ none
      → get k (resolve digest token_factory s token now).0.sessions ≡ none
  unfolding resolve
  resolve-keeps_none k s token now h = elim (Bool-cases (opaque_token_is_valid token)) [
    | inr bad ↦ rw bad h
    | inl good ↦ elim (Option-cases (get (digest token) s.sessions)) [
      | inl e ↦ rw (good, e) (get-retain-none (is_live now) k s.sessions h)
      | inr (r, e) ↦ elim (Bool-cases (is_live now r)) [
        | inl live ↦ rw (good, e, live) (get-retain-none (is_live now) k s.sessions h)
        | inr dead ↦
            rw (good, e, dead)
              (get-retain-none (is_live now) k _ (get-remove-none (digest token) k s.sessions h))
      ]
    ]
  ]

  invalidate-keeps_none :
      (k : ℕ) (s : SessionStore) (token : Token)
      → get k s.sessions ≡ none
      → get k (invalidate digest token_factory s token).0.sessions ≡ none
  unfolding invalidate
  invalidate-keeps_none k s token h = elim (Bool-cases (opaque_token_is_valid token)) [
    | inr bad ↦ rw bad h
    | inl good ↦ rw good (get-remove-none (digest token) k s.sessions h)
  ]

  step-none :
      (k : ℕ) (s : SessionStore) (o : Operation)
      → get k s.sessions ≡ none
      → Avoids1 k s o
      → get k (step digest token_factory s o).sessions ≡ none
  unfolding step active_count
  step-none k s (creates username now) h a = create-none k s username now h a
  step-none k s (resolves token now) h a = resolve-keeps_none k s token now h
  step-none k s (invalidates token) h a = invalidate-keeps_none k s token h
  step-none k s (counts now) h a = get-retain-none (is_live now) k s.sessions h

  run-none :
      (k : ℕ) (os : List Operation) (s : SessionStore)
      → get k s.sessions ≡ none
      → Avoids k s os
      → get k (run digest token_factory os s).sessions ≡ none
  unfolding run
  run-none k [] s h a = h
  run-none k (o ∷ os) s h a =
      run-none k os (step digest token_factory s o) (step-none k s o h a.0) a.1

  resolve-bad :
      (s : SessionStore) (token : Token) (now : ℕ)
      → opaque_token_is_valid token ≡ false
      → (resolve digest token_factory s token now).1 ≡ no_session
  unfolding resolve
  resolve-bad s token now bad = rw bad refl

  invalidate-none :
      (s : SessionStore) (token : Token)
      → opaque_token_is_valid token ≡ true
      → get (digest token) (invalidate digest token_factory s token).0.sessions ≡ none
  unfolding invalidate
  invalidate-none s token good =
      let k = digest token in rw good (ground (arith, get-remove k k s.sessions))

  -- Once a token is invalidated, it resolves to INVALID at any time, after any calls that create no
  -- session whose token has the same digest.
  pub resolve-invalidate :
      (s : SessionStore) (token : Token) (os : List Operation) (later : ℕ)
      → Avoids (digest token) (invalidate digest token_factory s token).0 os
      → (resolve digest token_factory
          (run digest token_factory os (invalidate digest token_factory s token).0)
          token
          later).1
        ≡ no_session
  resolve-invalidate s token os later a = elim (Bool-cases (opaque_token_is_valid token)) [
    | inr bad ↦ resolve-bad _ token later bad
    | inl good ↦
        resolve-none _ token later (run-none (digest token) os _ (invalidate-none s token good) a)
  ]
