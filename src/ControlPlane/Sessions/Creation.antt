-- ===== src/ControlPlane/Sessions/Creation.antt =====
-- aurora_core/control_plane/sessions.py: what `create` leaves and returns.
use project_aurora.Base.{
  ℕ, zero, suc, ◌+◌, ◌≤◌, ◌<◌, ◌≡◌, refl, sym, subst, true, false, ◌⊎◌, inl, inr, none,
  Option-cases, String, arith, Bool-cases, leb, leb→le, leb→lt, length,
}
use project_aurora.Base.Dict.{Dict, get, put, length-remove_min}
use project_aurora.ControlPlane.Sessions.{
  Token, SessionRecord, SessionStore, CreatedSession, Raising, continue, csrf_token_bytes,
  opaque_token_is_valid, evict, make_room, new_token, unique_token, session_record, add_session,
  create, context,
}

-- Enough fuel makes room for one more session.
length-evict :
    (fuel maximum : ℕ) (d : Dict SessionRecord)
    → 0 < maximum
    → length d ≤ fuel
    → length (evict fuel maximum d) < maximum
unfolding evict
length-evict zero maximum d h enough = omega arith
length-evict (suc fuel) maximum d h enough = elim (Bool-cases (leb maximum (length d))) [
  | inr room ↦ rw room (leb→lt maximum (length d) room)
  | inl full ↦ rw full (
      length-evict fuel maximum _ h (
        omega (
          arith,
          enough,
          leb→le maximum (length d) full,
          length-remove_min (λ r. r.sequence) d (omega (arith, leb→le maximum (length d) full)),
        )))
]

-- Two amounts of fuel that are enough do the same.
evict_same :
    (f g maximum : ℕ) (d : Dict SessionRecord)
    → 0 < maximum
    → length d ≤ f
    → length d ≤ g
    → evict f maximum d ≡ evict g maximum d
unfolding evict
evict_same zero zero maximum d h enough enough' = refl
evict_same zero (suc g) maximum d h enough enough' =
    let room : leb maximum (length d) ≡ false = ground (arith, enough, h) in rw room refl
evict_same (suc f) zero maximum d h enough enough' =
    let room : leb maximum (length d) ≡ false = ground (arith, enough', h) in rw room refl
evict_same (suc f) (suc g) maximum d h enough enough' = elim (Bool-cases (leb maximum (length d))) [
  | inr room ↦ rw room refl
  | inl full ↦
      let large = leb→le maximum (length d) full in
      let fewer = length-remove_min (λ r. r.sequence) d (omega (arith, h, large)) in
      rw full
        (evict_same f g maximum _ h (omega (arith, enough, fewer)) (omega (arith, enough', fewer)))
]

abbrev pub IsEvicted : ℕ → ℕ → Dict SessionRecord → Type 0
IsEvicted fuel maximum d =
    (length (evict fuel maximum d) < maximum) × (evict fuel maximum d ≡ evict (length d) maximum d)

-- The loop that makes room for a session ends: with at least as much fuel as there are sessions it
-- leaves fewer than the maximum, which is positive, and more fuel does not change its result.
pub evict-IsEvicted :
    (fuel maximum : ℕ) (d : Dict SessionRecord)
    → 0 < maximum
    → length d ≤ fuel
    → IsEvicted fuel maximum d
evict-IsEvicted fuel maximum d h enough = (
  length-evict fuel maximum d h enough,
  evict_same fuel (length d) maximum d h enough (omega arith),
)

pub length-make_room :
    (s : SessionStore) (now : ℕ)
    → 0 < s.maximum_sessions
    → length (make_room s now).sessions < s.maximum_sessions
unfolding make_room
length-make_room s now h = length-evict _ s.maximum_sessions _ h (omega arith)

-- The store in which `create` finds its tokens: room is made, and tokens are drawn.
abbrev pub drawn : SessionStore → ℕ → ℕ → SessionStore
drawn s now n = record (make_room s now) { draws = n }

module _ (digest : Token → ℕ) (token_factory : ℕ → ℕ → Token) where
  -- Drawing tokens changes only the number drawn.
  abbrev IsDrawn : SessionStore → SessionStore → Type 0
  IsDrawn s s' = s' ≡ record s { draws = s'.draws }

  -- A token that was drawn for the store `s`: valid, and of no session.
  abbrev IsFresh : SessionStore → Token ⊎ String → Type 0
  IsFresh s (inl t) = (opaque_token_is_valid t ≡ true) × (get (digest t) s.sessions ≡ none)
  IsFresh s (inr e) = Unit

  abbrev IsValidToken : Token ⊎ String → Type 0
  IsValidToken (inl t) = opaque_token_is_valid t ≡ true
  IsValidToken (inr e) = Unit

  new_token-valid : (s : SessionStore) (n : ℕ) → IsValidToken (new_token digest token_factory s n).1
  unfolding new_token
  new_token-valid s n = elim (Bool-cases (opaque_token_is_valid (token_factory s.draws n))) [
    | inl e ↦ rw e e
    | inr e ↦ rw e tt
  ]

  unique_token-IsFresh :
      (tries : ℕ) (s : SessionStore)
      → IsDrawn s (unique_token digest token_factory tries s).0
        × IsFresh s (unique_token digest token_factory tries s).1
  unfolding unique_token new_token
  unique_token-IsFresh zero s = (refl, tt)
  unique_token-IsFresh (suc tries) s =
      let t = token_factory s.draws 32 in
      let again = unique_token-IsFresh tries (record s { draws = s.draws + 1 }) in
      elim (Bool-cases (opaque_token_is_valid t)) [
        | inr bad ↦ rw bad (refl, tt)
        | inl good ↦ elim (Option-cases (get (digest t) s.sessions)) [
          | inl new ↦ rw (good, new) (refl, (good, new))
          | inr (r, old) ↦ rw (good, old) again
        ]
      ]

  -- A session for `username`, created at `now`: it is under the digest of its token, which no
  -- session had, and is numbered above all others.
  pub record IsNew (s : SessionStore) (username : String) (now : ℕ) (s' : SessionStore)
      (c : CreatedSession) : Type 0 where
    pub csrf_token : Token
    pub session_kept : c.session ≡ context (session_record s username csrf_token now) now
    pub store_kept : s' ≡ record (drawn s now s'.draws) {
      sequence = s.sequence + 1;
      sessions =
          put
            (digest c.token)
            (session_record s username csrf_token now)
            (make_room s now).sessions;
    }
    pub token_valid : opaque_token_is_valid c.token ≡ true
    pub csrf_valid : opaque_token_is_valid csrf_token ≡ true
    pub token_fresh : get (digest c.token) (make_room s now).sessions ≡ none

  -- `create` returns a new session, or raises with only room made and tokens drawn.
  abbrev pub Outcome : SessionStore → String → ℕ → Raising CreatedSession → Type 0
  Outcome s username now (s', inl c) = IsNew s username now s' c
  Outcome s username now (s', inr e) = s' ≡ drawn s now s'.draws

  pub create-Outcome :
      (s : SessionStore) (username : String) (now : ℕ)
      → Outcome s username now (create digest token_factory s username now)
  unfolding create new_token make_room
  create-Outcome s username now =
      let (kept, fresh) = unique_token-IsFresh 8 (make_room s now) in
      go (unique_token digest token_factory 8 (make_room s now)) kept fresh
    where
      finish :
          (n : ℕ) (token : Token) (csrf : Token ⊎ String)
          → IsFresh (make_room s now) (inl token)
          → IsValidToken csrf
          → Outcome s username now (
              continue
                (drawn s now n, csrf)
                λ s2 csrf_token. add_session digest token_factory s2 username token csrf_token now)
      finish n token (inr e) fresh good = refl
      finish n token (inl csrf) fresh good = record {
        csrf_token = csrf;
        session_kept = refl;
        store_kept = refl;
        token_valid = fresh.0;
        csrf_valid = good;
        token_fresh = fresh.1;
      }

      go :
          (r : Raising Token)
          → IsDrawn (make_room s now) r.0
          → IsFresh (make_room s now) r.1
          → Outcome s username now (
              continue r λ s1 token.
                continue (new_token digest token_factory s1 csrf_token_bytes) λ s2 csrf_token.
                  add_session digest token_factory s2 username token csrf_token now)
      go (s1, inr e) kept fresh = kept
      go (s1, inl token) kept fresh =
          subst
            (λ x. Outcome s username now (
              continue (new_token digest token_factory x csrf_token_bytes)
                λ s2 csrf_token. add_session digest token_factory s2 username token csrf_token now))
            (sym kept)
            (finish (s1.draws + 1) token
              (new_token digest token_factory (drawn s now s1.draws) csrf_token_bytes).1 fresh
              (new_token-valid (drawn s now s1.draws) csrf_token_bytes))
