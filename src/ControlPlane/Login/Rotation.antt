-- ===== src/ControlPlane/Login/Rotation.antt =====
-- aurora_core/control_plane/service.py: the sessions that logins and logouts begin and end.
use project_aurora.Base.{
  ℕ, ◌+◌, ◌-◌, ◌⊎◌, ◌≡◌, ◌≢◌, refl, sym, ap, subst, ◌∙◌, inl, inr, Bool, true, false, not, Option,
  none, some, String, [], ◌∷◌, if◌then◌else◌, ltb, is_some, Bool-cases,
}
use project_aurora.Base.Dict.{get, remove}
use project_aurora.ControlPlane.Limiter.{begin_attempt}
use project_aurora.ControlPlane.Sessions.{
  SessionStore, SessionContext, SessionLookup, SessionLookupStatus, CreatedSession, Token, valid,
  opaque_token_is_valid, invalid, expired, create, resolve, invalidate, csrf_is_valid, Raising,
}
use project_aurora.ControlPlane.Sessions.Bounds.{creates, run, step}
use project_aurora.ControlPlane.Sessions.Lookup.{
  Resolves, create-resolve, IsOther, Avoids, resolve-invalidate, no_session,
}
use project_aurora.ControlPlane.Login.Authorization.{authenticate-IsAuthorized}
use project_aurora.ControlPlane.Login.{
  ControlPlaneService, LoginResult, signed_in, invalidate_prior, sign_in, authenticate,
  answer_lookup, resolve_session, logout, text_or_empty,
}

abbrev pub created_in : LoginResult ⊎ String → Option CreatedSession
created_in (inl r) = r.created_session
created_in (inr error) = none

module _ (digest : Token → ℕ) (token_factory : ℕ → ℕ → Token) where
  -- What a lookup lets through.
  abbrev admitted : SessionLookupStatus → Option SessionContext → Option SessionContext
  admitted valid session = session
  admitted _ session = none

  answer_lookup-admitted :
      (s : ControlPlaneService) (status : SessionLookupStatus) (c : Option SessionContext)
      → (answer_lookup digest token_factory s status c).1 ≡ admitted status c
  unfolding answer_lookup
  answer_lookup-admitted s valid c = refl
  answer_lookup-admitted s invalid c = refl
  answer_lookup-admitted s expired c = refl

  resolve_session-admitted :
      (s : ControlPlaneService) (token : Token) (now : ℕ)
      → s.settings.enabled ≡ true
      → let lookup = (resolve digest token_factory s.sessions token now).1 in
        (resolve_session digest token_factory s (some token) now).1
        ≡ admitted lookup.status lookup.session
  unfolding resolve_session
  resolve_session-admitted s token now on =
      let (sessions, lookup) = resolve digest token_factory s.sessions token now in
      simp on
        (answer_lookup-admitted (record s { sessions = sessions }) lookup.status lookup.session)

  -- The session of a login until it expires.
  abbrev pub until_expiry : ControlPlaneService → CreatedSession → ℕ → ℕ → Option SessionContext
  until_expiry s c created_at later =
      if ltb later (created_at + s.sessions.ttl_seconds)
      then some (record {
        username = text_or_empty s.settings.username;
        csrf_token = c.session.csrf_token;
        expires_in_seconds = created_at + s.sessions.ttl_seconds - later;
      })
      else none

  signed_in-created_in :
      (s : ControlPlaneService) (q : Raising CreatedSession) (c : CreatedSession)
      → created_in (signed_in s q).1 ≡ some c
      → (q ≡ ((signed_in s q).0.sessions, inl c)) × ((signed_in s q).0.settings ≡ s.settings)
  unfolding signed_in
  signed_in-created_in s (sessions, inl created) c e =
      let same : created ≡ c = cc in (ap (λ x. (sessions, inl x)) same, refl)
  signed_in-created_in s (sessions, inr error) c e = absurd (cc)

  module _ (client_digest : String → ℕ) (verify_password : String → String → Bool) where
    abbrev login :
        ControlPlaneService
        → String
        → String
        → String
        → Option Token
        → ℕ
        → ℕ
        → ControlPlaneService × (LoginResult ⊎ String)
    login = authenticate digest token_factory client_digest verify_password

    invalidate_ttl :
        (sessions : SessionStore) (token : Token)
        → (invalidate digest token_factory sessions token).0.ttl_seconds ≡ sessions.ttl_seconds
    unfolding invalidate
    invalidate_ttl sessions token = go (opaque_token_is_valid token)
      where
        go :
            (b : Bool)
            → let r : SessionStore × Bool = if not b then (sessions, false) else (
              record sessions { sessions = remove (digest token) sessions.sessions },
              is_some (get (digest token) sessions.sessions),
            ) in
              r.0.ttl_seconds ≡ sessions.ttl_seconds
        go true = refl
        go false = refl

    invalidate_prior_ttl :
        (sessions : SessionStore) (prior : Option Token)
        → (invalidate_prior digest token_factory sessions prior).ttl_seconds ≡ sessions.ttl_seconds
    unfolding invalidate_prior
    invalidate_prior_ttl sessions none = refl
    invalidate_prior_ttl sessions (some token) = invalidate_ttl sessions token

    -- What a login that created a session did.
    abbrev IsOpened :
        ControlPlaneService → Option Token → ℕ → CreatedSession → ControlPlaneService → Type 0
    IsOpened s prior created_at c s' =
        (s'.settings.enabled ≡ true)
        × (create digest token_factory (invalidate_prior digest token_factory s.sessions prior)
              (text_or_empty s.settings.username) created_at
            ≡ (s'.sessions, inl c))

    authenticate-IsOpened :
        (s : ControlPlaneService) (username password client : String) (prior : Option Token)
        (attempted_at created_at : ℕ) (c : CreatedSession)
        → created_in (login s username password client prior attempted_at created_at).1 ≡ some c
        → IsOpened s prior created_at c
            (login s username password client prior attempted_at created_at).0
    unfolding sign_in
    authenticate-IsOpened s username password client prior attempted_at created_at c e =
        elim (authenticate-IsAuthorized digest token_factory client_digest verify_password s
          username password client prior attempted_at created_at) [
            | inr (kept, (status, refused, low)) ↦
                absurd (go (subst (λ r. created_in r ≡ some c) refused e))
            | inl ((on, free, right), signs) ↦
                let s1 = (begin_attempt client_digest s.limiter client attempted_at).0 in
                let (made, same) =
                  signed_in-created_in _ _ c (subst (λ p. created_in p.1 ≡ some c) signs e) in
                subst (IsOpened s prior created_at c) (ap (λ p. p.0) (sym signs))
                  (ap (λ t. t.enabled) same ∙ on, made)
          ]
      where
        go : none ≡ some c → ⊥
        go h = absurd (cc)

    admitted_by :
        (s : ControlPlaneService) (c : CreatedSession) (created_at later : ℕ)
        (lookup : SessionLookup)
        → Resolves s.sessions.ttl_seconds created_at
            (text_or_empty s.settings.username)
            c
            lookup
            later
        → admitted lookup.status lookup.session ≡ until_expiry s c created_at later
    admitted_by s c created_at later lookup (e, accepted) =
        ap (λ l. admitted l.status l.session) e
        ∙ go (ltb later (created_at + s.sessions.ttl_seconds))
      where
        context_then : SessionContext
        context_then = record {
          username = text_or_empty s.settings.username;
          csrf_token = c.session.csrf_token;
          expires_in_seconds = created_at + s.sessions.ttl_seconds - later;
        }

        go :
            (b : Bool)
            → let l : SessionLookup =
                if b
                then record { status = valid; session = some context_then }
                else record { status = expired; session = none } in
              admitted l.status l.session ≡ (if b then some context_then else none)
        go true = refl
        go false = refl

    -- A login that created a session: its token resolves, at any reading of the clock, to a session of the
    -- configured user with the created CSRF token until it expires, and to none from then on.
    pub authenticate-resolve_session :
        (s : ControlPlaneService) (username password client : String) (prior : Option Token)
        (attempted_at created_at later : ℕ) (c : CreatedSession)
        → created_in (login s username password client prior attempted_at created_at).1 ≡ some c
        → (resolve_session digest token_factory
            (login s username password client prior attempted_at created_at).0
            (some c.token)
            later).1
          ≡ until_expiry s c created_at later
    authenticate-resolve_session s username password client prior attempted_at created_at later c
          e =
        let (on, made) =
          authenticate-IsOpened s username password client prior attempted_at created_at c e in
        let s' = (login s username password client prior attempted_at created_at).0 in
        let ttl = invalidate_prior_ttl s.sessions prior in
        let r = create-resolve digest token_factory _ _ created_at later s'.sessions c made in
        resolve_session-admitted s' c.token later on
        ∙ admitted_by s c created_at later _ (
            subst
              (λ t.
                Resolves t created_at (text_or_empty s.settings.username) c
                  (resolve digest token_factory s'.sessions c.token later).1 later)
              ttl r)

    -- After a login that created a session, the token that the client had before resolves to no
    -- session at any time, unless the new token has the same digest.
    pub authenticate-ends_prior :
        (s : ControlPlaneService) (username password client : String) (token : Token)
        (attempted_at created_at later : ℕ) (c : CreatedSession)
        → created_in (login s username password client (some token) attempted_at created_at).1
          ≡ some c
        → digest c.token ≢ digest token
        → (resolve_session digest token_factory
            (login s username password client (some token) attempted_at created_at).0
            (some token)
            later).1
          ≡ none
    unfolding run step invalidate_prior
    authenticate-ends_prior s username password client token attempted_at created_at later c e
          other =
        let (on, made) =
          authenticate-IsOpened s username password client (some token) attempted_at created_at c
            e in
        let s' = (login s username password client (some token) attempted_at created_at).0 in
        let ended = (invalidate digest token_factory s.sessions token).0 in
        let user = text_or_empty s.settings.username in
        let avoided : Avoids digest token_factory (digest token) ended
            (creates user created_at ∷ []) =
          (subst (λ p. IsOther digest token_factory (digest token) p.1) (sym made) other, tt) in
        let gone =
          resolve-invalidate digest token_factory s.sessions token (creates user created_at ∷ [])
            later avoided in
        resolve_session-admitted s' token later on
        ∙ ap (λ l. admitted l.status l.session)
            (subst (λ p. (resolve digest token_factory p.0 token later).1 ≡ no_session) made gone)

  resolve_session_off :
      (s : ControlPlaneService) (token : Token) (now : ℕ)
      → s.settings.enabled ≡ false
      → (resolve_session digest token_factory s (some token) now).1 ≡ none
  unfolding resolve_session
  resolve_session_off s token now off = simp off refl

  resolve_session_gone :
      (s : ControlPlaneService) (token : Token) (now : ℕ)
      → (resolve digest token_factory s.sessions token now).1 ≡ no_session
      → (resolve_session digest token_factory s (some token) now).1 ≡ none
  resolve_session_gone s token now gone = elim (Bool-cases s.settings.enabled) [
    | inr off ↦ resolve_session_off s token now off
    | inl on ↦ resolve_session-admitted s token now on ∙ ap (λ l. admitted l.status l.session) gone
  ]

  -- The state and the answer of a logout.
  abbrev pub EndsSession : Token → ℕ → ControlPlaneService × Bool → Type 0
  EndsSession token later (s', done) =
      (done ≡ true) × ((resolve_session digest token_factory s' (some token) later).1 ≡ none)

  abbrev pub KeepsSessions : ControlPlaneService → ControlPlaneService × Bool → Type 0
  KeepsSessions s (s', done) = (done ≡ false) × (s'.sessions ≡ s.sessions)

  -- The CSRF token that was sent is that of the session, or is missing or another.
  abbrev pub IsCsrf : SessionContext → Option Token → Type 0
  IsCsrf session csrf = (t : Token) × (csrf ≡ some t) × (csrf_is_valid session t ≡ true)

  abbrev pub IsNoCsrf : SessionContext → Option Token → Type 0
  IsNoCsrf session csrf =
      (csrf ≡ none) ⊎ ((t : Token) × (csrf ≡ some t) × (csrf_is_valid session t ≡ false))

  -- A logout with the CSRF token of the session answers true and ends the session: its token
  -- resolves to no session at any time. One without a CSRF token, or with one that is not that of
  -- the session, answers false and keeps every session.
  pub logout-EndsSession :
      (s : ControlPlaneService) (token : Token) (session : SessionContext) (csrf : Option Token)
      (later : ℕ)
      → (IsCsrf session csrf
          × EndsSession token later (logout digest token_factory s token session csrf))
        ⊎ (IsNoCsrf session csrf
            × KeepsSessions s (logout digest token_factory s token session csrf))
  unfolding logout run
  logout-EndsSession s token session none later = inr (inl refl, (refl, refl))
  logout-EndsSession s token session (some csrf) later =
      let gone = resolve-invalidate digest token_factory s.sessions token [] later tt in
      elim (Bool-cases (csrf_is_valid session csrf)) [
        | inr wrong ↦ inr (inr (csrf, refl, wrong), simp wrong (refl, refl))
        | inl right ↦
            inl ((csrf, refl, right), simp right (refl, resolve_session_gone _ token later gone))
      ]
