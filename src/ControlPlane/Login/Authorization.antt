-- ===== src/ControlPlane/Login/Authorization.antt =====
-- aurora_core/control_plane/service.py: what a login needs, and what a refused one leaves.
use project_aurora.Base.{ℕ, ◌⊎◌, ◌≡◌, refl, inl, inr, Bool, true, false, Option, String, Bool-cases}
use project_aurora.ControlPlane.Limiter.{begin_attempt}
use project_aurora.ControlPlane.Sessions.{Token}
use project_aurora.ControlPlane.Sessions.Bounds.{run}
use project_aurora.ControlPlane.Login.{
  ControlPlaneService, LoginStatus, LoginResult, success, failure, rate_limited, unavailable,
  without_session, credentials_match, sign_in, authenticate,
}

module _ (digest : Token → ℕ) (token_factory : ℕ → ℕ → Token) (client_digest : String → ℕ)
    (verify_password : String → String → Bool) where
  -- What a login needs.
  abbrev pub IsAuthorized : ControlPlaneService → String → String → String → ℕ → Type 0
  IsAuthorized s username password client attempted_at =
      (s.settings.enabled ≡ true)
      × ((begin_attempt client_digest s.limiter client attempted_at).1 ≡ true)
      × (credentials_match digest token_factory client_digest verify_password s username password
          ≡ true)

  abbrev pub is_success : LoginStatus → Bool
  is_success success = true
  is_success _ = false

  -- A login that opened no session and ended none.
  abbrev pub IsRefused : ControlPlaneService → ControlPlaneService × (LoginResult ⊎ String) → Type 0
  IsRefused s (s', r) =
      (s'.sessions ≡ s.sessions)
      × ((status : LoginStatus) × (r ≡ without_session status) × (is_success status ≡ false))

  -- A login that goes on to open a session, from the limiter that has counted the attempt.
  abbrev pub SignsIn :
      ControlPlaneService
      → String
      → Option Token
      → ℕ
      → ℕ
      → ControlPlaneService × (LoginResult ⊎ String)
      → Type 0
  SignsIn s client prior attempted_at created_at run =
      let limiter = (begin_attempt client_digest s.limiter client attempted_at).0 in
      run
      ≡ sign_in digest token_factory client_digest verify_password (record s { limiter = limiter })
          client prior created_at

  -- A login either is enabled, within the limits of attempts and with the configured user name
  -- and password, and then signs in; or it is refused: no session begins or ends, and the status
  -- is not SUCCESS.
  pub authenticate-IsAuthorized :
      (s : ControlPlaneService) (username password client : String) (prior : Option Token)
      (attempted_at created_at : ℕ)
      → (IsAuthorized s username password client attempted_at
          × SignsIn s client prior attempted_at created_at (
              authenticate digest token_factory client_digest verify_password s username password
                client prior attempted_at created_at))
        ⊎ IsRefused s (
            authenticate digest token_factory client_digest verify_password s username password
              client prior attempted_at created_at)
  unfolding authenticate
  authenticate-IsAuthorized s username password client prior attempted_at created_at =
      elim (Bool-cases s.settings.enabled) [
        | inr off ↦ inr (simp off (refl, (unavailable, refl, refl)))
        | inl on ↦ elim (Bool-cases (begin_attempt client_digest s.limiter client attempted_at).1) [
          | inr full ↦ inr (simp (on, full) (refl, (rate_limited, refl, refl)))
          | inl free ↦
              elim (Bool-cases (
                credentials_match digest token_factory client_digest verify_password s username
                  password)) [
                    | inr wrong ↦ inr (simp (on, free, wrong) (refl, (failure, refl, refl)))
                    | inl right ↦ inl ((on, free, right), simp (on, free, right) refl)
                  ]
        ]
      ]
