-- ===== src/Tests/ControlPlane/Login.antt =====
-- Runs of aurora_core/control_plane/service.py.
use project_aurora.Base.{
  ℕ, zero, suc, ◌+◌, ◌≡◌, refl, Bool, true, some, none, String, [], ◌∷◌, arith, ◌⊎◌,
}
use project_aurora.Base.Checked.{ok}
use project_aurora.Base.Dict.{get, put, remove, retain}
use text.Mathlib.Text.{◌==◌ as str_eq}
use project_aurora.ControlPlane.Limiter.{
  create_limiter, begin_attempt, cleanup, trim_records, admit, reserve, clear,
}
use project_aurora.ControlPlane.Sessions.{
  Token, CreatedSession, all_token_chars, opaque_token_is_valid, create_store, evict, make_room,
  new_token, unique_token, create, invalidate,
}
use project_aurora.ControlPlane.Login.{
  AuthenticationSettings, ControlPlaneService, create_service, signed_in, invalidate_prior, sign_in,
  authenticate, resolve_session, logout,
}
use project_aurora.ControlPlane.Login.Authorization.{
  IsAuthorized, IsRefused, SignsIn, authenticate-IsAuthorized,
}
use project_aurora.ControlPlane.Login.Rotation.{
  created_in, until_expiry, authenticate-resolve_session, authenticate-ends_prior, IsCsrf, IsNoCsrf,
  EndsSession, KeepsSessions, logout-EndsSession,
}

-- Stands for the hash: the last code point of the token.
abbrev digest : Token → ℕ
digest [] = 0
digest (c ∷ []) = c
digest (c ∷ d ∷ cs) = digest (d ∷ cs)

abbrev repeat : ℕ → ℕ → Token → Token
repeat zero c end = end
repeat (suc n) c end = c ∷ repeat n c end

-- Stands for the source of tokens: each ends in another character.
abbrev token_factory : ℕ → ℕ → Token
token_factory n byte_count = repeat 41 65 ((97 + n) ∷ [])

abbrev client_digest : String → ℕ
client_digest client = 1

-- Stands for the check of a password against its hash.
abbrev verify_password : String → String → Bool
verify_password password hash = str_eq password hash

abbrev settings : AuthenticationSettings
settings = record {
  enabled = true;
  username = some "admin";
  password_hash = some "secret";
  session_ttl_minutes = 1;
  maximum_sessions = 2;
  login_attempt_limit = 2;
  login_attempt_window_seconds = 10;
}

abbrev service : ControlPlaneService
service = record {
  settings = settings;
  sessions = record {
    ttl_seconds = 60;
    maximum_sessions = 2;
    sessions = [];
    sequence = 0;
    draws = 0;
  };
  limiter = record {
    attempt_limit = 2;
    window_seconds = 10;
    maximum_clients = 256;
    records = [];
    global_attempts = [];
    global_attempt_limit = 32;
  };
  audit = [];
}

service-created : create_service settings ≡ ok service
unfolding create_service create_store create_limiter
service-created = refl

abbrev prior_token : Token
prior_token = token_factory 20 32

abbrev admin : CreatedSession
admin = record {
  token = token_factory 0 32;
  session = record { username = "admin"; csrf_token = token_factory 1 32; expires_in_seconds = 60 };
}

admin-created :
    created_in
      (authenticate digest token_factory client_digest verify_password service "admin" "secret"
        "client"
        (some prior_token)
        3
        4).1
    ≡ some admin
unfolding authenticate sign_in signed_in invalidate_prior invalidate create unique_token new_token
    make_room evict retain put get remove opaque_token_is_valid all_token_chars begin_attempt
    cleanup trim_records admit reserve clear
admin-created = refl

authenticate-resolve_session_example :
    (resolve_session digest token_factory
      (authenticate digest token_factory client_digest verify_password service "admin" "secret"
        "client"
        (some prior_token)
        3
        4).0
      (some admin.token)
      20).1
    ≡ until_expiry digest token_factory service admin 4 20
authenticate-resolve_session_example =
    authenticate-resolve_session digest token_factory client_digest verify_password service "admin"
      "secret" "client" (some prior_token) 3 4 20 admin admin-created

authenticate-ends_prior_example :
    (resolve_session digest token_factory
      (authenticate digest token_factory client_digest verify_password service "admin" "secret"
        "client"
        (some prior_token)
        3
        4).0
      (some prior_token)
      20).1
    ≡ none
authenticate-ends_prior_example =
    authenticate-ends_prior digest token_factory client_digest verify_password service "admin"
      "secret" "client" prior_token 3 4 20 admin admin-created (ground arith)

authenticate-IsAuthorized_example :
    (IsAuthorized digest token_factory client_digest verify_password service "admin" "guess"
        "client" 3
      × SignsIn digest token_factory client_digest verify_password service "client" none 3 4 (
          authenticate digest token_factory client_digest verify_password service "admin" "guess"
            "client" none 3 4))
    ⊎ IsRefused digest token_factory client_digest verify_password service (
        authenticate digest token_factory client_digest verify_password service "admin" "guess"
          "client" none 3 4)
authenticate-IsAuthorized_example =
    authenticate-IsAuthorized digest token_factory client_digest verify_password service "admin"
      "guess" "client" none 3 4

logout-EndsSession_example :
    (IsCsrf digest token_factory admin.session (some (token_factory 1 32))
      × EndsSession digest token_factory prior_token 9 (
          logout digest token_factory service prior_token admin.session
            (some (token_factory 1 32))))
    ⊎ (IsNoCsrf digest token_factory admin.session (some (token_factory 1 32))
        × KeepsSessions digest token_factory service (
            logout digest token_factory service prior_token admin.session
              (some (token_factory 1 32))))
logout-EndsSession_example =
    logout-EndsSession digest token_factory service prior_token admin.session
      (some (token_factory 1 32)) 9
