-- ===== src/Tests/ControlPlane/Sessions.antt =====
-- Runs of aurora_core/control_plane/sessions.py.
use project_aurora.Base.{ℕ, ◌+◌, ◌≡◌, refl, zero, suc, inl, List, [], ◌∷◌, arith}
use project_aurora.Base.Checked.{ok}
use project_aurora.Base.Dict.{get, put, remove, retain}
use project_aurora.ControlPlane.Sessions.{
  Token, SessionStore, CreatedSession, all_token_chars, opaque_token_is_valid, create_store, evict,
  make_room, new_token, unique_token, create, resolve, invalidate,
}
use project_aurora.ControlPlane.Sessions.Bounds.{
  Operation, creates, resolves, counts, run, IsBounded, run-create_store-IsBounded,
}
use project_aurora.ControlPlane.Sessions.Creation.{IsEvicted, evict-IsEvicted}
use project_aurora.ControlPlane.Sessions.Lookup.{
  Resolves, create-resolve, Avoids, no_session, resolve-invalidate,
}

-- Stands for the hash: the last code point of the token.
abbrev digest : Token → ℕ
digest [] = 0
digest (c ∷ []) = c
digest (c ∷ d ∷ cs) = digest (d ∷ cs)

abbrev repeat : ℕ → ℕ → Token → Token
repeat zero c end = end
repeat (suc n) c end = c ∷ repeat n c end

-- Stands for the source of tokens: each ends in another character.
abbrev token_factory : ℕ → ℕ → Token
token_factory n byte_count = repeat 41 65 ((97 + n) ∷ [])

abbrev store : SessionStore
store = record { ttl_seconds = 10; maximum_sessions = 1; sessions = []; sequence = 0; draws = 0 }

store-created : create_store 10 1 ≡ ok store
unfolding create_store
store-created = refl

abbrev admin : CreatedSession
admin = record {
  token = token_factory 0 32;
  session = record { username = "admin"; csrf_token = token_factory 1 32; expires_in_seconds = 10 };
}

abbrev one_session : SessionStore
one_session = record store {
  sequence = 1;
  draws = 2;
  sessions =
      (
        97,
        record {
          username = "admin";
          csrf_token = token_factory 1 32;
          created_at = 3;
          expires_at = 13;
          sequence = 1;
        },
      )
      ∷ [];
}

create-store : create digest token_factory store "admin" 3 ≡ (one_session, inl admin)
unfolding create unique_token new_token make_room evict retain put get opaque_token_is_valid
    all_token_chars
create-store = refl

abbrev history : List Operation
history = creates "operator" 5 ∷ resolves (token_factory 2 32) 6 ∷ counts 7 ∷ []

run-create_store-IsBounded_example :
    IsBounded (run digest token_factory (creates "admin" 3 ∷ history) store)
run-create_store-IsBounded_example =
    run-create_store-IsBounded digest token_factory 10 1 store (creates "admin" 3 ∷ history)
      store-created

create-resolve_example :
    Resolves 10 3 "admin" admin (resolve digest token_factory one_session admin.token 12).1 12
create-resolve_example =
    create-resolve digest token_factory store "admin" 3 12 one_session admin create-store

-- The operator's token has another digest.
history-Avoids :
    Avoids digest token_factory 97
      (invalidate digest token_factory one_session admin.token).0
      history
unfolding invalidate create unique_token new_token make_room evict retain remove put get
    opaque_token_is_valid all_token_chars
history-Avoids = (ground arith, (tt, (tt, tt)))

resolve-invalidate_example :
    (resolve digest token_factory
      (run digest token_factory history (invalidate digest token_factory one_session admin.token).0)
      admin.token
      8).1
    ≡ no_session
resolve-invalidate_example =
    resolve-invalidate digest token_factory one_session admin.token history 8 history-Avoids

evict-IsEvicted_example : IsEvicted 3 1 one_session.sessions
evict-IsEvicted_example = evict-IsEvicted 3 1 one_session.sessions (omega arith) (omega arith)
