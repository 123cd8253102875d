-- ===== src/ControlPlane/Sessions.antt =====
-- aurora_core/control_plane/sessions.py: SessionStore, which keeps digests of opaque tokens.
-- A token is the list of its code points. A reading of the clock is a number of ticks and an
-- argument of the call that makes it. `digest` stands for the SHA-256 of a token, and
-- `token_factory` for the source of random tokens: it is given the number of tokens drawn before
-- and the number of bytes.
pub mod Creation
pub mod Bounds
pub mod Lookup
use project_aurora.Base.{
  ℕ, zero, suc, ◌+◌, ◌-◌, ◌⊎◌, inl, inr, Bool, true, false, not, ◌&&◌, ◌||◌, Option, none, some,
  String, List, [], ◌∷◌, if◌then◌else◌, ltb, leb, ◌==◌, is_some, length,
}
use project_aurora.Base.Checked.{Checked, ok, ◌>>=◌, ◌>>◌, raise_if}
use project_aurora.Base.Dict.{Dict, get, put, remove, retain, remove_min}

abbrev pub session_token_bytes : ℕ
session_token_bytes = 32

abbrev pub csrf_token_bytes : ℕ
csrf_token_bytes = 32

abbrev pub Token : Type 0
Token = List ℕ

pub data SessionLookupStatus : Type 0 where
  valid invalid expired : SessionLookupStatus

pub record SessionContext : Type 0 where
  pub username : String
  pub csrf_token : Token
  pub expires_in_seconds : ℕ

pub record SessionLookup : Type 0 where
  pub status : SessionLookupStatus
  pub session : Option SessionContext

pub record CreatedSession : Type 0 where
  pub token : Token
  pub session : SessionContext

pub record SessionRecord : Type 0 where
  pub username : String
  pub csrf_token : Token
  pub created_at : ℕ
  pub expires_at : ℕ
  pub sequence : ℕ

-- `draws` counts the tokens that the source has returned.
pub record SessionStore : Type 0 where
  pub ttl_seconds : ℕ
  pub maximum_sessions : ℕ
  pub sessions : Dict SessionRecord
  pub sequence : ℕ
  pub draws : ℕ

-- `[A-Za-z0-9_-]`
abbrev pub is_token_char : ℕ → Bool
is_token_char c =
    (leb 65 c && leb c 90)
    || (leb 97 c && leb c 122)
    || (leb 48 c && leb c 57)
    || c == 95
    || c == 45

unfoldable pub all_token_chars : Token → Bool
all_token_chars [] = true
all_token_chars (c ∷ cs) = is_token_char c && all_token_chars cs

-- `opaque_token_is_valid`, which is the pattern `[A-Za-z0-9_-]{32,256}`.
unfoldable pub opaque_token_is_valid : Token → Bool
opaque_token_is_valid t = all_token_chars t && leb 32 (length t) && leb (length t) 256

unfoldable pub same_token : Token → Token → Bool
same_token [] [] = true
same_token (x ∷ xs) (y ∷ ys) = x == y && same_token xs ys
same_token _ _ = false

-- `csrf_is_valid`
unfoldable pub csrf_is_valid : SessionContext → Token → Bool
csrf_is_valid session submitted =
    if not (opaque_token_is_valid submitted) then false else same_token session.csrf_token submitted

-- `__init__`
unfoldable pub create_store : ℕ → ℕ → Checked SessionStore
create_store ttl_seconds maximum_sessions = do
  raise_if (not (ltb 0 ttl_seconds && ltb 0 maximum_sessions)) "session bounds must be positive"
  ok (record {
    ttl_seconds = ttl_seconds;
    maximum_sessions = maximum_sessions;
    sessions = [];
    sequence = 0;
    draws = 0;
  })

-- `not now >= record.expires_at`
abbrev pub is_live : ℕ → SessionRecord → Bool
is_live now r = ltb now r.expires_at

-- `_purge_expired`
abbrev pub purge_expired : SessionStore → ℕ → SessionStore
purge_expired s now = record s { sessions = retain (is_live now) s.sessions }

-- `_context`; the subtraction stops at 0, which is the `max`.
abbrev pub context : SessionRecord → ℕ → SessionContext
context r now = record {
  username = r.username;
  csrf_token = r.csrf_token;
  expires_in_seconds = r.expires_at - now;
}

-- The `while` loop of `create`, which makes room by dropping the oldest sessions; the first
-- argument is fuel, and each round drops one.
unfoldable pub evict : ℕ → ℕ → Dict SessionRecord → Dict SessionRecord
evict zero maximum d = d
evict (suc fuel) maximum d =
    let rest = evict fuel maximum (remove_min (λ r. r.sequence) d) in
    if leb maximum (length d) then rest else d

-- The store of `create` before a token is drawn.
unfoldable pub make_room : SessionStore → ℕ → SessionStore
make_room s now =
    let live = purge_expired s now in
    record live { sessions = evict (length live.sessions) s.maximum_sessions live.sessions }

-- A method that may raise `RuntimeError` changes the store either way.
abbrev pub Raising {ℓ} : Type ℓ → Type ℓ
Raising A = SessionStore × (A ⊎ String)

abbrev pub continue {ℓ κ} :
    {A : Type ℓ} {B : Type κ} → Raising A → (SessionStore → A → Raising B) → Raising B
continue (s, inl a) k = k s a
continue (s, inr e) k = (s, inr e)

-- The record of a new session.
abbrev pub session_record : SessionStore → String → Token → ℕ → SessionRecord
session_record s username csrf_token now = record {
  username = username;
  csrf_token = csrf_token;
  created_at = now;
  expires_at = now + s.ttl_seconds;
  sequence = s.sequence + 1;
}

-- What `resolve` does with what it found under the digest.
abbrev pub found : SessionStore → ℕ → ℕ → Option SessionRecord → SessionStore × SessionLookup
found s key now none = (purge_expired s now, record { status = invalid; session = none })
found s key now (some r) =
    if is_live now r
    then (purge_expired s now, record { status = valid; session = some (context r now) })
    else (
      purge_expired (record s { sessions = remove key s.sessions }) now,
      record { status = expired; session = none },
    )

module _ (digest : Token → ℕ) (token_factory : ℕ → ℕ → Token) where
  -- `_new_token`
  unfoldable pub new_token : SessionStore → ℕ → Raising Token
  new_token s byte_count =
      let token = token_factory s.draws byte_count in
      (
        record s { draws = s.draws + 1 },
        if opaque_token_is_valid token
            then inl token
            else inr "token source returned an invalid token",
      )

  -- The loop of `_unique_token`, with the number of tries left.
  unfoldable pub unique_token : ℕ → SessionStore → Raising Token
  unique_token zero s = (s, inr "could not allocate a unique session token")
  unique_token (suc tries) s = continue (new_token s session_token_bytes) λ s' token.
      if is_some (get (digest token) s'.sessions) then unique_token tries s' else (s', inl token)

  -- The end of `create`, with both tokens.
  abbrev pub add_session : SessionStore → String → Token → Token → ℕ → Raising CreatedSession
  add_session s username token csrf_token now =
      let r = session_record s username csrf_token now in
      (
        record s { sequence = s.sequence + 1; sessions = put (digest token) r s.sessions },
        inl (record { token = token; session = context r now }),
      )

  -- `create`
  unfoldable pub create : SessionStore → String → ℕ → Raising CreatedSession
  create s username now = continue (unique_token 8 (make_room s now)) λ s1 token.
      continue (new_token s1 csrf_token_bytes)
        λ s2 csrf_token. add_session s2 username token csrf_token now

  -- `resolve`
  unfoldable pub resolve : SessionStore → Token → ℕ → SessionStore × SessionLookup
  resolve s token now =
      if not (opaque_token_is_valid token)
      then (s, record { status = invalid; session = none })
      else found s (digest token) now (get (digest token) s.sessions)

  -- `invalidate`
  unfoldable pub invalidate : SessionStore → Token → SessionStore × Bool
  invalidate s token = if not (opaque_token_is_valid token) then (s, false) else (
    record s { sessions = remove (digest token) s.sessions },
    is_some (get (digest token) s.sessions),
  )

-- `active_count`
unfoldable pub active_count : SessionStore → ℕ → SessionStore × ℕ
active_count s now = let s' = purge_expired s now in (s', length s'.sessions)
