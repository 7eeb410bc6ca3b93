-- ===== src/Transport/Auth.antt =====
-- conduit/transport/auth.py: `AuthHandler`, its challenges and its sessions. SHA-256, PBKDF2, UTF-8
-- and `secrets.compare_digest` (which raises TypeError on a text outside ASCII: none) are
-- parameters; random tokens, salts and challenges and the clock's readings are arguments.
pub mod Cleanup
pub mod Login
pub mod Lifetime
pub mod Examples
use net_conduit.Base.{
  ℕ, ◌+◌, ◌-◌, ◌≡◌, Bool, true, false, not, Option, none, some, List, [], ◌∷◌, ◌++◌, String, ltb,
  if◌then◌else◌, length,
}
use net_conduit.Base.Dict.{Dict, lookup, contains, insert, erase}

pub record Session {ℓ} (Info : Type ℓ) : Type ℓ where
  pub token : String
  pub client_id : String
  pub created_at : ℕ
  pub last_activity : ℕ
  pub client_info : Info

pub record AuthHandler {ℓ} (Info : Type ℓ) : Type ℓ where
  pub password : String
  pub password_hash : String
  pub password_salt : List ℕ
  pub session_timeout : ℕ
  pub sessions : Dict (Session Info)
  pub pending_challenges : Dict (List ℕ)

-- The code that authentication calls.
pub record Crypto : Type 0 where
  pub encode : String → List ℕ
  pub sha256_hex : List ℕ → String
  pub pbkdf2_hex : List ℕ → List ℕ → ℕ → String
  pub compare_digest : String → String → Option Bool

-- What the library documents of `compare_digest`: True is for equal texts only, and a hex digest is
-- ASCII, so that it equals itself.
pub record IsDigestComparison (k : Crypto) : Type 0 where
  pub sound : (a b : String) → k.compare_digest a b ≡ some true → a ≡ b
  pub hex :
      (bytes : List ℕ) → k.compare_digest (k.sha256_hex bytes) (k.sha256_hex bytes) ≡ some true

abbrev pub hash_iterations : ℕ
hash_iterations = 100000

module _ {ℓ} {Info : Type ℓ} (no_info : Info) (k : Crypto) where
  -- `salt` is the one given, or the random bytes
  unfoldable pub hash_password : String → List ℕ → String × List ℕ
  hash_password password salt = (k.pbkdf2_hex (k.encode password) salt hash_iterations, salt)

  unfoldable pub verify_password : String → String → List ℕ → Option Bool
  unfolding hash_password
  verify_password password expected_hash salt =
      k.compare_digest (hash_password password salt).0 expected_hash

  -- the hash is of the password's bytes and then the challenge
  abbrev pub compute_auth_response : String → List ℕ → String
  compute_auth_response password challenge = k.sha256_hex (k.encode password ++ challenge)

  abbrev pub verify_auth_response : String → List ℕ → String → Option Bool
  verify_auth_response password challenge response =
      k.compare_digest (compute_auth_response password challenge) response

  abbrev pub update_activity : ℕ → Session Info → Session Info
  update_activity now s = record s { last_activity = now }

  abbrev pub is_expired : ℕ → ℕ → Session Info → Bool
  is_expired now timeout_seconds s = ltb timeout_seconds (now - s.last_activity)

  abbrev pub age_seconds : ℕ → Session Info → ℕ
  age_seconds now s = now - s.created_at

  unfoldable pub new_handler : String → ℕ → List ℕ → AuthHandler Info
  unfolding hash_password
  new_handler password session_timeout salt = record {
    password = password;
    password_hash = (hash_password password salt).0;
    password_salt = (hash_password password salt).1;
    session_timeout = session_timeout;
    sessions = [];
    pending_challenges = [];
  }

  -- `create_challenge`: `challenge` is the random one, and what the call returns
  unfoldable pub create_challenge : String → List ℕ → AuthHandler Info → AuthHandler Info
  create_challenge client_id challenge h = record h {
    pending_challenges = insert client_id challenge h.pending_challenges;
  }

  -- client_info or {}
  abbrev pub info_or_empty : Option Info → Info
  info_or_empty none = no_info
  info_or_empty (some info) = info

  unfoldable pub create_session :
      String → Option Info → String → ℕ → AuthHandler Info → AuthHandler Info × Session Info
  create_session client_id client_info token now h =
      let session : Session Info = record {
        token = token;
        client_id = client_id;
        created_at = now;
        last_activity = now;
        client_info = info_or_empty client_info;
      } in
      (record h { sessions = insert token session h.sessions }, session)

  -- What `verify_response` gives: a session, None, or the TypeError of the comparison.
  pub data Verified : Type ℓ where
    accepted : Session Info → Verified
    rejected failed : Verified

  -- self._pending_challenges.pop(client_id, None)
  abbrev pub without_challenge : String → AuthHandler Info → AuthHandler Info
  without_challenge client_id h = record h {
    pending_challenges = erase client_id h.pending_challenges;
  }

  abbrev pub accept : AuthHandler Info × Session Info → AuthHandler Info × Verified
  accept (h, s) = (h, accepted s)

  unfoldable pub verify_response :
      String → String → Option Info → String → ℕ → AuthHandler Info → AuthHandler Info × Verified
  unfolding create_session
  verify_response client_id response client_info token now h =
      let h' = without_challenge client_id h in
      elim (lookup client_id h.pending_challenges) [
        | none ↦ (h', rejected)
        | some challenge ↦ elim (verify_auth_response h.password challenge response) [
          | none ↦ (h', failed)
          | some false ↦ (h', rejected)
          | some true ↦ accept (create_session client_id client_info token now h')
        ]
      ]

  unfoldable pub verify_simple : String → AuthHandler Info → Option Bool
  verify_simple password_hash h =
      k.compare_digest password_hash (k.sha256_hex (k.encode h.password))

  -- the refreshed session is the object of the dict
  unfoldable pub get_session :
      String → ℕ → AuthHandler Info → AuthHandler Info × Option (Session Info)
  get_session token now h = elim (lookup token h.sessions) [
    | none ↦ (h, none)
    | some s ↦
        if is_expired now h.session_timeout s
        then (record h { sessions = erase token h.sessions }, none)
        else (
          record h { sessions = insert token (update_activity now s) h.sessions },
          some (update_activity now s),
        )
  ]

  unfoldable pub invalidate_session : String → AuthHandler Info → AuthHandler Info × Bool
  invalidate_session token h =
      if contains token h.sessions
      then (record h { sessions = erase token h.sessions }, true)
      else (h, false)

  -- the comprehension over the items, and the loop that deletes
  unfoldable pub expired_tokens : ℕ → ℕ → Dict (Session Info) → List String
  expired_tokens now timeout [] = []
  expired_tokens now timeout ((token, s) ∷ rest) =
      if is_expired now timeout s
      then token ∷ expired_tokens now timeout rest
      else expired_tokens now timeout rest

  unfoldable pub delete_all : List String → Dict (Session Info) → Dict (Session Info)
  delete_all [] d = d
  delete_all (token ∷ rest) d = delete_all rest (erase token d)

  unfoldable pub cleanup_expired_sessions : ℕ → AuthHandler Info → AuthHandler Info × ℕ
  cleanup_expired_sessions now h =
      let expired = expired_tokens now h.session_timeout h.sessions in
      (record h { sessions = delete_all expired h.sessions }, length expired)

  abbrev pub active_session_count : AuthHandler Info → ℕ
  active_session_count h = length h.sessions
