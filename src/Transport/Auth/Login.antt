-- ===== src/Transport/Auth/Login.antt =====
-- Challenges and logins in an `AuthHandler`.
use net_conduit.Base.{ℕ, ◌≡◌, ◌↔◌, Bool, true, false, Option, none, some, List, String, arith, ◌++◌}
use net_conduit.Base.Dict.{
  lookup, erase, HasKeys, lookup-insert_self, lookup_of_contains, contains-erase_self,
}
use net_conduit.Transport.Auth.{
  AuthHandler, Crypto, IsDigestComparison, Verified, accepted, rejected, failed,
  verify_auth_response, create_challenge, create_session, verify_response,
}

module _ {ℓ} {Info : Type ℓ} (no_info : Info) (k : Crypto) where
  abbrev pub is_accepted : Verified no_info k → Bool
  is_accepted (accepted s) = true
  is_accepted rejected = false
  is_accepted failed = false

  pending_after :
      (c r : String) (info : Option Info) (t : String) (now : ℕ) (h : AuthHandler Info)
      → (verify_response no_info k c r info t now h).0.pending_challenges
        ≡ erase c h.pending_challenges
  unfolding verify_response create_session
  pending_after c r info t now h = ground arith

  verify_response-none :
      (c r : String) (info : Option Info) (t : String) (now : ℕ) (h : AuthHandler Info)
      → lookup c h.pending_challenges ≡ none
      → ((verify_response no_info k c r info t now h).1 ≡ rejected)
        × ((verify_response no_info k c r info t now h).0.sessions ≡ h.sessions)
  unfolding verify_response create_session
  verify_response-none c r info t now h e = ground (arith, e)

  -- A challenge is used up by the first answer, right or wrong or failing: where no client has two
  -- pending challenges, the second `verify_response` for a client without a new challenge is
  -- rejected, whatever the answers are, and makes no session.
  pub verify_response-once :
      (c r r' : String) (info info' : Option Info) (t t' : String) (now now' : ℕ)
      (h : AuthHandler Info)
      → HasKeys h.pending_challenges
      → ((verify_response no_info k c r' info' t' now'
            (verify_response no_info k c r info t now h).0).1
          ≡ rejected)
        × ((verify_response no_info k c r' info' t' now'
              (verify_response no_info k c r info t now h).0).0.sessions
            ≡ (verify_response no_info k c r info t now h).0.sessions)
  verify_response-once c r r' info info' t t' now now' h keys =
      verify_response-none c r' info' t' now' (verify_response no_info k c r info t now h).0 (
        rw (pending_after c r info t now h) (
          lookup_of_contains c (erase c h.pending_challenges)
            (contains-erase_self c h.pending_challenges keys)))

  answered :
      (c r : String) (bytes : List ℕ) (info : Option Info) (t : String) (now : ℕ)
      (h : AuthHandler Info)
      → lookup c h.pending_challenges ≡ some bytes
      → is_accepted (verify_response no_info k c r info t now h).1
        ≡ elim (verify_auth_response no_info k h.password bytes r) [ some true ↦ true | _ ↦ false ]
  unfolding verify_response create_session
  answered c r bytes info t now h e = ground (arith, e)

  -- Where `compare_digest` does what its documentation says: after a challenge for a client, an
  -- answer is accepted exactly when it is the hex digest of the handler's password followed by that
  -- challenge.
  pub login-accepted :
      (c r : String) (bytes : List ℕ) (info : Option Info) (t : String) (now : ℕ)
      (h : AuthHandler Info)
      → IsDigestComparison k
      → (is_accepted
            (verify_response no_info k c r info t now (create_challenge no_info k c bytes h)).1
          ≡ true)
        ↔ (r ≡ k.sha256_hex (k.encode h.password ++ bytes))
  unfolding create_challenge
  login-accepted c r bytes info t now h digest =
      let e =
        answered c r bytes info t now (create_challenge no_info k c bytes h)
          (lookup-insert_self c bytes h.pending_challenges) in
      let sound = digest.sound (k.sha256_hex (k.encode h.password ++ bytes)) r in
      let hex = digest.hex (k.encode h.password ++ bytes) in
      (λ a. ground (arith, e, a, sound), λ same. ground (arith, e, same, hex))
