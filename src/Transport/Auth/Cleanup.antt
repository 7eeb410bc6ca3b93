-- ===== src/Transport/Auth/Cleanup.antt =====
-- `cleanup_expired_sessions` and the session dict of an `AuthHandler`.
use net_conduit.Base.{
  ℕ, ◌+◌, ◌≡◌, refl, Bool, false, not, [], ◌∷◌, String, arith, length, keep_if, eq_iff,
}
use net_conduit.Base.Dict.{Dict, contains, erase, HasKeys}
use net_conduit.Transport.Auth.{
  Session, AuthHandler, Crypto, is_expired, expired_tokens, delete_all, cleanup_expired_sessions,
  active_session_count,
}

module _ {ℓ} {Info : Type ℓ} (no_info : Info) (k : Crypto) where
  abbrev pub is_live : ℕ → ℕ → String × Session Info → Bool
  is_live now timeout (token, s) = not (is_expired no_info k now timeout s)

  -- Deleting tokens that do not include the first key leaves the first entry.
  delete_all-skip :
      (now timeout : ℕ) (t : String) (s : Session Info) (d e : Dict (Session Info))
      → contains t d ≡ false
      → delete_all no_info k (expired_tokens no_info k now timeout d) ((t, s) ∷ e)
        ≡ (t, s) ∷ delete_all no_info k (expired_tokens no_info k now timeout d) e
  unfolding expired_tokens delete_all contains erase
  delete_all-skip now timeout t s [] e h = refl
  delete_all-skip now timeout t s ((j, w) ∷ d) e h = ground (
    arith,
    eq_iff j t,
    eq_iff t j,
    delete_all-skip now timeout t s d e,
    delete_all-skip now timeout t s d (erase j e),
  )

  delete_all-keep_if :
      (now timeout : ℕ) (d : Dict (Session Info))
      → HasKeys d
      → delete_all no_info k (expired_tokens no_info k now timeout d) d
        ≡ keep_if (is_live now timeout) d
  unfolding expired_tokens delete_all erase
  delete_all-keep_if now timeout [] h = refl
  delete_all-keep_if now timeout ((t, s) ∷ d) h = ground (
    arith,
    eq_iff t t,
    delete_all-skip now timeout t s d d h.0,
    delete_all-keep_if now timeout d h.1,
  )

  length-expired :
      (now timeout : ℕ) (d : Dict (Session Info))
      → length (keep_if (is_live now timeout) d) + length (expired_tokens no_info k now timeout d)
        ≡ length d
  unfolding expired_tokens
  length-expired now timeout [] = omega arith
  length-expired now timeout ((t, s) ∷ d) = ground (arith, length-expired now timeout d)

  -- Where no token stands twice, `cleanup_expired_sessions` keeps the sessions that have not expired,
  -- in their order, and no other; and the number it returns is by how many the sessions became fewer.
  cleanup_expired_sessions-keep_if :
      (now : ℕ) (h : AuthHandler Info)
      → HasKeys h.sessions
      → ((cleanup_expired_sessions no_info k now h).0.sessions
          ≡ keep_if (is_live now h.session_timeout) h.sessions)
        × (active_session_count no_info k (cleanup_expired_sessions no_info k now h).0
              + (cleanup_expired_sessions no_info k now h).1
            ≡ active_session_count no_info k h)
  unfolding cleanup_expired_sessions
  cleanup_expired_sessions-keep_if now h keys =
      let kept = delete_all-keep_if now h.session_timeout h.sessions keys in
      (kept, rw kept (length-expired now h.session_timeout h.sessions))
