-- ===== src/Transport/Auth/Examples.antt =====
-- The theorems on authentication at concrete inputs, with a digest that is the same text for all.
use net_conduit.Base.{
  ℕ, ◌+◌, ◌≡◌, ◌↔◌, refl, Bool, true, none, some, List, [], ◌∷◌, arith, sum, str_eq, eq_of_str_eq,
}
use net_conduit.Base.Dict.{insert, contains}
use net_conduit.Transport.Auth.{
  AuthHandler, Crypto, IsDigestComparison, rejected, compute_auth_response, create_challenge,
  create_session, verify_response, get_session, new_handler,
}
use net_conduit.Transport.Auth.Lifetime.{after_visits, session_expires}
use net_conduit.Transport.Auth.Login.{is_accepted, verify_response-once, login-accepted}

abbrev one_digest : Crypto
one_digest = record {
  encode = λ s. 1 ∷ [];
  sha256_hex = λ bytes. "00ff";
  pbkdf2_hex = λ password salt n. "00ff";
  compare_digest = λ a b. some (str_eq a b);
}

some-Injective : {a b : Bool} → some a ≡ some b → a ≡ b
some-Injective h = ground arith

one_digest-IsDigestComparison : IsDigestComparison one_digest
one_digest-IsDigestComparison = record {
  sound = λ a b h. eq_of_str_eq a b (some-Injective h);
  hex = λ bytes. refl;
}

-- A handler with a timeout of 60, a challenge for "ann", and a session of "bob".
abbrev start : AuthHandler ℕ
start = new_handler 0 one_digest "secret" 60 (7 ∷ 8 ∷ [])

abbrev challenged : AuthHandler ℕ
challenged = create_challenge 0 one_digest "ann" (9 ∷ []) start

abbrev with_bob : AuthHandler ℕ
with_bob = (create_session 0 one_digest "bob" none "token-b" 100 start).0

verify_response-once_example :
    ((verify_response 0 one_digest "ann" "00ff" none "token-2" 12
        (verify_response 0 one_digest "ann" "wrong" none "token-1" 11 challenged).0).1
      ≡ rejected)
    × ((verify_response 0 one_digest "ann" "00ff" none "token-2" 12
          (verify_response 0 one_digest "ann" "wrong" none "token-1" 11 challenged).0).0.sessions
        ≡ (verify_response 0 one_digest "ann" "wrong" none "token-1" 11 challenged).0.sessions)
unfolding new_handler create_challenge insert contains
verify_response-once_example =
    verify_response-once 0 one_digest "ann" "wrong" "00ff" none none "token-1" "token-2" 11 12
      challenged (refl, tt)

login-accepted_example :
    (is_accepted 0 one_digest
        (verify_response 0 one_digest "ann" "00ff" none "token-1" 11
          (create_challenge 0 one_digest "ann" (9 ∷ []) start)).1
      ≡ true)
    ↔ (compute_auth_response {Info = ℕ} 0 one_digest start.password (9 ∷ []) ≡ "00ff")
login-accepted_example =
    login-accepted 0 one_digest "ann" "00ff" (9 ∷ []) none "token-1" 11 start
      one_digest-IsDigestComparison

abbrev two_gaps : List ℕ
two_gaps = 50 ∷ 60 ∷ []

session_expires_example :
    ((get_session 0 one_digest "token-c"
        (200 + sum two_gaps + 61)
        (after_visits 0 one_digest "cid" "token-c" two_gaps 200 with_bob)).1
      ≡ none)
    × ((get_session 0 one_digest "token-c" 999
          (get_session 0 one_digest "token-c"
            (200 + sum two_gaps + 61)
            (after_visits 0 one_digest "cid" "token-c" two_gaps 200 with_bob)).0).1
        ≡ none)
unfolding new_handler create_session insert contains
session_expires_example =
    session_expires 0 one_digest "cid" "token-c" two_gaps 200 61 999 with_bob (refl, tt) refl
      (omega arith)
