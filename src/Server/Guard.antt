-- ===== src/Server/Guard.antt =====
-- The log of a server: what is done for a client comes after a login of the client.
pub mod Login
pub mod Mesh
pub mod Steps
pub mod Run
use net_conduit.Base.{
  ℕ, ◌≡◌, refl, Bool, true, false, not, ◌&&◌, ◌||◌, Option, none, some, List, [], ◌∷◌, String,
  str_eq, arith, if◌then◌else◌, eq_iff, Bool-cases, inl, inr,
}
use net_conduit.Base.Dict.{Dict, lookup, insert, erase}
use net_conduit.Connection.{Connection, is_authenticated}
use net_conduit.Messages.Router.{RegisteredHandler}
use net_conduit.Rpc.Registry.{RpcMethod}
use net_conduit.Server.{
  Server, Session, Effect, auth_failure, auth_success, mesh_handshake, mesh_secure, relayed,
  rpc_error, rpc_reply, message_reply, pong, close, rpc_called, message_called, tunnel_called, emit,
  put,
}
use net_conduit.Server.Dispatch.{with_calls}
use net_conduit.Server.Mesh.{logged}

module _ {J : Type 0} where
  -- The client whose request an effect answers, or for whom it calls a handler: RPCs, messages and
  -- pings outside tunnels.
  abbrev pub served_client : Effect J → Option String
  served_client (rpc_error id text corr code) = some id
  served_client (rpc_reply id corr r) = some id
  served_client (message_reply id type x) = some id
  served_client (pong id) = some id
  served_client (rpc_called id m) = some id
  served_client (message_called id h) = some id
  served_client _ = none

  abbrev pub is_login : String → Effect J → Bool
  is_login id (auth_success j token) = str_eq j id
  is_login id _ = false

  unfoldable pub has_login : String → List (Effect J) → Bool
  has_login id [] = false
  has_login id (e ∷ log) = is_login id e || has_login id log

  abbrev pub is_due : Option String → List (Effect J) → Bool
  is_due none log = true
  is_due (some id) log = has_login id log

  -- Every effect for a client stands after a login of that client.
  unfoldable pub is_guarded : List (Effect J) → Bool
  is_guarded [] = true
  is_guarded (e ∷ log) = is_due (served_client e) log && is_guarded log

  -- The connections that are authenticated have a login.
  unfoldable pub is_accounted : List (Effect J) → Dict (Connection Session J) → Bool
  is_accounted log [] = true
  is_accounted log ((id, c) ∷ d) =
      (not (is_authenticated c) || has_login id log) && is_accounted log d

  -- The client may be served where its connection `c` is authenticated.
  abbrev pub IsDue : String → Connection Session J → List (Effect J) → Type 0
  IsDue id c log = is_authenticated c ≡ true → has_login id log ≡ true

  pub is_accounted-lookup :
      (id : String) (c : Connection Session J) (log : List (Effect J))
      (d : Dict (Connection Session J))
      → is_accounted log d ≡ true
      → lookup id d ≡ some c
      → IsDue id c log
  unfolding is_accounted lookup
  is_accounted-lookup id c log [] h e a = ground (arith, e)
  is_accounted-lookup id c log ((j, c') ∷ d) h e a =
      let rest : is_accounted log d ≡ true = ground (arith, h) in
      let ih = λ (e' : lookup id d ≡ some c). is_accounted-lookup id c log d rest e' a in
      elim (Bool-cases (str_eq j id)) [
        | inl same ↦ ground (arith, h, e, a, same, eq_iff j id)
        | inr other ↦ ih (ground (arith, e, other))
      ]

  pub is_accounted-insert :
      (id : String) (c : Connection Session J) (log : List (Effect J))
      (d : Dict (Connection Session J))
      → is_accounted log d ≡ true
      → IsDue id c log
      → is_accounted log (insert id c d) ≡ true
  unfolding is_accounted insert
  is_accounted-insert id c log [] h due = ground (arith, due)
  is_accounted-insert id c log ((j, c') ∷ d) h due =
      let rest : is_accounted log d ≡ true = ground (arith, h) in
      let ih = is_accounted-insert id c log d rest due in ground (arith, h, due, ih, eq_iff j id)

  pub is_accounted-erase :
      (id : String) (log : List (Effect J)) (d : Dict (Connection Session J))
      → is_accounted log d ≡ true
      → is_accounted log (erase id d) ≡ true
  unfolding is_accounted erase
  is_accounted-erase id log [] h = refl
  is_accounted-erase id log ((j, c') ∷ d) h =
      let rest : is_accounted log d ≡ true = ground (arith, h) in
      let ih = is_accounted-erase id log d rest in ground (arith, h, ih)

  pub is_accounted-cons :
      (e : Effect J) (log : List (Effect J)) (d : Dict (Connection Session J))
      → is_accounted log d ≡ true
      → is_accounted (e ∷ log) d ≡ true
  unfolding is_accounted has_login
  is_accounted-cons e log [] h = refl
  is_accounted-cons e log ((j, c') ∷ d) h =
      let rest : is_accounted log d ≡ true = ground (arith, h) in
      let ih = is_accounted-cons e log d rest in ground (arith, h, ih)

  -- A log and connections of a server.
  abbrev pub AreSafe : List (Effect J) → Dict (Connection Session J) → Type 0
  AreSafe log d = (is_guarded log ≡ true) × (is_accounted log d ≡ true)

  pub cons-AreSafe :
      (e : Effect J) (log : List (Effect J)) (d : Dict (Connection Session J))
      → AreSafe log d
      → is_due (served_client e) log ≡ true
      → AreSafe (e ∷ log) d
  unfolding is_guarded
  cons-AreSafe e log d h due = (ground (arith, h.0, due), is_accounted-cons e log d h.1)

  pub logged-AreSafe :
      (entry : RegisteredHandler → Effect J) (hs : List RegisteredHandler) (id : Option String)
      (log : List (Effect J)) (d : Dict (Connection Session J))
      → ((h : RegisteredHandler) → served_client (entry h) ≡ id)
      → ((h : RegisteredHandler) (log' : List (Effect J))
          → is_due id log' ≡ true
          → is_due id (entry h ∷ log') ≡ true)
      → AreSafe log d
      → is_due id log ≡ true
      → AreSafe (logged entry hs log) d × (is_due id (logged entry hs log) ≡ true)
  logged-AreSafe entry [] id log d same more safe due = (safe, due)
  logged-AreSafe entry (h ∷ hs) id log d same more safe due =
      logged-AreSafe entry hs id (entry h ∷ log) d same more
        (cons-AreSafe (entry h) log d safe (rw (same h) due)) (more h log due)

  pub with_calls-AreSafe :
      (id : String) (calls : List (RpcMethod × Dict J)) (log : List (Effect J))
      (d : Dict (Connection Session J))
      → AreSafe log d
      → has_login id log ≡ true
      → AreSafe (with_calls id calls log) d × (has_login id (with_calls id calls log) ≡ true)
  unfolding has_login
  with_calls-AreSafe id [] log d safe due = (safe, due)
  with_calls-AreSafe id ((m, params) ∷ rest) log d safe due =
      with_calls-AreSafe id rest (rpc_called id m ∷ log) d
        (cons-AreSafe (rpc_called id m) log d safe due) due
