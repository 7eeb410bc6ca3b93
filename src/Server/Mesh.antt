-- ===== src/Server/Mesh.antt =====
-- conduit/server.py: the mesh part of `Server._process_message`.
use net_conduit.Base.{
  Bool, true, false, ◌&&◌, ◌||◌, Option, none, some, List, [], ◌∷◌, String, str_eq, if◌then◌else◌,
}
use net_conduit.Base.Dict.{lookup, insert}
use net_conduit.Connection.{Connection}
use net_conduit.Connection.Pool
use net_conduit.Messages.Router.{RegisteredHandler, Routed, route}
use net_conduit.Protocol.Format
use net_conduit.Server.{
  Server, Session, Incoming, Calls, Moment, Effect, mesh_handshake, mesh_secure, relayed,
  tunnel_called, emit, truthy, is_type,
}

-- The handlers that were called, in the log.
abbrev pub logged :
    {J : Type 0}
    → (RegisteredHandler → Effect J)
    → List RegisteredHandler
    → List (Effect J)
    → List (Effect J)
logged entry [] log = log
logged entry (h ∷ hs) log = logged entry hs (entry h ∷ log)

-- response is not None
-- `is_none` tells Python's None.
abbrev pub answer_of : {J : Type 0} → (J → Bool) → Routed J → Option J
answer_of is_none r =
    if r.is_cancelled
    then none
    else elim r.result [ none ↦ none | some x ↦ if is_none x then none else some x ]

module _ {J T : Type 0} (k : Calls J T) where
  abbrev pub learned : String → Incoming J → Server J T → Server J T
  learned id m s =
      if str_eq m.route_src "" || str_eq m.route_src id
      then s
      else record s { mesh_routing_table = insert m.route_src id s.mesh_routing_table }

  abbrev pub or_id : String → Option String → String
  or_id id none = id
  or_id id (some hop) = hop

  -- target_conn_id
  abbrev pub hop_of : String → String → Server J T → String
  hop_of id src s = or_id id (lookup src s.mesh_routing_table)

  unfoldable pub process_handshake : String → Incoming J → Server J T → Server J T
  process_handshake id m s =
      let (tunnel, response) = k.do_handshake (lookup m.route_src s.mesh_tunnels) m.contents in
      let s' = record s { mesh_tunnels = insert m.route_src tunnel s.mesh_tunnels } in
      elim response as (λ _. Server J T) [
        | none ↦ s'
        | some x ↦ emit (mesh_handshake (hop_of id m.route_src s') m.route_src x) s'
      ]

  abbrev pub secured : String → Incoming J → T → String → Option J → Server J T → Server J T
  secured id m tunnel type none s = s
  secured id m tunnel type (some response) s =
      let (tunnel', x) = k.write_plaintext tunnel type response in
      emit (mesh_secure (hop_of id m.route_src s) m.route_src x)
        (record s { mesh_tunnels = insert m.route_src tunnel' s.mesh_tunnels })

  -- what comes out of a tunnel is routed as authenticated
  abbrev pub tunnelled : String → Incoming J → Moment J → T → String × J → Server J T → Server J T
  tunnelled id m t tunnel (type, contents) s =
      let r = route t.run_handler type true s.router in
      secured id m tunnel type (answer_of k.is_none r)
        (record s { log = logged (tunnel_called id) r.called s.log })

  abbrev pub opened :
      String → Incoming J → Moment J → T × Option (String × J) → Server J T → Server J T
  opened id m t (tunnel, none) s = record s {
    mesh_tunnels = insert m.route_src tunnel s.mesh_tunnels;
  }
  opened id m t (tunnel, some inner) s =
      tunnelled id m t tunnel inner
        (record s { mesh_tunnels = insert m.route_src tunnel s.mesh_tunnels })

  unfoldable pub process_secure : String → Incoming J → Moment J → Server J T → Server J T
  process_secure id m t s = elim (lookup m.route_src s.mesh_tunnels) as (λ _. Server J T) [
    | none ↦ s
    | some tunnel ↦ opened id m t (k.feed_encrypted tunnel m.contents) s
  ]

  -- c.session.client_info.get("name") == dst
  abbrev pub is_named : String → Connection Session J → Bool
  is_named dst c = elim c.session [
    | none ↦ false
    | some session ↦ elim (lookup "name" session.client_info) [
      | none ↦ false
      | some name ↦ str_eq name dst
    ]
  ]

  unfoldable pub find_named : String → List (Connection Session J) → Option (Connection Session J)
  find_named dst [] = none
  find_named dst (c ∷ cs) = if is_named dst c then some c else find_named dst cs

  abbrev pub or_else :
      Option (Connection Session J) → Option (Connection Session J) → Option (Connection Session J)
  or_else (some c) other = some c
  or_else none other = other

  abbrev pub by_next_hop : String → Server J T → Option (Connection Session J)
  by_next_hop dst s = elim (truthy (lookup dst s.mesh_routing_table)) [
    | none ↦ none
    | some hop ↦ Pool.get hop s.pool
  ]

  unfoldable pub relay_target : String → Server J T → Option (Connection Session J)
  unfolding find_named
  relay_target dst s =
      or_else (Pool.get dst s.pool)
        (or_else (find_named dst (Pool.get_all s.pool)) (by_next_hop dst s))

  unfoldable pub relay : Incoming J → Server J T → Server J T
  unfolding relay_target
  relay m s = elim (relay_target m.route_dst s) as (λ _. Server J T) [
    | none ↦ s
    | some c ↦ emit (relayed c.id) s
  ]

  -- `get_message_type_str` gives a type to a MESSAGE only
  abbrev pub is_kind : String → Incoming J → Bool
  is_kind type m = is_type m.message_type Format.message && str_eq m.type type

  -- the state, and whether the handler has returned
  unfoldable pub process_mesh : String → Incoming J → Moment J → Server J T → Server J T × Bool
  unfolding process_handshake process_secure relay
  process_mesh id m t s =
      let s' = learned id m s in
      if str_eq m.route_dst s.name
      then if is_kind "mesh_handshake" m
        then (process_handshake id m s', true)
        else if is_kind "mesh_secure" m
        then (process_secure id m t s', true)
        else (s', false)
      else (relay m s', true)
