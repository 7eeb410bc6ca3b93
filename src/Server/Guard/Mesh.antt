-- ===== src/Server/Guard/Mesh.antt =====
-- The mesh messages keep the log of a server guarded.
use net_conduit.Base.{
  ◌≡◌, refl, true, false, ◌||◌, Option, none, some, String, str_eq, arith, Bool-cases, Option-cases,
  inl, inr,
}
use net_conduit.Base.Dict.{lookup}
use net_conduit.Messages.Router.{route}
use net_conduit.Server.{
  Server, Incoming, Calls, Moment, mesh_handshake, mesh_secure, relayed, tunnel_called,
}
use net_conduit.Server.Guard.{cons-AreSafe, logged-AreSafe}
use net_conduit.Server.Mesh.{
  process_mesh, process_handshake, process_secure, relay, relay_target, learned, opened, tunnelled,
  answer_of, is_kind,
}
use net_conduit.Server.Guard.Login.{IsSafe}

module _ {J T : Type 0} (k : Calls J T) where
  tunnelled-IsSafe :
      (id : String) (m : Incoming J) (t : Moment J) (tunnel : T) (inner : String × J)
      (s : Server J T)
      → IsSafe s
      → IsSafe (tunnelled k id m t tunnel inner s)
  tunnelled-IsSafe id m t tunnel (type, contents) s h =
      let r = route t.run_handler type true s.router in
      let safe =
        logged-AreSafe (tunnel_called id) r.called none s.log s.pool.connections (λ g. refl)
          (λ g l d. refl) h refl in
      elim (Option-cases (answer_of k.is_none r)) [
        | inl e ↦ rw (tunnelled, e) safe.0
        | inr (x, e) ↦
            rw (tunnelled, e)
              (cons-AreSafe (mesh_secure _ m.route_src _) _ s.pool.connections safe.0 refl)
      ]

  opened-IsSafe :
      (id : String) (m : Incoming J) (t : Moment J) (o : T × Option (String × J)) (s : Server J T)
      → IsSafe s
      → IsSafe (opened k id m t o s)
  opened-IsSafe id m t (tunnel, none) s h = h
  opened-IsSafe id m t (tunnel, some inner) s h = tunnelled-IsSafe id m t tunnel inner _ h

  process_secure-IsSafe :
      (id : String) (m : Incoming J) (t : Moment J) (s : Server J T)
      → IsSafe s
      → IsSafe (process_secure k id m t s)
  unfolding process_secure
  process_secure-IsSafe id m t s h = elim (Option-cases (lookup m.route_src s.mesh_tunnels)) [
    | inl e ↦ rw (process_secure, e) h
    | inr (tunnel, e) ↦
        rw (process_secure, e) (opened-IsSafe id m t (k.feed_encrypted tunnel m.contents) s h)
  ]

  process_handshake-IsSafe :
      (id : String) (m : Incoming J) (s : Server J T)
      → IsSafe s
      → IsSafe (process_handshake k id m s)
  unfolding process_handshake
  process_handshake-IsSafe id m s h =
      let o = k.do_handshake (lookup m.route_src s.mesh_tunnels) m.contents in
      elim (Option-cases o.1) [
        | inl e ↦ rw (process_handshake, e) h
        | inr (x, e) ↦
            rw (process_handshake, e)
              (cons-AreSafe (mesh_handshake _ m.route_src x) s.log s.pool.connections h refl)
      ]

  relay-IsSafe : (m : Incoming J) (s : Server J T) → IsSafe s → IsSafe (relay k m s)
  unfolding relay
  relay-IsSafe m s h = elim (Option-cases (relay_target k m.route_dst s)) [
    | inl e ↦ rw (relay, e) h
    | inr (c, e) ↦ rw (relay, e) (cons-AreSafe (relayed c.id) s.log s.pool.connections h refl)
  ]

  learned-kept :
      (id : String) (m : Incoming J) (s : Server J T)
      → ((learned k id m s).log ≡ s.log) × ((learned k id m s).pool ≡ s.pool)
  learned-kept id m s = (ground arith, ground arith)

  learned-IsSafe :
      (id : String) (m : Incoming J) (s : Server J T) → IsSafe s → IsSafe (learned k id m s)
  learned-IsSafe id m s h = elim (Bool-cases (str_eq m.route_src "" || str_eq m.route_src id)) [
    | inl e ↦ rw e h
    | inr e ↦ rw e h
  ]

  pub process_mesh-IsSafe :
      (id : String) (m : Incoming J) (t : Moment J) (s : Server J T)
      → IsSafe s
      → IsSafe (process_mesh k id m t s).0
  unfolding process_mesh
  process_mesh-IsSafe id m t s h =
      let s' = learned k id m s in
      let h' = learned-IsSafe id m s h in
      elim (Bool-cases (str_eq m.route_dst s.name)) [
        | inr e ↦ rw (process_mesh, e) (relay-IsSafe m s' h')
        | inl e ↦ elim (Bool-cases (is_kind k "mesh_handshake" m)) [
          | inl e' ↦ rw (process_mesh, e, e') (process_handshake-IsSafe id m s' h')
          | inr e' ↦ elim (Bool-cases (is_kind k "mesh_secure" m)) [
            | inl e'' ↦ rw (process_mesh, e, e', e'') (process_secure-IsSafe id m t s' h')
            | inr e'' ↦ rw (process_mesh, e, e', e'') h'
          ]
        ]
      ]

  pub process_mesh-kept :
      (id : String) (m : Incoming J) (t : Moment J) (s : Server J T)
      → (process_mesh k id m t s).1 ≡ false
      → (process_mesh k id m t s).0.log ≡ s.log
  unfolding process_mesh
  process_mesh-kept id m t s e = ground (arith, e, (learned-kept id m s).0)
