-- ===== src/Server/Bypass.antt =====
-- What a client that has not logged in does through the mesh.
use net_conduit.Base.{◌≡◌, true, String}
use net_conduit.Connection.{Connection}
use net_conduit.Connection.Pool
use net_conduit.Protocol.Format
use net_conduit.Server.{Server, Incoming}

-- A mesh message of a kind to the server itself.
abbrev pub IsToServer : {J T : Type 0} → String → Incoming J → Server J T → Type 0
IsToServer kind m s =
    (m.message_type ≡ Format.message)
    × (m.type ≡ kind)
    × (m.is_mesh ≡ true)
    × (m.route_dst ≡ s.name)
