-- ===== src/Pool.antt =====
-- conduit/pool/client_pool.py: `ClientPool`. A client is its number and whether it is connected;
-- random.choice is an argument, and so is what a call of a client comes to and how long it takes.
pub mod RoundRobin
pub mod Latency
pub mod Examples
use net_conduit.Base.{
  ℕ, zero, suc, ◌+◌, ◌%◌, Bool, true, false, ◌&&◌, Option, none, some, List, [], ◌∷◌, ◌++◌, ltb,
  leb, ◌==◌, if◌then◌else◌, length, get_elem?, keep_if,
}

pub record Client : Type 0 where
  pub id : ℕ
  pub is_connected : Bool

pub data Strategy : Type 0 where
  random least_latency round_robin : Strategy

pub record PoolStats : Type 0 where
  pub total_connections : ℕ
  pub active_connections : ℕ
  pub requests_sent : ℕ
  pub requests_failed : ℕ

-- `latencies` has the newest entry of a place first.
pub record ClientPool : Type 0 where
  pub strategy : Strategy
  pub clients : List Client
  pub current_index : ℕ
  pub latencies : List (ℕ × ℕ)
  pub stats : PoolStats

abbrev pub is_connected : Client → Bool
is_connected c = c.is_connected

-- the clients that are connected, in order
unfoldable pub active : ClientPool → List Client
active p = keep_if is_connected p.clients

abbrev pub connected_count : ClientPool → ℕ
connected_count p = length (keep_if is_connected p.clients)

-- An attempt to connect: a client, or none where it fails.
abbrev pub connected_of : List (Option Client) → List Client
connected_of [] = []
connected_of (none ∷ rest) = connected_of rest
connected_of (some c ∷ rest) = c ∷ connected_of rest

unfoldable pub connect_all : List (Option Client) → ClientPool → ClientPool × ℕ
connect_all attempts p =
    let made = connected_of attempts in
    (
      record p {
        clients = p.clients ++ made;
        stats = record p.stats {
          total_connections = length (p.clients ++ made);
          active_connections = length made;
        };
      },
      length made,
    )

unfoldable pub disconnect_all : ClientPool → ClientPool
disconnect_all p = record p { clients = []; stats = record p.stats { active_connections = 0 } }

-- self._latencies.get(i, 0)
abbrev pub latency_at : ℕ → List (ℕ × ℕ) → ℕ
latency_at i [] = 0
latency_at i ((j, ms) ∷ rest) = if j == i then ms else latency_at i rest

-- The first of the list after a stable sort by latency: `i` is the place of the next client, and
-- `best` the first with the least latency so far.
unfoldable pub least : List (ℕ × ℕ) → ℕ → ℕ × Client → List Client → Client
least latencies i (j, best) [] = best
least latencies i (j, best) (c ∷ cs) =
    least latencies (i + 1)
      (if ltb (latency_at i latencies) (latency_at j latencies) then (i, c) else (j, best)) cs

-- `_get_next_client`, on a list of active clients that is not empty; `pick` is random's choice of a
-- place.
unfoldable pub get_next_client : ℕ → ClientPool → ClientPool × Option Client
unfolding active least
get_next_client pick p = elim (active p) [
  | [] ↦ (p, none)
  | c ∷ cs ↦ elim p.strategy as (λ _. ClientPool × Option Client) [
    | random ↦ (p, get_elem? (c ∷ cs) (pick % suc (length cs)))
    | least_latency ↦ (p, some (least p.latencies 1 (0, c) cs))
    | round_robin ↦ (
      record p { current_index = (p.current_index + 1) % suc (length cs) },
      get_elem? (c ∷ cs) (p.current_index % suc (length cs)),
    )
  ]
]

-- What `rpc` comes to.
pub data Called (R : Type 0) : Type 0 where
  no_connection failed : Called R
  answer : R → Called R

-- self._clients.index(client)
abbrev pub place_of : ℕ → List Client → ℕ → ℕ
place_of id [] i = i
place_of id (c ∷ cs) i = if c.id == id then i else place_of id cs (i + 1)

abbrev pub sent : {R : Type 0} → ℕ → Option R → Client → ClientPool → ClientPool × Called R
sent elapsed_ms none c p =
    (record p { stats = record p.stats { requests_failed = p.stats.requests_failed + 1 } }, failed)
sent elapsed_ms (some x) c p = (
  record p {
    latencies = (place_of c.id p.clients 0, elapsed_ms) ∷ p.latencies;
    stats = record p.stats { requests_sent = p.stats.requests_sent + 1 };
  },
  answer x,
)

-- `rpc`: `call` is none where the client's call raises.
unfoldable pub rpc : {R : Type 0} → ℕ → (Client → Option R) → ℕ → ClientPool → ClientPool × Called R
unfolding get_next_client
rpc pick call elapsed_ms p =
    let next = get_next_client pick p in
    elim next.1 [ none ↦ (next.0, no_connection) | some c ↦ sent elapsed_ms (call c) c next.0 ]

-- `broadcast`: how many of the connected clients the message was sent to
unfoldable pub broadcast : (Client → Bool) → ClientPool → ℕ
broadcast sends p = length (keep_if (λ c. c.is_connected && sends c) p.clients)
