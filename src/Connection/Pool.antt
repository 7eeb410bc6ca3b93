-- ===== src/Connection/Pool.antt =====
-- conduit/connection/pool.py: `ConnectionPool`. A call under the lock is one step. The hooks are
-- counted by the connections they are called for; whether a send succeeds is an argument.
use net_conduit.Base.{
  ℕ, ◌+◌, ◌-◌, ◌≤◌, ◌<◌, ◌≡◌, ◌↔◌, refl, ◌∙◌, Bool, true, false, not, ◌&&◌, Option, List, [], ◌∷◌,
  String, arith, leb, if◌then◌else◌, length, keep_if, str_eq,
}
use net_conduit.Base.Dict.{
  Dict, lookup, contains, insert, erase, values, length-insert, length-erase,
}
use net_conduit.Connection.{Connection, is_authenticated, set_disconnect_handler, stop}

pub record ConnectionPool {ℓ} (S P : Type ℓ) : Type ℓ where
  pub max_connections : ℕ
  pub connections : Dict (Connection S P)
  pub has_connect_hook : Bool
  pub has_disconnect_hook : Bool
  pub connect_calls : List String
  pub disconnect_calls : List String

-- id in a list of ids
abbrev pub is_among : String → List String → Bool
is_among id [] = false
is_among id (j ∷ js) = if str_eq j id then true else is_among id js

module _ {ℓ} {S P : Type ℓ} where
  abbrev pub new_pool : ℕ → ConnectionPool S P
  new_pool max_connections = record {
    max_connections = max_connections;
    connections = [];
    has_connect_hook = false;
    has_disconnect_hook = false;
    connect_calls = [];
    disconnect_calls = [];
  }

  abbrev pub set_callbacks : Bool → Bool → ConnectionPool S P → ConnectionPool S P
  set_callbacks on_connect on_disconnect p = record p {
    has_connect_hook = on_connect;
    has_disconnect_hook = on_disconnect;
  }

  abbrev pub count : ConnectionPool S P → ℕ
  count p = length p.connections

  abbrev pub is_full : ConnectionPool S P → Bool
  is_full p = leb p.max_connections (count p)

  unfoldable pub add : Connection S P → ConnectionPool S P → ConnectionPool S P × Bool
  unfolding set_disconnect_handler
  add c p = if is_full p then (p, false) else (
    record p {
      connections = insert c.id (set_disconnect_handler c) p.connections;
      connect_calls = if p.has_connect_hook then c.id ∷ p.connect_calls else p.connect_calls;
    },
    true,
  )

  unfoldable pub remove : String → ConnectionPool S P → ConnectionPool S P × Bool
  remove id p =
      if contains id p.connections
      then (record p { connections = erase id p.connections }, true)
      else (p, false)

  abbrev pub get : String → ConnectionPool S P → Option (Connection S P)
  get id p = lookup id p.connections

  abbrev pub get_all : ConnectionPool S P → List (Connection S P)
  get_all p = values p.connections

  unfoldable pub get_authenticated : ConnectionPool S P → List (Connection S P)
  get_authenticated p = keep_if is_authenticated (values p.connections)

  -- the connections that a broadcast is sent to, and how many sends succeed
  unfoldable pub targets : List String → Dict (Connection S P) → List (Connection S P)
  targets exclude [] = []
  targets exclude ((id, c) ∷ rest) =
      let others = targets exclude rest in
      if not (is_among id exclude) && is_authenticated c then c ∷ others else others

  unfoldable pub broadcast : (Connection S P → Bool) → List String → ConnectionPool S P → ℕ
  unfolding targets
  broadcast succeeds exclude p = length (keep_if succeeds (targets exclude p.connections))

  -- the handler that `add` sets on each connection calls the pool's hook
  abbrev pub stopped : Bool → List (Connection S P) → List String → List String
  stopped hook [] calls = calls
  stopped hook (c ∷ cs) calls = stopped hook cs (if (stop c).1 && hook then c.id ∷ calls else calls)

  unfoldable pub close_all : ConnectionPool S P → ConnectionPool S P
  unfolding stop
  close_all p = record p {
    connections = [];
    disconnect_calls = stopped p.has_disconnect_hook (values p.connections) p.disconnect_calls;
  }

  abbrev pub available_slots : ConnectionPool S P → ℕ
  available_slots p = p.max_connections - count p

-- The calls that change a pool.
pub data PoolCall {ℓ} (S P : Type ℓ) : Type ℓ where
  adding : Connection S P → PoolCall S P
  removing : String → PoolCall S P
  closing : PoolCall S P

module _ {ℓ} {S P : Type ℓ} where
  unfoldable pub apply : PoolCall S P → ConnectionPool S P → ConnectionPool S P
  apply (adding c) p = (add c p).0
  apply (removing id) p = (remove id p).0
  apply closing p = close_all p

  unfoldable pub run : List (PoolCall S P) → ConnectionPool S P → ConnectionPool S P
  run [] p = p
  run (call ∷ calls) p = run calls (apply call p)

  apply-le :
      (call : PoolCall S P) (p : ConnectionPool S P)
      → count p ≤ p.max_connections
      → (count (apply call p) ≤ p.max_connections)
        × ((apply call p).max_connections ≡ p.max_connections)
  unfolding apply add remove close_all
  apply-le (adding c) p h =
      let grown = length-insert c.id (set_disconnect_handler c) p.connections in
      (ground (arith, h, grown), ground arith)
  apply-le (removing id) p h =
      let shrunk = length-erase id p.connections in (ground (arith, h, shrunk), ground arith)
  apply-le closing p h = (omega arith, refl)

  run-le :
      (calls : List (PoolCall S P)) (p : ConnectionPool S P)
      → count p ≤ p.max_connections
      → count (run calls p) ≤ p.max_connections
  unfolding run
  run-le [] p h = h
  run-le (call ∷ calls) p h =
      let one = apply-le call p h in
      let rest = run-le calls (apply call p) (rw one.1 one.0) in omega (arith, rest, one.1)

  run-kept :
      (calls : List (PoolCall S P)) (p : ConnectionPool S P)
      → count p ≤ p.max_connections
      → (run calls p).max_connections ≡ p.max_connections
  unfolding run
  run-kept [] p h = refl
  run-kept (call ∷ calls) p h =
      let one = apply-le call p h in run-kept calls (apply call p) (rw one.1 one.0) ∙ one.1

  add-available :
      (c : Connection S P) (p : ConnectionPool S P) → ((add c p).1 ≡ true) ↔ (0 < available_slots p)
  unfolding add
  add-available c p = (λ e. ground (arith, e), λ h. ground (arith, h))

  -- Through any calls, a pool never holds more than `max_connections`; a connection is added exactly
  -- where a slot is available, and the slots and the connections make up the maximum.
  pub run-max_connections :
      (max_connections : ℕ) (calls : List (PoolCall S P)) (c : Connection S P)
      → (count (run calls (new_pool max_connections)) ≤ max_connections)
        × (count (run calls (new_pool max_connections))
              + available_slots (run calls (new_pool max_connections))
            ≡ (run calls (new_pool max_connections)).max_connections)
        × (((add c (run calls (new_pool max_connections))).1 ≡ true)
            ↔ (0 < available_slots (run calls (new_pool max_connections))))
  run-max_connections max_connections calls c =
      let empty : 0 ≤ max_connections = omega arith in
      let bound = run-le calls (new_pool max_connections) empty in
      let kept = run-kept calls (new_pool max_connections) empty in
      (bound, omega (arith, bound, kept), add-available c (run calls (new_pool max_connections)))
