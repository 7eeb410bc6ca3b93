-- ===== src/Connection.antt =====
-- conduit/connection/connection.py: `Connection`. `S` is the type of sessions and `P` that of the
-- payloads of responses. A future is waiting, or has its result; what is sent goes to the Rust
-- transport, whose exceptions are not modelled, and is recorded by its size.
pub mod Pending
pub mod Pool
pub mod Examples
use net_conduit.Base.{
  ℕ, ◌+◌, ◌==◌, Bool, true, false, not, ◌||◌, Option, none, some, List, [], ◌∷◌, String,
  if◌then◌else◌, is_some,
}
use net_conduit.Protocol.Format
use net_conduit.Protocol.Format.{MessageType, type_code}

pub data Future {ℓ} (P : Type ℓ) : Type ℓ where
  waiting : Future P
  done : P → Future P

pub record ConnectionStats : Type 0 where
  pub messages_sent : ℕ
  pub messages_received : ℕ
  pub bytes_sent : ℕ
  pub bytes_received : ℕ

-- `counter` is that of the connection's encoder.
pub record Connection {ℓ} (S P : Type ℓ) : Type ℓ where
  pub id : String
  pub client_id : String
  pub flag : Bool
  pub session : Option S
  pub stats : ConnectionStats
  pub counter : ℕ
  pub pending_rpcs : List (ℕ × Future P)
  pub on_disconnect : Bool

-- What `wait_for_rpc_response` comes to: ValueError, a payload, or no answer yet.
pub data Waited {ℓ} (P : Type ℓ) : Type ℓ where
  no_pending pending : Waited P
  answered : P → Waited P

abbrev pub is_response : MessageType → Bool
is_response t =
    type_code t == type_code Format.rpc_response || type_code t == type_code Format.rpc_error

module _ {ℓ} {P : Type ℓ} where
  -- self._pending_rpcs.get(id)
  unfoldable pub find_rpc : ℕ → List (ℕ × Future P) → Option (Future P)
  find_rpc id [] = none
  find_rpc id ((j, f) ∷ rest) = if j == id then some f else find_rpc id rest

  -- self._pending_rpcs[id] = f, and set_result on the future that stands there
  unfoldable pub set_rpc : ℕ → Future P → List (ℕ × Future P) → List (ℕ × Future P)
  set_rpc id f [] = (id, f) ∷ []
  set_rpc id f ((j, g) ∷ rest) = if j == id then (j, f) ∷ rest else (j, g) ∷ set_rpc id f rest

  -- self._pending_rpcs.pop(id, None)
  unfoldable pub pop_rpc : ℕ → List (ℕ × Future P) → List (ℕ × Future P)
  pop_rpc id [] = []
  pop_rpc id ((j, f) ∷ rest) = if j == id then rest else (j, f) ∷ pop_rpc id rest

module _ {ℓ} {S P : Type ℓ} where
  unfoldable pub new_connection : String → String → ℕ → Connection S P
  new_connection id client_id counter = record {
    id = id;
    client_id = client_id;
    flag = false;
    session = none;
    stats = record { messages_sent = 0; messages_received = 0; bytes_sent = 0; bytes_received = 0 };
    counter = counter;
    pending_rpcs = [];
    on_disconnect = false;
  }

  abbrev pub is_authenticated : Connection S P → Bool
  is_authenticated c = is_some c.session || c.flag

  unfoldable pub set_session : S → Connection S P → Connection S P
  set_session s c = record c { session = some s; flag = true }

  unfoldable pub mark_authenticated : Connection S P → Connection S P
  mark_authenticated c = record c { flag = true }

  unfoldable pub set_disconnect_handler : Connection S P → Connection S P
  set_disconnect_handler c = record c { on_disconnect = true }

  -- `stop`: whether the handler is called; it is called once
  unfoldable pub stop : Connection S P → Connection S P × Bool
  stop c = (record c { on_disconnect = false }, c.on_disconnect)

  -- `send_message`, `send_rpc_response`, `send_rpc_error` and `send_raw`, by the size of the bytes
  unfoldable pub sent : ℕ → Connection S P → Connection S P
  sent bytes c = record c {
    stats = record c.stats {
      messages_sent = c.stats.messages_sent + 1;
      bytes_sent = c.stats.bytes_sent + bytes;
    };
  }

  -- the correlation id is the next of the encoder
  unfoldable pub send_rpc_request : ℕ → Connection S P → Connection S P × ℕ
  unfolding sent set_rpc
  send_rpc_request bytes c =
      let id = c.counter + 1 in
      (record (sent bytes c) { counter = id; pending_rpcs = set_rpc id waiting c.pending_rpcs }, id)

  unfoldable pub wait_for_rpc_response : ℕ → Connection S P → Connection S P × Waited P
  unfolding find_rpc pop_rpc
  wait_for_rpc_response id c =
      elim (find_rpc id c.pending_rpcs) as (λ _. Connection S P × Waited P) [
        | none ↦ (c, no_pending)
        | some waiting ↦ (c, pending)
        | some (done p) ↦ (record c { pending_rpcs = pop_rpc id c.pending_rpcs }, answered p)
      ]

  -- the caller's timeout cancels the wait
  unfoldable pub cancel_wait : ℕ → Connection S P → Connection S P
  unfolding pop_rpc
  cancel_wait id c = record c { pending_rpcs = pop_rpc id c.pending_rpcs }

  abbrev counted : ℕ → Connection S P → Connection S P
  counted bytes c = record c {
    stats = record c.stats {
      messages_received = c.stats.messages_received + 1;
      bytes_received = c.stats.bytes_received + bytes;
    };
  }

  abbrev resolved : ℕ → P → Option (Future P) → Connection S P → Connection S P × Bool
  resolved id payload (some waiting) c =
      (record c { pending_rpcs = set_rpc id (done payload) c.pending_rpcs }, true)
  resolved id payload _ c = (c, false)

  -- `handle_decoded_message`, by the message's type, id, payload and size
  unfoldable pub handle_decoded_message :
      MessageType → ℕ → P → ℕ → Connection S P → Connection S P × Bool
  unfolding find_rpc set_rpc
  handle_decoded_message t id payload bytes c =
      if is_response t
      then resolved id payload (find_rpc id c.pending_rpcs) (counted bytes c)
      else (counted bytes c, false)
