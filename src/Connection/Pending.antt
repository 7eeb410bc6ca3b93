-- ===== src/Connection/Pending.antt =====
-- Requests and responses on one connection.
use net_conduit.Base.{
  ℕ, ◌+◌, ◌≤◌, ◌≡◌, refl, ◌==◌, Option, none, some, List, [], ◌∷◌, arith, if◌then◌else◌,
  Option-cases, Bool-cases, inl, inr,
}
use net_conduit.Protocol.Format.{MessageType}
use net_conduit.Connection.{
  Connection, Future, waiting, done, find_rpc, set_rpc, sent, send_rpc_request,
  handle_decoded_message, is_response, Waited, answered, pending, wait_for_rpc_response,
}

-- What happens on a connection: a request is sent, or a message arrives.
pub data Event {ℓ} (P : Type ℓ) : Type ℓ where
  request : (bytes : ℕ) → Event P
  arrival : MessageType → (id : ℕ) → P → (bytes : ℕ) → Event P

-- The payload of the first response with the id.
unfoldable pub first_response {ℓ} : {P : Type ℓ} → ℕ → List (Event P) → Option P
first_response id [] = none
first_response id (request bytes ∷ es) = first_response id es
first_response id (arrival t j payload bytes ∷ es) =
    let rest = first_response id es in
    if is_response t then if j == id then some payload else rest else rest

-- A future that is done where there is a payload.
abbrev future_of {ℓ} : {P : Type ℓ} → Option P → Future P
future_of none = waiting
future_of (some p) = done p

abbrev pub waited_of {ℓ} : {P : Type ℓ} → Option P → Waited P
waited_of none = pending
waited_of (some p) = answered p

find-set {ℓ} :
    {P : Type ℓ} (id j : ℕ) (f : Future P) (l : List (ℕ × Future P))
    → find_rpc id (set_rpc j f l) ≡ (if j == id then some f else find_rpc id l)
unfolding find_rpc set_rpc
find-set id j f [] = refl
find-set id j f ((k, g) ∷ l) = ground (arith, find-set id j f l)

module _ {ℓ} {S P : Type ℓ} where
  unfoldable pub happen : Event P → Connection S P → Connection S P
  happen (request bytes) c = (send_rpc_request bytes c).0
  happen (arrival t id payload bytes) c = (handle_decoded_message t id payload bytes c).0

  unfoldable pub run : List (Event P) → Connection S P → Connection S P
  run [] c = c
  run (e ∷ es) c = run es (happen e c)

  -- A request that is sent takes another id, and a response to another id settles another future.
  happen-done :
      (e : Event P) (id : ℕ) (p : P) (c : Connection S P)
      → id ≤ c.counter
      → find_rpc id c.pending_rpcs ≡ some (done p)
      → (find_rpc id (happen e c).pending_rpcs ≡ some (done p)) × (id ≤ (happen e c).counter)
  unfolding happen send_rpc_request handle_decoded_message sent
  happen-done (request bytes) id p c h f =
      (ground (arith, h, f, find-set id (c.counter + 1) waiting c.pending_rpcs), omega (arith, h))
  happen-done (arrival t j payload bytes) id p c h f =
      (ground (arith, h, f, find-set id j (done payload) c.pending_rpcs), ground (arith, h))

  run-done :
      (es : List (Event P)) (id : ℕ) (p : P) (c : Connection S P)
      → id ≤ c.counter
      → find_rpc id c.pending_rpcs ≡ some (done p)
      → find_rpc id (run es c).pending_rpcs ≡ some (done p)
  unfolding run
  run-done [] id p c h f = f
  run-done (e ∷ es) id p c h f =
      let one = happen-done e id p c h f in run-done es id p (happen e c) one.1 one.0

  run-waiting :
      (es : List (Event P)) (id : ℕ) (c : Connection S P)
      → id ≤ c.counter
      → find_rpc id c.pending_rpcs ≡ some waiting
      → find_rpc id (run es c).pending_rpcs ≡ some (future_of (first_response id es))
  unfolding run first_response happen send_rpc_request handle_decoded_message sent
  run-waiting [] id c h f = f
  run-waiting (request bytes ∷ es) id c h f =
      let set = find-set id (c.counter + 1) waiting c.pending_rpcs in
      run-waiting es id (happen (request bytes) c) (ground (arith, h)) (ground (arith, h, f, set))
  run-waiting (arrival t j payload bytes ∷ es) id c h f =
      let c' = happen (arrival t j payload bytes) c in
      let set = find-set id j (done payload) c.pending_rpcs in
      let up : id ≤ c'.counter = ground (arith, h) in
      elim (Bool-cases (is_response t)) [
        | inr differs ↦
            let same : find_rpc id c'.pending_rpcs ≡ some waiting = ground (arith, f, differs) in
            rw differs (run-waiting es id c' up same)
        | inl answers ↦ elim (Bool-cases (j == id)) [
          | inl own ↦
              let settled : find_rpc id c'.pending_rpcs ≡ some (done payload) =
                ground (arith, f, answers, own, set) in
              rw (answers, own) (run-done es id payload c' up settled)
          | inr other ↦
              let same : find_rpc id c'.pending_rpcs ≡ some waiting =
                ground (arith, f, answers, other, set) in
              rw (answers, other) (run-waiting es id c' up same)
        ]
      ]

  -- A request that is sent has a new id; after any requests and messages that follow, in any order
  -- and with any repetitions, a wait for that id gives the payload of the first response with it, and
  -- no answer yet where there was none.
  pub run-first_response :
      (bytes : ℕ) (es : List (Event P)) (c : Connection S P)
      → (wait_for_rpc_response (send_rpc_request bytes c).1 (run es (send_rpc_request bytes c).0)).1
        ≡ waited_of (first_response (send_rpc_request bytes c).1 es)
  unfolding wait_for_rpc_response send_rpc_request sent
  run-first_response bytes es c =
      let id = (send_rpc_request bytes c).1 in
      let start = (send_rpc_request bytes c).0 in
      let set = find-set id id waiting c.pending_rpcs in
      let fresh : find_rpc id start.pending_rpcs ≡ some waiting = ground (arith, set) in
      let settled = run-waiting es id start (omega arith) fresh in
      elim (Option-cases (first_response id es)) [
        | inl e ↦ ground (arith, settled, e)
        | inr (p, e) ↦ ground (arith, settled, e)
      ]
