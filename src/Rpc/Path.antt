-- ===== src/Rpc/Path.antt =====
-- The way of a handler's result to the caller: the wrapping of conduit/rpc/dispatcher.py, the answer
-- of conduit/server.py, `send_rpc_response` and `send_rpc_error` of conduit/connection/connection.py
-- with the payloads of conduit/protocol/encoder.py, what conduit/protocol/decoder.py makes of them,
-- and the end of `RPC.call` in conduit/rpc/rpc_class.py.
use net_conduit.Base.{
  ℕ, ◌≡◌, refl, true, false, Option, none, some, String, arith, if◌then◌else◌, str_eq,
}
use net_conduit.Response.{
  PyValue, null, boolean, number, string, raw_bytes, array, object, Fields, empty, field, get,
  get_or, has_key, is_truthy, is_dict_with, response, error, and_fields,
}

-- RPCResponsePayload, its result before it is serialized.
pub data ResponsePayload : Type 0 where
  success_payload : PyValue → ResponsePayload
  error_payload : (message : String) (code : ℕ) → ResponsePayload

-- What a call comes to for the caller.
pub data Called : Type 0 where
  returned : PyValue → Called
  rpc_error : (message code details : PyValue) → Called

-- `dispatch` on the result of a handler.
abbrev pub dispatched : PyValue → Fields
dispatched (object d) = if has_key "success" d then d else response (object d) null
dispatched v = response v null

-- A value that protobuf takes for a string field, or for an int field after `code or 0`; none is
-- TypeError.
abbrev pub as_text : PyValue → Option String
as_text (string s) = some s
as_text _ = none

abbrev pub as_code : PyValue → Option ℕ
as_code null = some 0
as_code (number n) = some n
as_code (boolean false) = some 0
as_code (boolean true) = some 1
as_code (string s) = if str_eq s "" then some 0 else none
as_code _ = none

-- encode_rpc_error
abbrev pub encode_error : Option String → Option ℕ → Option ResponsePayload
encode_error (some message) (some code) = some (error_payload message code)
encode_error _ _ = none

-- response.get("result") if "result" in response else response.get("data")
abbrev pub result_of : Fields → PyValue
result_of d = elim (get "result" d) [ none ↦ get_or "data" null d | some v ↦ v ]

-- result.get("data") if it is not None, else result.get("result")
abbrev pub actual_of : Fields → PyValue
actual_of d = elim (get_or "data" null d) [ null ↦ get_or "result" null d | v ↦ v ]

module _ (str_of : PyValue → String) (wire : PyValue → Option PyValue) where
  -- encode_rpc_response, with `success` at its default
  unfoldable pub encode_rpc_response : PyValue → Option ResponsePayload
  encode_rpc_response (object d) =
      if has_key "success" d
      then if is_truthy (get_or "success" null d)
        then some (success_payload (actual_of d))
        else elim (as_code (get_or "code" (number 0) d)) [
          | none ↦ none
          | some code ↦
              some (error_payload (str_of (get_or "error" (string "Unknown error") d)) code)
        ]
      else some (success_payload (object d))
  encode_rpc_response v = some (success_payload v)

  -- the server's answer to a response dict; none where it raises
  unfoldable pub answer : Fields → Option ResponsePayload
  unfolding encode_rpc_response
  answer d =
      if is_truthy (get_or "success" (boolean false) d)
      then encode_rpc_response (result_of d)
      else encode_error (as_text (get_or "error" (string "Unknown RPC error") d))
          (as_code (get_or "code" null d))

  -- decode_single of the packet: `wire` is serialize_data and then deserialize_data
  abbrev pub payload_dict : PyValue → PyValue → PyValue → ℕ → Fields
  payload_dict success result message code =
      field "success" success
        (field "result" result (field "error" message (field "code" (number code) empty)))

  unfoldable pub received : ResponsePayload → Option Fields
  received (error_payload message code) =
      some (payload_dict (boolean false) null (string message) code)
  received (success_payload v) = elim (wire v) [
    | none ↦ none
    | some w ↦ some (payload_dict (boolean true) w null 0)
  ]

  -- the end of `RPC.call`, on the payload of the response
  unfoldable pub called : Fields → Called
  called d =
      if is_truthy (get_or "success" (boolean true) d)
      then elim (get "data" d) [
        | some v ↦ returned v
        | none ↦ elim (get "result" d) [ some v ↦ returned v | none ↦ returned (object d) ]
      ]
      else rpc_error (get_or "error" (string "Unknown error") d) (get_or "code" null d)
          (get_or "details" null d)

  -- The whole way; none where no response is sent, and the caller's timeout ends the call.
  unfoldable pub rpc_result : PyValue → Option Called
  unfolding answer received called
  rpc_result v = elim (answer (dispatched v)) [
    | none ↦ none
    | some p ↦ elim (received p) [ none ↦ none | some d ↦ some (called d) ]
  ]

  -- A result that is no dict with the key "success", and that the wire carries unchanged, is what
  -- the caller gets: neither the "success" nor the "data" that the dispatcher put around it.
  pub rpc_result-plain :
      (v : PyValue)
      → is_dict_with "success" v ≡ false
      → wire v ≡ some v
      → rpc_result v ≡ some (returned v)
  unfolding rpc_result answer received called encode_rpc_response response get
  rpc_result-plain null h w = ground (arith, w)
  rpc_result-plain (boolean b) h w = ground (arith, w)
  rpc_result-plain (number n) h w = ground (arith, w)
  rpc_result-plain (string s) h w = ground (arith, w)
  rpc_result-plain (raw_bytes b) h w = ground (arith, w)
  rpc_result-plain (array vs) h w = ground (arith, w)
  rpc_result-plain (object d) h w = ground (arith, h, w)

  -- A result dict with a true "success" and neither "result" nor "data" reaches the caller as None,
  -- whatever else it holds.
  pub rpc_result-emptied :
      (d : Fields) (success : PyValue)
      → get "success" d ≡ some success
      → is_truthy success ≡ true
      → get "result" d ≡ none
      → get "data" d ≡ none
      → wire null ≡ some null
      → rpc_result (object d) ≡ some (returned null)
  unfolding rpc_result answer received called encode_rpc_response get
  rpc_result-emptied d success s t r n w = ground (arith, s, t, r, n, w)

  -- What `Error` makes reaches the caller as an RPCError with its message and its code, 0 where it
  -- has none, and without its details.
  rpc_result-error :
      (message : String) (code : Option ℕ) (details : PyValue)
      → rpc_result (object (error message code details))
        ≡ some (rpc_error (string message) (number (elim code [ none ↦ 0 | some c ↦ c ])) null)
  unfolding rpc_result answer received called error get and_fields
  rpc_result-error message none details = ground arith
  rpc_result-error message (some code) details = refl
