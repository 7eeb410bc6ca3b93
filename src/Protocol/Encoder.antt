-- ===== src/Protocol/Encoder.antt =====
-- conduit/protocol/encoder.py. A method takes the encoder and int(time.time() * 1000) as `now`, and
-- returns the encoder with its counter, and the bytes or `none` where it raises (a value that JSON
-- cannot write, an integer outside its protobuf field, a packet of 2^32 bytes).
pub mod Counter
use Prim.Native.Nat.{bit_or}
use mathlib.Core.Option
use net_conduit.Base.{
  ℕ, zero, suc, ◌+◌, ◌≡◌, String, Bool, true, false, not, ◌&&◌, Option, none, some, List, [], ◌∷◌,
  ◌++◌, ltb, leb, ◌==◌, if◌then◌else◌, length,
}
use net_conduit.Protocol.Bytes.{Bytes, pack_be}
use net_conduit.Protocol.Format
use net_conduit.Protocol.Format.Flags
use net_conduit.Protocol.Format.{MessageType, type_code, protocol_version}
use net_conduit.Protocol.Runtime.{
  Runtime, Value, no_value, raw, text, json, Packet, MessagePayload, RpcRequestPayload,
  RpcResponsePayload, AuthRequestPayload, AuthResponsePayload, Info, packet_fits,
}

pub record ProtocolEncoder : Type 0 where
  pub enable_compression : Bool
  pub correlation_counter : ℕ

pub record Options : Type 0 where
  pub correlation_id : Option ℕ
  pub flags : ℕ
  pub route_src : Option String
  pub route_dst : Option String
  pub is_mesh : Bool

-- The defaults of the arguments of `encode`.
abbrev pub defaults : Options
defaults = record {
  correlation_id = none;
  flags = 0;
  route_src = none;
  route_dst = none;
  is_mesh = false;
}

-- `x or ""`, `x or 0`
abbrev pub or_else {ℓ} : {A : Type ℓ} → Option A → A → A
or_else none d = d
or_else (some a) d = a

abbrev pub is_rpc_request : MessageType → Bool
is_rpc_request t = type_code t == type_code Format.rpc_request

abbrev pub is_empty : Bytes → Bool
is_empty [] = true
is_empty (b ∷ bs) = false

-- `compressed` is the result of compress_payload: its first byte is the codec.
abbrev pub by_codec : Bytes → Bytes → ℕ → Bytes × ℕ
by_codec payload [] flags = (payload, flags)
by_codec payload (codec ∷ body) flags =
    if codec == 1
    then (body, bit_or flags Flags.codec_lz4)
    else if codec == 2
    then (body, bit_or flags Flags.codec_zstd)
    else (payload, flags)

unfoldable pub next_correlation_id : ProtocolEncoder → ProtocolEncoder × ℕ
next_correlation_id e =
    (record e { correlation_counter = e.correlation_counter + 1 }, e.correlation_counter + 1)

module _ (r : Runtime) where
  unfoldable pub serialize_data : Value r.Json → Option Bytes
  serialize_data no_value = some []
  serialize_data (raw bs) = some bs
  serialize_data (text s) = some (r.encode_utf8 s)
  serialize_data (json j) = Option.map r.encode_utf8 (r.dumps j)

  unfoldable pub compress : Bytes → ℕ → Bytes × ℕ
  compress payload flags = elim r.compress [
    | none ↦ (payload, flags)
    | some f ↦
        if ltb (length payload) 64
        then (payload, flags)
        else if leb (length payload) (length (f payload))
        then (payload, flags)
        else by_codec payload (f payload) flags
  ]

  -- The bytes of a packet with its length in front; `none` is OverflowError.
  unfoldable pub frame : Packet → Option Bytes
  frame p =
      let body = r.packet.serialize p in
      Option.map (λ prefix. prefix ++ body) (pack_be 4 (length body))

  -- The packet that `encode` makes, once the correlation id is settled.
  unfoldable pub make_packet : Bool → MessageType → Bytes → Options → ℕ → ℕ → Packet
  make_packet compressing t payload o correlation_id now =
      let (body, flags) =
        if compressing && not (is_empty payload)
        then compress payload o.flags
        else (payload, o.flags) in
      record {
        version = protocol_version;
        packet_type = type_code t;
        flags = flags;
        correlation_id = correlation_id;
        timestamp = now;
        payload = body;
        route_src = or_else o.route_src "";
        route_dst = or_else o.route_dst "";
        is_mesh = o.is_mesh;
      }

  abbrev pub send : Packet → Option Bytes
  send p = if packet_fits p then frame p else none

  unfoldable pub encode :
      MessageType → Bytes → Options → ℕ → ProtocolEncoder → ProtocolEncoder × Option Bytes
  encode t payload o now e = elim o.correlation_id [
    | some c ↦ (e, send (make_packet e.enable_compression t payload o c now))
    | none ↦
        if is_rpc_request t
        then (let (e', c) = next_correlation_id e in
            (e', send (make_packet e.enable_compression t payload o c now)))
        else (e, send (make_packet e.enable_compression t payload o 0 now))
  ]

  abbrev pub Sent : Type 0
  Sent = ProtocolEncoder × Option Bytes

  -- The rest of a method whose payload may fail to be written: then nothing is encoded.
  abbrev pub with_payload : ProtocolEncoder → Option Bytes → (Bytes → Sent) → Sent
  with_payload e none k = (e, none)
  with_payload e (some bs) k = k bs

  unfoldable pub encode_message : String → Value r.Json → Option ℕ → ℕ → ProtocolEncoder → Sent
  unfolding serialize_data
  encode_message message_type contents correlation_id now e =
      with_payload e
        (Option.map
          (λ bs. r.message.serialize (record { message_type = message_type; contents = bs }))
          (serialize_data contents))
        (λ payload.
          encode Format.message payload (record defaults { correlation_id = correlation_id }) now e)

  -- The id is drawn before the payload is made.
  unfoldable pub encode_rpc_request :
      String → Value r.Json → Option ℕ → ℕ → ProtocolEncoder → Sent × ℕ
  unfolding serialize_data
  encode_rpc_request method params correlation_id now e =
      let (e', c) = elim correlation_id as (λ _. ProtocolEncoder × ℕ) [
        | none ↦ next_correlation_id e
        | some c ↦ (e, c)
      ] in
      (
        with_payload e'
            (Option.map (λ bs. r.rpc_request.serialize (record { method = method; params = bs }))
              (serialize_data params))
            (λ payload.
              encode Format.rpc_request payload (record defaults { correlation_id = some c }) now
                e'),
        c,
      )

  unfoldable pub encode_rpc_error : String → ℕ → Option ℕ → ℕ → ProtocolEncoder → Sent
  encode_rpc_error error_message correlation_id error_code now e =
      encode Format.rpc_error
        (r.rpc_response.serialize (record {
          success = false;
          result = [];
          error = error_message;
          code = or_else error_code 0;
        }))
        (record defaults { correlation_id = some correlation_id }) now e

  unfoldable pub encode_auth_request : String → Info → ℕ → ProtocolEncoder → Sent
  encode_auth_request password_hash client_info now e =
      encode Format.auth_request
        (r.auth_request.serialize (record {
          password_hash = password_hash;
          client_info = client_info;
          protocol_version = "1.0";
        }))
        defaults now e

  unfoldable pub encode_auth_success : String → Info → ℕ → ProtocolEncoder → Sent
  encode_auth_success session_token server_info now e =
      encode Format.auth_success
        (r.auth_response.serialize (record {
          success = true;
          session_token = session_token;
          server_info = server_info;
          heartbeat_interval = 30;
          reason = "";
        }))
        defaults now e

  -- an AuthResponsePayload with only a reason, which three methods send
  abbrev pub reason_payload : String → Bytes
  reason_payload reason = r.auth_response.serialize (record {
    success = false;
    session_token = "";
    server_info = λ _. none;
    heartbeat_interval = 0;
    reason = reason;
  })

  unfoldable pub encode_auth_failure : String → ℕ → ProtocolEncoder → Sent
  encode_auth_failure reason now e =
      encode Format.auth_failure (reason_payload reason) defaults now e

  unfoldable pub encode_heartbeat_ping : ℕ → ProtocolEncoder → Sent
  encode_heartbeat_ping now e = encode Format.heartbeat_ping [] defaults now e

  unfoldable pub encode_heartbeat_pong : ℕ → ProtocolEncoder → Sent
  encode_heartbeat_pong now e = encode Format.heartbeat_pong [] defaults now e

  unfoldable pub encode_pause : ℕ → ProtocolEncoder → Sent
  encode_pause now e = encode Format.pause [] defaults now e

  unfoldable pub encode_resume : ℕ → ProtocolEncoder → Sent
  encode_resume now e = encode Format.resume [] defaults now e

  unfoldable pub encode_ack : ℕ → ℕ → ProtocolEncoder → Sent
  encode_ack correlation_id now e =
      encode Format.ack [] (record defaults { correlation_id = some correlation_id }) now e

  unfoldable pub encode_nack : ℕ → String → ℕ → ProtocolEncoder → Sent
  encode_nack correlation_id reason now e =
      encode Format.nack (reason_payload reason)
        (record defaults { correlation_id = some correlation_id }) now e

  unfoldable pub encode_close : String → ℕ → ProtocolEncoder → Sent
  encode_close reason now e = encode Format.close (reason_payload reason) defaults now e

  unfoldable pub encode_close_ack : ℕ → ProtocolEncoder → Sent
  encode_close_ack now e = encode Format.close_ack [] defaults now e
