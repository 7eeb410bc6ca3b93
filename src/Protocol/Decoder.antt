-- ===== src/Protocol/Decoder.antt =====
-- conduit/protocol/decoder.py: `decode_single` on one packet, and the buffer of `ProtocolDecoder`.
pub mod Stream
pub mod Reads
pub mod Failure
use Prim.Native.Nat.{bit_and}
use mathlib.Core.Option
use net_conduit.Base.{
  ℕ, zero, suc, ◌+◌, ◌-◌, ◌*◌, ◌≡◌, String, Bool, true, false, not, ◌&&◌, Option, none, some, List,
  [], ◌∷◌, ◌++◌, ltb, leb, ◌==◌, if◌then◌else◌, length, take, drop,
}
use net_conduit.Protocol.Bytes.{Bytes, be_value}
use net_conduit.Protocol.Format
use net_conduit.Protocol.Format.Flags
use net_conduit.Protocol.Format.{MessageType, be, type_code, message_type_of, magic_bytes, has_flag}
use net_conduit.Protocol.Format.Header.{MessageHeader}
use net_conduit.Protocol.Runtime.{
  Runtime, Value, no_value, raw, text, json, Packet, Info, Wire, MessagePayload, RpcRequestPayload,
  RpcResponsePayload, AuthRequestPayload, AuthResponsePayload,
}

-- The dict that a message's payload is decoded to, by its kind; `plain` is deserialize_data.
pub data Payload (J : Type 0) : Type 0 where
  message : String → Value J → Payload J
  rpc_request : String → Value J → Payload J
  rpc_response : Bool → Value J → Option String → ℕ → Payload J
  auth_request : String → Info → Payload J
  auth_response : Bool → String → Info → String → Payload J
  plain : Value J → Payload J

pub record DecodedMessage (J : Type 0) : Type 0 where
  pub header : MessageHeader
  pub payload : Payload J
  pub raw_payload : Bytes
  pub route_src : String
  pub route_dst : String
  pub is_mesh : Bool

-- What decode_single does: it returns, or raises IncompleteMessageError with the bytes needed, or
-- DecodeError.
pub data Decoded (J : Type 0) : Type 0 where
  decoded : DecodedMessage J → Decoded J
  incomplete : ℕ → Decoded J
  decode_error : Decoded J

abbrev pub header_of : Packet → MessageType → Bytes → MessageHeader
header_of p t body = record {
  magic = magic_bytes;
  version = p.version;
  message_type = t;
  flags = p.flags;
  reserved = 0;
  content_length = length body;
  correlation_id = p.correlation_id;
  timestamp = p.timestamp;
  sequence_id = 0;
  stream_id = 0;
  byte_order = be;
}

-- `feed`
unfoldable pub feed : Bytes → Bytes → Bytes
feed data_bytes buffer = buffer ++ data_bytes

module _ (r : Runtime) where
  unfoldable pub deserialize_data : Bytes → Value r.Json
  deserialize_data [] = no_value
  deserialize_data (b ∷ bs) = elim (r.decode_utf8 (b ∷ bs)) [
    | none ↦ raw (b ∷ bs)
    | some s ↦ elim (r.loads s) [ none ↦ text s | some v ↦ v ]
  ]

  -- Without the extension the payload is passed through as it is.
  abbrev pub by_rust : Packet → Bytes → Option Bytes
  by_rust p bs = elim r.decompress [ none ↦ some p.payload | some f ↦ f bs ]

  -- The payload behind the codec flags; `none` is an exception of a decompressor.
  unfoldable pub decompressed : Packet → Option Bytes
  decompressed p =
      if has_flag p.flags Flags.codec_lz4
      then by_rust p (1 ∷ p.payload)
      else if has_flag p.flags Flags.codec_zstd
      then by_rust p (2 ∷ p.payload)
      else if has_flag p.flags Flags.compressed
      then r.zlib_decompress p.payload
      else some p.payload

  abbrev pub response : RpcResponsePayload → Payload r.Json
  response p =
      if p.success
      then rpc_response true (deserialize_data p.result) none p.code
      else rpc_response false no_value (some p.error) p.code

  abbrev pub auth : AuthResponsePayload → Payload r.Json
  auth p = auth_response p.success p.session_token p.server_info p.reason

  unfoldable pub decode_payload : MessageType → Bytes → Option (Payload r.Json)
  unfolding deserialize_data
  decode_payload Format.message bs =
      Option.map (λ (p : MessagePayload). message p.message_type (deserialize_data p.contents))
        (r.message.parse bs)
  decode_payload Format.rpc_request bs =
      Option.map (λ (p : RpcRequestPayload). rpc_request p.method (deserialize_data p.params))
        (r.rpc_request.parse bs)
  decode_payload Format.rpc_response bs = Option.map response (r.rpc_response.parse bs)
  decode_payload Format.rpc_error bs = Option.map response (r.rpc_response.parse bs)
  decode_payload Format.auth_request bs =
      Option.map (λ (p : AuthRequestPayload). auth_request p.password_hash p.client_info)
        (r.auth_request.parse bs)
  decode_payload Format.auth_success bs = Option.map auth (r.auth_response.parse bs)
  decode_payload Format.auth_failure bs = Option.map auth (r.auth_response.parse bs)
  decode_payload _ bs = some (plain (deserialize_data bs))

  -- decode_single after the packet has been parsed: an exception here becomes DecodeError.
  abbrev pub assembled : Packet → Option (DecodedMessage r.Json)
  assembled p = elim (decompressed p) [
    | none ↦ none
    | some body ↦ elim (message_type_of p.packet_type) [
      | none ↦ none
      | some t ↦
          Option.map
            (λ content. record {
              header = header_of p t body;
              payload = content;
              raw_payload = body;
              route_src = p.route_src;
              route_dst = p.route_dst;
              is_mesh = p.is_mesh;
            })
            (decode_payload t body)
    ]
  ]

  unfoldable pub message_of : Packet → Decoded r.Json
  unfolding decompressed decode_payload
  message_of p = elim (assembled p) [ none ↦ decode_error | some m ↦ decoded m ]

  -- The bytes are a packet, or else a packet with its length in front.
  unfoldable pub decode_single : Bytes → Decoded r.Json
  decode_single bs =
      let size = be_value (take 4 bs) in
      elim (r.packet.parse bs) [
        | some p ↦ message_of p
        | none ↦
            if ltb (length bs) 4
            then incomplete (4 - length bs)
            else if ltb (length bs) (4 + size)
            then incomplete (4 + size - length bs)
            else elim (r.packet.parse (take size (drop 4 bs))) [
              | none ↦ decode_error
              | some p ↦ message_of p
            ]
      ]

  -- What a call of decode_one or decode_all gives; each raise is a DecodeError.
  pub data Step : Type 0 where
    nothing : Step
    one : DecodedMessage r.Json → Step
    raised : Step

  abbrev pub step_of : Decoded r.Json → Step
  step_of (decoded m) = one m
  step_of (incomplete n) = raised
  step_of decode_error = raised

  -- `decode_one`, with the buffer that it leaves. A length above 100 MB clears the buffer.
  unfoldable pub decode_one : Bytes → Step × Bytes
  decode_one buffer =
      let size = be_value (take 4 buffer) in
      if ltb (length buffer) 4
      then (nothing, buffer)
      else if ltb (100 * 1024 * 1024) size
      then (nothing, [])
      else if ltb (length buffer) (4 + size)
      then (nothing, buffer)
      else (step_of (decode_single (take size (drop 4 buffer))), drop size (drop 4 buffer))

  -- `decode_all` returns its list, or raises and drops it; `unfinished` is the end of the fuel.
  pub data Batch : Type 0 where
    returned : List (DecodedMessage r.Json) → Batch
    failed : Batch
    unfinished : Batch

  abbrev pub extend : DecodedMessage r.Json → Batch → Batch
  extend m (returned ms) = returned (m ∷ ms)
  extend m failed = failed
  extend m unfinished = unfinished

  abbrev pub prepend : DecodedMessage r.Json → Batch × Bytes → Batch × Bytes
  prepend m out = (extend m out.0, out.1)

  abbrev pub continue : Step × Bytes → (Bytes → Batch × Bytes) → Batch × Bytes
  continue (nothing, b) rest = (returned [], b)
  continue (one m, b) rest = prepend m (rest b)
  continue (raised, b) rest = (failed, b)

  unfoldable pub decode_loop : ℕ → Bytes → Batch × Bytes
  decode_loop zero b = (unfinished, b)
  decode_loop (suc fuel) b = continue (decode_one b) (λ b'. decode_loop fuel b')

  -- Each message takes at least four bytes of the buffer, so one round for each byte is enough.
  unfoldable pub decode_all : Bytes → Batch × Bytes
  unfolding decode_loop
  decode_all b = decode_loop (length b + 1) b

  unfoldable pub peek_header : Bytes → Option MessageHeader
  peek_header buffer =
      let size = be_value (take 4 buffer) in
      if ltb (length buffer) 4
      then none
      else if ltb (length buffer) (4 + size)
      then none
      else elim (r.packet.parse (take size (drop 4 buffer))) [
        | none ↦ none
        | some p ↦ Option.map (λ t. header_of p t p.payload) (message_type_of p.packet_type)
      ]
