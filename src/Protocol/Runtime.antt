-- ===== src/Protocol/Runtime.antt =====
-- What conduit/protocol/encoder.py and decoder.py use and do not implement: the protobuf runtime
-- over the schema of conduit/protocol/protocol_pb2.py, JSON, UTF-8, zlib and the compression of the
-- Rust extension. They are functions of a record; what the theorems rely on is a named hypothesis.
use net_conduit.Base.{ℕ, ◌<◌, ◌^◌, ◌≡◌, String, Bool, ◌&&◌, Option, none, some, ltb, ◌∷◌}
use net_conduit.Protocol.Bytes.{Bytes}

-- A Python value as the encoder and the decoder tell them apart: None, bytes, str, and any other
-- (`json`: a number, a list, a dict, ...).
pub data Value (Json : Type 0) : Type 0 where
  no_value : Value Json
  raw : Bytes → Value Json
  text : String → Value Json
  json : Json → Value Json

-- The messages of the schema, by their fields.
pub record Packet : Type 0 where
  pub version : ℕ
  pub packet_type : ℕ
  pub flags : ℕ
  pub correlation_id : ℕ
  pub timestamp : ℕ
  pub payload : Bytes
  pub route_src : String
  pub route_dst : String
  pub is_mesh : Bool

pub record MessagePayload : Type 0 where
  pub message_type : String
  pub contents : Bytes

pub record RpcRequestPayload : Type 0 where
  pub method : String
  pub params : Bytes

pub record RpcResponsePayload : Type 0 where
  pub success : Bool
  pub result : Bytes
  pub error : String
  pub code : ℕ

-- A map<string, string>, by its lookups.
abbrev pub Info : Type 0
Info = String → Option String

pub record AuthRequestPayload : Type 0 where
  pub password_hash : String
  pub client_info : Info
  pub protocol_version : String

pub record AuthResponsePayload : Type 0 where
  pub success : Bool
  pub session_token : String
  pub server_info : Info
  pub heartbeat_interval : ℕ
  pub reason : String

-- SerializeToString and ParseFromString of a message; `none` is DecodeError.
pub record Wire (M : Type 0) : Type 0 where
  pub serialize : M → Bytes
  pub parse : Bytes → Option M

pub record Runtime : Type 1 where
  pub Json : Type 0
  pub packet : Wire Packet
  pub message : Wire MessagePayload
  pub rpc_request : Wire RpcRequestPayload
  pub rpc_response : Wire RpcResponsePayload
  pub auth_request : Wire AuthRequestPayload
  pub auth_response : Wire AuthResponsePayload
  -- json.loads and json.dumps; `none` where they raise
  pub loads : String → Option (Value Json)
  pub dumps : Json → Option String
  -- str.encode('utf-8') and bytes.decode('utf-8')
  pub encode_utf8 : String → Bytes
  pub decode_utf8 : Bytes → Option String
  -- compress_payload and decompress_payload where the extension is installed
  pub compress : Option (Bytes → Bytes)
  pub decompress : Option (Bytes → Option Bytes)
  pub zlib_decompress : Bytes → Option Bytes

-- Protobuf reads back a message that it wrote.
abbrev pub Reads : {M : Type 0} → Wire M → M → Type 0
Reads w m = w.parse (w.serialize m) ≡ some m

-- In protobuf's wire format a field number 0 is illegal: bytes that begin with a tag below 8 are
-- no message.
abbrev pub RefusesTagZero : {M : Type 0} → Wire M → Type 0
RefusesTagZero w = (b : ℕ) (bs : Bytes) → b < 8 → w.parse (b ∷ bs) ≡ none

-- The integers of a Packet are uint32, enum (int32) and uint64; a constructor call with a value
-- outside raises ValueError.
unfoldable pub packet_fits : Packet → Bool
packet_fits p =
    ltb p.version (2 ^ 32)
    && ltb p.packet_type (2 ^ 31)
    && ltb p.flags (2 ^ 32)
    && ltb p.correlation_id (2 ^ 64)
    && ltb p.timestamp (2 ^ 64)
