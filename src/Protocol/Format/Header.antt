-- ===== src/Protocol/Format/Header.antt =====
-- `MessageHeader` of conduit/protocol/format.py: the struct '>4sHHHHIQQ', its checks and its
-- classification.
use net_conduit.Base.{
  ℕ, zero, suc, ◌^◌, ◌<◌, Bool, true, false, not, ◌&&◌, ◌||◌, Option, none, some, List, [], ◌∷◌,
  ◌++◌, ltb, ◌==◌, if◌then◌else◌, length, take, drop,
}
use net_conduit.Protocol.Bytes.{Bytes, be_value, pack_be}
use net_conduit.Protocol.Format
use net_conduit.Protocol.Format.Flags
use net_conduit.Protocol.Format.{
  MessageType, ByteOrder, be, le, magic_bytes, header_size, max_payload_size, protocol_version,
  message_type_of, type_code, type_in, has_flag, stream_unordered, message_type_of-type_code,
}

pub record MessageHeader : Type 0 where
  pub magic : Bytes
  pub version : ℕ
  pub message_type : MessageType
  pub flags : ℕ
  pub reserved : ℕ
  pub content_length : ℕ
  pub correlation_id : ℕ
  pub timestamp : ℕ
  pub sequence_id : ℕ
  pub stream_id : ℕ
  pub byte_order : ByteOrder

-- What from_bytes and validate raise: each is a ValueError, and `unpack` is struct.error.
pub data HeaderError : Type 0 where
  header_too_short invalid_magic unknown_type unsupported_version payload_too_large : HeaderError

pub data HeaderResult : Type 0 where
  header : MessageHeader → HeaderResult
  raised : HeaderError → HeaderResult

-- `create`; `now` is int(time.time() * 1000), which is read where no timestamp is given.
unfoldable pub create :
    MessageType → ℕ → ℕ → ℕ → Option ℕ → ℕ → ℕ → ByteOrder → (now : ℕ) → MessageHeader
create t content_length correlation_id flags timestamp sequence_id stream_id order now = record {
  magic = magic_bytes;
  version = protocol_version;
  message_type = t;
  flags = flags;
  reserved = 0;
  content_length = content_length;
  correlation_id = correlation_id;
  timestamp = elim timestamp [ none ↦ now | some ts ↦ ts ];
  sequence_id = sequence_id;
  stream_id = stream_id;
  byte_order = order;
}

-- The format '4s' cuts its bytes to four, or pads them with zeros.
unfoldable pub pad : ℕ → Bytes → Bytes
pad zero bs = []
pad (suc n) [] = 0 ∷ pad n []
pad (suc n) (b ∷ bs) = b ∷ pad n bs

abbrev pub joined : Option Bytes → Option Bytes → Option Bytes
joined (some bs) (some cs) = some (bs ++ cs)
joined _ _ = none

-- struct.pack of unsigned big-endian integers, each with its width; `none` is struct.error.
unfoldable pub pack_fields : List (ℕ × ℕ) → Option Bytes
unfolding pack_be
pack_fields [] = some []
pack_fields ((width, v) ∷ fs) = joined (pack_be width v) (pack_fields fs)

unfoldable pub unpack_fields : List ℕ → Bytes → List ℕ
unpack_fields [] bs = []
unpack_fields (w ∷ ws) bs = be_value (take w bs) ∷ unpack_fields ws (drop w bs)

-- the widths of 'HHHHIQQ', with the values of a header
abbrev pub int_fields : MessageHeader → List (ℕ × ℕ)
int_fields h =
    (2, h.version)
    ∷ (2, type_code h.message_type)
    ∷ (2, h.flags)
    ∷ (2, h.reserved)
    ∷ (4, h.content_length)
    ∷ (8, h.correlation_id)
    ∷ (8, h.timestamp)
    ∷ []

unfoldable pub to_bytes : MessageHeader → Option Bytes
to_bytes h = joined (some (pad 4 h.magic)) (pack_fields (int_fields h))

abbrev pub bytes_eq : Bytes → Bytes → Bool
bytes_eq [] [] = true
bytes_eq (a ∷ r) (b ∷ s) = a == b && bytes_eq r s
bytes_eq _ _ = false

-- The fields that are not in the struct take the defaults of the dataclass.
abbrev pub of_fields : Bytes → List ℕ → HeaderResult
of_fields magic (v ∷ t ∷ f ∷ r ∷ l ∷ c ∷ ts ∷ []) = elim (message_type_of t) [
  | none ↦ raised unknown_type
  | some ty ↦ header (record {
    magic = magic;
    version = v;
    message_type = ty;
    flags = f;
    reserved = r;
    content_length = l;
    correlation_id = c;
    timestamp = ts;
    sequence_id = 0;
    stream_id = 0;
    byte_order = be;
  })
]
of_fields magic _ = raised header_too_short

unfoldable pub from_bytes : Bytes → HeaderResult
from_bytes bs =
    let magic = take 4 bs in
    let ints = unpack_fields (2 ∷ 2 ∷ 2 ∷ 2 ∷ 4 ∷ 8 ∷ 8 ∷ []) (drop 4 (take header_size bs)) in
    if ltb (length bs) header_size
    then raised header_too_short
    else if not (bytes_eq magic magic_bytes)
    then raised invalid_magic
    else of_fields magic ints

-- `none` where `validate` returns
unfoldable pub validate : MessageHeader → Option HeaderError
validate h =
    if not (bytes_eq h.magic magic_bytes)
    then some invalid_magic
    else if not (h.version == protocol_version)
    then some unsupported_version
    else if ltb max_payload_size h.content_length
    then some payload_too_large
    else none

unfoldable pub is_control_message : MessageHeader → Bool
unfolding type_in
is_control_message h = type_in h.message_type (
    Format.heartbeat_ping ∷ Format.heartbeat_pong ∷ Format.pause ∷ Format.resume ∷ Format.ack
    ∷ Format.nack ∷ Format.close ∷ Format.close_ack ∷ [])

unfoldable pub is_rpc : MessageHeader → Bool
unfolding type_in
is_rpc h =
    type_in h.message_type
      (Format.rpc_request ∷ Format.rpc_response ∷ Format.rpc_error ∷ Format.rpc_list ∷ [])

unfoldable pub is_auth : MessageHeader → Bool
unfolding type_in
is_auth h =
    type_in h.message_type (Format.auth_request ∷ Format.auth_success ∷ Format.auth_failure ∷ [])

unfoldable pub is_ordered : MessageHeader → Bool
is_ordered h = has_flag h.flags Flags.ordered && not (h.stream_id == stream_unordered)

abbrev is_le : ByteOrder → Bool
is_le be = false
is_le le = true

unfoldable pub payload_byte_order : MessageHeader → ByteOrder
payload_byte_order h = if is_le h.byte_order || has_flag h.flags Flags.byte_order_le then le else be

-- Every integer fits its field of the struct.
pub record Fits (h : MessageHeader) : Type 0 where
  pub version : h.version < 2 ^ 16
  pub flags : h.flags < 2 ^ 16
  pub reserved : h.reserved < 2 ^ 16
  pub content_length : h.content_length < 2 ^ 32
  pub correlation_id : h.correlation_id < 2 ^ 64
  pub timestamp : h.timestamp < 2 ^ 64
