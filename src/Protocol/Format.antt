-- ===== src/Protocol/Format.antt =====
-- conduit/protocol/format.py: constants, byte orders, message types and flags, stream ids and the
-- 32-byte legacy header. Python's integers that `struct` packs are natural numbers here.
pub mod Flags
pub mod Header
pub mod Roundtrip
use Prim.Native.Nat.{bit_and, bit_or}
use mathlib.Core.List.{reverse}
use net_conduit.Base.{
  ℕ, zero, suc, ◌+◌, ◌*◌, ◌%◌, ◌^◌, ◌≤◌, ◌<◌, ◌≡◌, refl, Bool, true, false, not, ◌&&◌, ◌||◌, Option,
  none, some, List, [], ◌∷◌, ◌++◌, arith, ltb, leb, ◌==◌, if◌then◌else◌, length, take, drop,
}
use net_conduit.Protocol.Bytes.{Bytes, le_value, be_value, pack_be, pack_le}

-- b'CNDT'
abbrev pub magic_bytes : Bytes
magic_bytes = 0x43 ∷ 0x4e ∷ 0x44 ∷ 0x54 ∷ []

abbrev pub header_size : ℕ
header_size = 32

abbrev pub max_payload_size : ℕ
max_payload_size = 100 * 1024 * 1024

abbrev pub protocol_version : ℕ
protocol_version = 0x0100

pub data ByteOrder : Type 0 where
  be le : ByteOrder

unfoldable pub pack_uint : ByteOrder → ℕ → ℕ → Option Bytes
unfolding pack_be pack_le
pack_uint be width v = pack_be width v
pack_uint le width v = pack_le width v

unfoldable pub pack_u32 : ByteOrder → ℕ → Option Bytes
unfolding pack_uint
pack_u32 order v = pack_uint order 4 v

unfoldable pub pack_u64 : ByteOrder → ℕ → Option Bytes
unfolding pack_uint
pack_u64 order v = pack_uint order 8 v

-- struct.unpack_from: `none` where the buffer is too short
unfoldable pub unpack_uint : ByteOrder → ℕ → Bytes → ℕ → Option ℕ
unpack_uint order width bs offset =
    let window = take width (drop offset bs) in
    if ltb (length bs) (offset + width)
    then none
    else some (elim order [ be ↦ be_value window | le ↦ le_value window ])

unfoldable pub unpack_u32 : ByteOrder → Bytes → ℕ → Option ℕ
unfolding unpack_uint
unpack_u32 order bs offset = unpack_uint order 4 bs offset

unfoldable pub unpack_u64 : ByteOrder → Bytes → ℕ → Option ℕ
unfolding unpack_uint
unpack_u64 order bs offset = unpack_uint order 8 bs offset

pub data MessageType : Type 0 where
  message rpc_request rpc_response rpc_error heartbeat_ping heartbeat_pong : MessageType
  auth_request auth_success auth_failure pause resume ack nack close close_ack rpc_list :
      MessageType

-- int(message_type)
abbrev pub type_code : MessageType → ℕ
type_code message = 0x0001
type_code rpc_request = 0x0002
type_code rpc_response = 0x0003
type_code rpc_error = 0x0004
type_code heartbeat_ping = 0x0005
type_code heartbeat_pong = 0x0006
type_code auth_request = 0x0007
type_code auth_success = 0x0008
type_code auth_failure = 0x0009
type_code pause = 0x000a
type_code resume = 0x000b
type_code ack = 0x000c
type_code nack = 0x000d
type_code close = 0x000e
type_code close_ack = 0x000f
type_code rpc_list = 0x0010

abbrev pub all_types : List MessageType
all_types =
    message ∷ rpc_request ∷ rpc_response ∷ rpc_error ∷ heartbeat_ping ∷ heartbeat_pong
    ∷ auth_request ∷ auth_success ∷ auth_failure ∷ pause ∷ resume ∷ ack ∷ nack ∷ close ∷ close_ack
    ∷ rpc_list ∷ []

unfoldable pub find_type : ℕ → List MessageType → Option MessageType
find_type code [] = none
find_type code (t ∷ ts) = if type_code t == code then some t else find_type code ts

-- MessageType(code): `none` where it raises ValueError
unfoldable pub message_type_of : ℕ → Option MessageType
unfolding find_type
message_type_of code = find_type code all_types

-- `message_type in (…)`
unfoldable pub type_in : MessageType → List MessageType → Bool
type_in t [] = false
type_in t (u ∷ us) = type_code t == type_code u || type_in t us

-- bool(flags & flag)
abbrev pub has_flag : ℕ → ℕ → Bool
has_flag flags flag = not (bit_and flags flag == 0)

abbrev pub stream_unordered : ℕ
stream_unordered = 0

-- ((category & 0xFFFF) << 16) | (index & 0xFFFF): the masks are remainders and the shift is a
-- product; the two parts share no bit, so their `|` is their sum.
unfoldable pub make_stream_id : ℕ → ℕ → ℕ
make_stream_id category index = (category % 2 ^ 16) * 2 ^ 16 + index % 2 ^ 16

-- The code of each type is that type's alone.
pub message_type_of-type_code : (t : MessageType) → message_type_of (type_code t) ≡ some t
unfolding message_type_of
message_type_of-type_code message = refl
message_type_of-type_code _ = refl
