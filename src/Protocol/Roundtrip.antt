-- ===== src/Protocol/Roundtrip.antt =====
-- What the encoder sends, the decoder reads back.
pub mod Messages
use mathlib.Core.List.{append_assoc}
use mathlib.Core.Option
use net_conduit.Base.{
  ℕ, zero, suc, ◌+◌, ◌≤◌, ◌<◌, ◌≡◌, refl, ap, sym, ◌∙◌, ◌⊎◌, inl, inr, Bool, not, ◌&&◌, ◌/◌, ◌%◌,
  true, false, String, Option, none, some, List, [], ◌∷◌, ◌++◌, arith, length, length-append, take,
  drop, take-append, drop-append, ltb, leb, ◌==◌, Bool-cases, Option-cases, if◌then◌else◌,
}
use net_conduit.Protocol.Bytes.{
  Bytes, pack_be, be_bytes, be_value, length-be_bytes, be_value-be_bytes, take-be_bytes,
  drop-be_bytes,
}
use net_conduit.Protocol.Format
use net_conduit.Protocol.Format.{MessageType, type_code, message_type_of, message_type_of-type_code}
use net_conduit.Protocol.Runtime.{
  Runtime, Value, no_value, raw, text, json, Packet, Reads, RefusesTagZero, packet_fits,
}
use net_conduit.Protocol.Compression.{
  Crates, IsExact, compress_bytes, decompress_bytes, decompress_bytes-compress_bytes,
}
use net_conduit.Protocol.Encoder.{
  ProtocolEncoder, Options, defaults, or_else, compress, by_codec, is_empty, frame, make_packet,
  send, is_rpc_request, encode, encode_message, encode_rpc_request, serialize_data,
}
use net_conduit.Protocol.Decoder.{
  Payload, DecodedMessage, Decoded, decoded, header_of, decompressed, decode_payload, assembled,
  message_of, decode_single, deserialize_data,
}
use net_conduit.Protocol.Decoder.Stream.{max_length}

-- The extension is missing on both sides, or it is installed on both, with crates that read back
-- what they wrote.
abbrev pub IsLossless : Runtime → Type 0
IsLossless r =
    ((r.compress ≡ none) × (r.decompress ≡ none))
    ⊎ ((c : Crates) × (r.compress ≡ some (compress_bytes c))
        × (r.decompress ≡ some (decompress_bytes c))
        × IsExact c)

take_self : (bs : Bytes) → take (length bs) bs ≡ bs
take_self [] = refl
take_self (b ∷ bs) = ap (λ l. b ∷ l) (take_self bs)

module _ (r : Runtime) where
  by_codec-undone :
      (payload out : Bytes) (g : Bytes → Option Bytes) (p : Packet)
      → r.decompress ≡ some g
      → g out ≡ some payload
      → p.payload ≡ (by_codec payload out 0).0
      → p.flags ≡ (by_codec payload out 0).1
      → decompressed r p ≡ some payload
  unfolding decompressed
  by_codec-undone payload [] g p d u e f = ground arith
  by_codec-undone payload (codec ∷ rest) g p d u e f = ground arith

  plain_payload :
      (payload : Bytes) (p : Packet)
      → p.payload ≡ payload
      → p.flags ≡ 0
      → decompressed r p ≡ some payload
  unfolding decompressed
  plain_payload payload p e f = ground arith

  -- What `compress` made of a payload, the codec flags undo.
  compress-undone :
      (payload : Bytes) (p : Packet)
      → IsLossless r
      → p.payload ≡ (compress r payload 0).0
      → p.flags ≡ (compress r payload 0).1
      → decompressed r p ≡ some payload
  unfolding compress
  compress-undone payload p (inl l) e f = ground (arith, plain_payload payload p)
  compress-undone payload p (inr (c, x, y, exact)) e k = ground (
    arith,
    x,
    plain_payload payload p,
    by_codec-undone payload (compress_bytes c payload) (decompress_bytes c) p y
        (decompress_bytes-compress_bytes c payload exact),
  )

  decompressed-make_packet :
      (compressing : Bool) (t : MessageType) (payload : Bytes) (o : Options) (c now : ℕ)
      → IsLossless r
      → o.flags ≡ 0
      → decompressed r (make_packet r compressing t payload o c now) ≡ some payload
  unfolding make_packet
  decompressed-make_packet compressing t payload o c now l z =
      elim (Bool-cases (compressing && not (is_empty payload))) [
        | inl small ↦
            compress-undone payload (make_packet r compressing t payload o c now) l
              (rw (small, z) refl) (rw (small, z) refl)
        | inr whole ↦
            plain_payload payload (make_packet r compressing t payload o c now) (rw whole refl)
              (rw whole z)
      ]

  -- the message that a packet of the encoder is decoded to
  abbrev pub received : Packet → MessageType → Bytes → Payload r.Json → DecodedMessage r.Json
  received p t payload content = record {
    header = header_of p t payload;
    payload = content;
    raw_payload = payload;
    route_src = p.route_src;
    route_dst = p.route_dst;
    is_mesh = p.is_mesh;
  }

  packet_type-make_packet :
      (compressing : Bool) (t : MessageType) (payload : Bytes) (o : Options) (c now : ℕ)
      → (make_packet r compressing t payload o c now).packet_type ≡ type_code t
  unfolding make_packet
  packet_type-make_packet compressing t payload o c now = refl

  message_of-make_packet :
      (compressing : Bool) (t : MessageType) (payload : Bytes) (o : Options) (c now : ℕ)
      (content : Payload r.Json)
      → IsLossless r
      → o.flags ≡ 0
      → decode_payload r t payload ≡ some content
      → message_of r (make_packet r compressing t payload o c now)
        ≡ decoded (received (make_packet r compressing t payload o c now) t payload content)
  unfolding message_of
  message_of-make_packet compressing t payload o c now content l z d = ground (
    arith,
    decompressed-make_packet compressing t payload o c now l z,
    packet_type-make_packet compressing t payload o c now,
    message_type_of-type_code t,
  )

  -- the bytes that `frame` makes
  abbrev pub wire_bytes : Packet → Bytes
  wire_bytes p = be_bytes 4 (length (r.packet.serialize p)) ++ r.packet.serialize p

  frame-eq :
      (p : Packet) → length (r.packet.serialize p) ≤ max_length → frame r p ≡ some (wire_bytes p)
  unfolding frame pack_be
  frame-eq p size = ground arith

  -- The bytes of a frame are read by `decode_single` past their prefix: the frame itself is no
  -- packet, since its first byte is below 8.
  first_byte :
      (n : ℕ)
      → n ≤ max_length
      → (bs : Bytes) → (b : ℕ) × (rest : Bytes) × (be_bytes 4 n ++ bs ≡ b ∷ rest) × (b < 8)
  unfolding be_bytes
  first_byte n h bs = (n / 256 / 256 / 256 % 256, _, refl, omega arith)

  frame_is_no_packet :
      (p : Packet)
      → RefusesTagZero r.packet
      → length (r.packet.serialize p) ≤ max_length
      → r.packet.parse (wire_bytes p) ≡ none
  frame_is_no_packet p tag size =
      let (b, rest, e, h) =
        first_byte (length (r.packet.serialize p)) size (r.packet.serialize p) in
      rw e (tag b rest h)

  decode_single_prefixed :
      (bs body : Bytes) (p : Packet)
      → r.packet.parse bs ≡ none
      → length bs ≡ 4 + length body
      → be_value (take 4 bs) ≡ length body
      → drop 4 bs ≡ body
      → r.packet.parse body ≡ some p
      → decode_single r bs ≡ message_of r p
  unfolding decode_single
  decode_single_prefixed bs body p n l v d s = ground (arith, take_self body)

  decode_single-frame :
      (p : Packet)
      → Reads r.packet p
      → RefusesTagZero r.packet
      → length (r.packet.serialize p) ≤ max_length
      → decode_single r (wire_bytes p) ≡ message_of r p
  decode_single-frame p reads tag size =
      let body = r.packet.serialize p in
      decode_single_prefixed (wire_bytes p) body p (frame_is_no_packet p tag size)
        (rw length-append (rw length-be_bytes refl))
        (rw take-be_bytes (be_value-be_bytes 4 (length body) (omega arith)))
        (drop-be_bytes 4 (length body) body) reads

  -- The correlation id that `encode` sends: the one given, or 0 for no request.
  abbrev pub Settled : MessageType → Option ℕ → ℕ → Type 0
  Settled t given c = (given ≡ some c) ⊎ ((given ≡ none) × (is_rpc_request t ≡ false) × (c ≡ 0))

  -- Let `encode` be called with no flags and with an id, or for no RPC request, on a type and a payload that decodes to
  -- `content`, and let `p` be the packet that it makes, which fits, is at most 100 MB and is read
  -- back by protobuf; then `encode` returns bytes, and `decode_single` reads them as the message
  -- with the encoder's header fields, the uncompressed payload and that content, whether it was
  -- compressed on the way or not.
  pub encode-decode :
      (t : MessageType) (payload : Bytes) (content : Payload r.Json) (o : Options) (c now : ℕ)
      (e : ProtocolEncoder) (p : Packet)
      → IsLossless r
      → RefusesTagZero r.packet
      → o.flags ≡ 0
      → Settled t o.correlation_id c
      → decode_payload r t payload ≡ some content
      → p ≡ make_packet r e.enable_compression t payload o c now
      → packet_fits p ≡ true
      → Reads r.packet p
      → length (r.packet.serialize p) ≤ max_length
      → (encode r t payload o now e ≡ (e, some (wire_bytes p)))
        × (decode_single r (wire_bytes p) ≡ decoded (received p t payload content))
  unfolding encode
  encode-decode t payload content o c now e p l tag z id d made fits reads size = (
    elim id [
      | inl given ↦ ground (arith, frame-eq p size)
      | inr (missing, plain, zeroed) ↦ ground (arith, frame-eq p size)
    ],
    decode_single-frame p reads tag size
        ∙ rw made (message_of-make_packet e.enable_compression t payload o c now content l z d),
  )
