-- ===== src/Protocol/Roundtrip/Messages.antt =====
-- The round trip of the methods that send application messages and requests, and of their data.
use mathlib.Core.Option
use net_conduit.Base.{
  ℕ, ◌≤◌, ◌≡◌, refl, ◌≢◌, inl, inr, true, String, Option, none, some, [], ◌∷◌, arith, length,
}
use net_conduit.Protocol.Bytes.{Bytes}
use net_conduit.Protocol.Format
use net_conduit.Protocol.Format.{MessageType}
use net_conduit.Protocol.Runtime.{
  Runtime, Value, no_value, raw, text, json, Packet, MessagePayload, RpcRequestPayload, Reads,
  RefusesTagZero, packet_fits,
}
use net_conduit.Protocol.Encoder.{
  ProtocolEncoder, defaults, or_else, make_packet, encode_message, serialize_data,
}
use net_conduit.Protocol.Decoder.{decoded, decode_payload, decode_single, deserialize_data, message}
use net_conduit.Protocol.Decoder.Stream.{max_length}
use net_conduit.Protocol.Roundtrip.{IsLossless, Settled, wire_bytes, received, encode-decode}

module _ (r : Runtime) where
  abbrev pub message_payload : String → Bytes → MessagePayload
  message_payload s bs = record { message_type = s; contents = bs }

  abbrev pub request_payload : String → Bytes → RpcRequestPayload
  request_payload s bs = record { method = s; params = bs }

  decode_payload-message :
      (s : String) (bs : Bytes)
      → Reads r.message (message_payload s bs)
      → decode_payload r Format.message (r.message.serialize (message_payload s bs))
        ≡ some (message s (deserialize_data r bs))
  unfolding decode_payload
  decode_payload-message s bs h = rw h refl

  Settled-message : (given : Option ℕ) → Settled r Format.message given (or_else given 0)
  Settled-message none = inr (refl, refl, refl)
  Settled-message (some c) = inl refl

  -- Let the compression extension be missing on both sides, or installed on both, with the crates
  -- lz4_flex and zstd reading back what they wrote; and let protobuf refuse bytes that begin with a
  -- tag of field 0, as its format says. Let `encode_message` be called with data that is serialized
  -- to `bs`, and let `p` be the packet that it makes, compressed or not, which fits, is at most
  -- 100 MB and is read back by protobuf, as its payload is;
  -- then the encoder returns bytes, and `decode_single` reads them as a MESSAGE with the type that
  -- was sent and the data that `bs` is deserialized to.
  pub encode_message-decode :
      (s : String) (contents : Value r.Json) (bs : Bytes) (given : Option ℕ) (now : ℕ)
      (e : ProtocolEncoder) (p : Packet)
      → IsLossless r
      → RefusesTagZero r.packet
      → serialize_data r contents ≡ some bs
      → Reads r.message (message_payload s bs)
      → p
        ≡ make_packet r e.enable_compression Format.message
            (r.message.serialize (message_payload s bs))
            (record defaults { correlation_id = given })
            (or_else given 0)
            now
      → packet_fits p ≡ true
      → Reads r.packet p
      → length (r.packet.serialize p) ≤ max_length
      → (encode_message r s contents given now e ≡ (e, some (wire_bytes r p)))
        × (decode_single r (wire_bytes r p)
            ≡ decoded (
                received r p Format.message
                  (r.message.serialize (message_payload s bs))
                  (message s (deserialize_data r bs))))
  unfolding encode_message
  encode_message-decode s contents bs given now e p l tag w rm made fits reads size =
      let out =
        encode-decode r Format.message (r.message.serialize (message_payload s bs))
          (message s (deserialize_data r bs)) (record defaults { correlation_id = given })
          (or_else given 0) now e p l tag refl (Settled-message given)
          (decode_payload-message s bs rm) made fits reads size in
      (rw w out.0, out.1)

  -- The data that comes back as it was sent: None; a dict, list, number or boolean that JSON
  -- writes and reads back; a str that is not the text of a JSON value; bytes that are not UTF-8.
  abbrev pub IsStable : Value r.Json → Type 0
  IsStable no_value = Unit
  IsStable (raw bs) = (bs ≢ []) × (r.decode_utf8 bs ≡ none)
  IsStable (text s) =
      (r.encode_utf8 s ≢ []) × (r.decode_utf8 (r.encode_utf8 s) ≡ some s) × (r.loads s ≡ none)
  IsStable (json j) =
      (s : String) × (r.dumps j ≡ some s)
      × (r.encode_utf8 s ≢ [])
      × (r.decode_utf8 (r.encode_utf8 s) ≡ some s)
      × (r.loads s ≡ some (json j))

  abbrev pub carried : Value r.Json → Option (Value r.Json)
  carried v = Option.map (deserialize_data r) (serialize_data r v)

  deserialize-nonempty :
      (bs : Bytes) {s : String}
      → bs ≢ []
      → r.decode_utf8 bs ≡ some s
      → deserialize_data r bs ≡ Option.get_or (r.loads s) (text s)
  unfolding deserialize_data
  deserialize-nonempty [] h d = absurd (h refl)
  deserialize-nonempty (b ∷ bs) h d = ground arith

  -- Stable data is carried through serialization unchanged.
  carried_stable : (v : Value r.Json) → IsStable v → carried v ≡ some v
  unfolding serialize_data deserialize_data
  carried_stable no_value h = refl
  carried_stable (raw []) h = absurd (h.0 refl)
  carried_stable (raw (b ∷ bs)) h = ground arith
  carried_stable (text s) h = ground (arith, deserialize-nonempty (r.encode_utf8 s) h.0 h.1)
  carried_stable (json j) (s, d, n, u, l) =
      ground (arith, deserialize-nonempty (r.encode_utf8 s) n u)

  -- A str that is the text of a JSON value arrives as that value, not as the str that was sent.
  carried_text_misread :
      (s : String) (v : Value r.Json)
      → r.encode_utf8 s ≢ []
      → r.decode_utf8 (r.encode_utf8 s) ≡ some s
      → r.loads s ≡ some v
      → carried (text s) ≡ some v
  unfolding serialize_data deserialize_data
  carried_text_misread s v n u l = ground (arith, deserialize-nonempty (r.encode_utf8 s) n u)
