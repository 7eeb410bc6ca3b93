-- ===== src/Protocol/Examples.antt =====
-- The protocol over a small runtime: packets that differ in their payload only, messages of one
-- type, the JSON values that are numbers, and two texts.
use net_conduit.Base.{
  ℕ, ◌≡◌, refl, ◌≢◌, inr, zero, suc, Bool, true, false, String, Option, none, some, List, [], ◌∷◌,
  ◌++◌, arith, length, ◌==◌, str_eq, if◌then◌else◌,
}
use net_conduit.Protocol.Bytes.{Bytes, be_bytes}
use net_conduit.Protocol.Format
use net_conduit.Protocol.Format.Header.{MessageHeader, header, to_bytes, from_bytes}
use net_conduit.Protocol.Format.Roundtrip.{from_bytes-to_bytes}
use net_conduit.Protocol.Runtime.{
  Runtime, Value, raw, text, json, Packet, MessagePayload, Wire, RefusesTagZero, packet_fits,
}
use net_conduit.Protocol.Compression.{
  Crates, IsExact, compress_bytes, decompress_bytes, select_codec,
}
use net_conduit.Protocol.Encoder.{
  ProtocolEncoder, compress, make_packet, serialize_data, encode_message,
}
use net_conduit.Protocol.Decoder.{
  decoded, decode_single, deserialize_data, message_of, message, returned, failed, decode_all,
}
use net_conduit.Protocol.Decoder.Stream.{Item, IsGood, frames, messages}
use net_conduit.Protocol.Decoder.Reads.{receive, receive-frames}
use net_conduit.Protocol.Decoder.Failure.{frame_of, decode_all_loses}
use net_conduit.Protocol.Roundtrip.{wire_bytes, received}
use net_conduit.Protocol.Roundtrip.Messages.{encode_message-decode}

abbrev packet_with : Bytes → Packet
packet_with bs = record {
  version = 256;
  packet_type = 1;
  flags = 0;
  correlation_id = 7;
  timestamp = 1000;
  payload = bs;
  route_src = "";
  route_dst = "";
  is_mesh = false;
}

abbrev parse_packet : Bytes → Option Packet
parse_packet [] = none
parse_packet (b ∷ bs) = if b == 8 then some (packet_with bs) else none

abbrev packets : Wire Packet
packets = record { serialize = λ p. 8 ∷ p.payload; parse = parse_packet }

abbrev chats : Wire MessagePayload
chats = record {
  serialize = λ m. m.contents;
  parse = λ bs. some (record { message_type = "chat"; contents = bs });
}

abbrev unread : {M : Type 0} → Wire M
unread = record { serialize = λ _. []; parse = λ _. none }

abbrev decode_text : Bytes → Option String
decode_text [] = some ""
decode_text (b ∷ bs) = if b == 104 then some "hi" else if b == 55 then some "7" else none

abbrev encode_text : String → Bytes
encode_text s = if str_eq s "hi" then 104 ∷ 105 ∷ [] else 55 ∷ []

abbrev sample : Runtime
sample = record {
  Json = ℕ;
  packet = packets;
  message = chats;
  rpc_request = unread;
  rpc_response = unread;
  auth_request = unread;
  auth_response = unread;
  loads = λ s. if str_eq s "7" then some (json 7) else none;
  dumps = λ _. some "7";
  encode_utf8 = encode_text;
  decode_utf8 = decode_text;
  compress = none;
  decompress = none;
  zlib_decompress = λ _. none;
}

sample-RefusesTagZero : RefusesTagZero packets
sample-RefusesTagZero b bs h = ground arith

abbrev hello : Packet
hello = packet_with (104 ∷ 105 ∷ [])

abbrev seven : Packet
seven = packet_with (55 ∷ [])

abbrev item : Packet → Value ℕ → Item sample
item p v = (p, received sample p Format.message p.payload (message "chat" v))

abbrev items : List (Item sample)
items = item hello (text "hi") ∷ item seven (json 7) ∷ []

item-IsGood : (IsGood sample (item hello (text "hi"))) × (IsGood sample (item seven (json 7)))
unfolding message_of Format.message_type_of
item-IsGood = ((omega arith, refl, refl), (omega arith, refl, refl))

-- the stream in reads that cut through a prefix and through a packet
abbrev reads : List Bytes
reads = (0 ∷ 0 ∷ 0 ∷ []) ∷ (3 ∷ 8 ∷ 104 ∷ []) ∷ [] ∷ (105 ∷ 0 ∷ 0 ∷ 0 ∷ 2 ∷ 8 ∷ []) ∷ (55 ∷ []) ∷ []

receive-frames_example : receive sample reads [] ≡ (returned (messages sample items), [])
unfolding be_bytes
receive-frames_example = receive-frames sample items reads (item-IsGood.0, (item-IsGood.1, tt)) refl

decode_all_loses_example :
    decode_all sample (frames sample items ++ (frame_of (9 ∷ []) ++ [])) ≡ (failed, [])
unfolding decode_single
decode_all_loses_example =
    decode_all_loses sample items (9 ∷ []) [] (item-IsGood.0, (item-IsGood.1, tt)) (omega arith)
      refl

abbrev legacy : MessageHeader
legacy = record {
  magic = Format.magic_bytes;
  version = 256;
  message_type = Format.rpc_list;
  flags = 0x0201;
  reserved = 0;
  content_length = 70_000;
  correlation_id = 5;
  timestamp = 1_700_000_000_000;
  sequence_id = 9;
  stream_id = 3;
  byte_order = Format.le;
}

from_bytes-to_bytes_example :
    (bs : Bytes) × (to_bytes legacy ≡ some bs)
    × (length bs ≡ 32)
    × (from_bytes bs
        ≡ header (record legacy { sequence_id = 0; stream_id = 0; byte_order = Format.be }))
from_bytes-to_bytes_example = from_bytes-to_bytes legacy refl (record {
  version = omega arith;
  flags = omega arith;
  reserved = omega arith;
  content_length = omega arith;
  correlation_id = omega arith;
  timestamp = omega arith;
})

abbrev encoder : ProtocolEncoder
encoder = record { enable_compression = true; correlation_counter = 3 }

-- A runtime with the extension, over crates that write a run of the byte 65 as its length; its packets
-- carry their flags.
abbrev is_run : Bytes → Bool
is_run [] = true
is_run (b ∷ bs) = if b == 65 then is_run bs else false

abbrev run_of : ℕ → Bytes
run_of zero = []
run_of (suc n) = 65 ∷ run_of n

run_of-length : (bs : Bytes) → is_run bs ≡ true → run_of (length bs) ≡ bs
run_of-length [] h = refl
run_of-length (b ∷ bs) h = ground (arith, h, run_of-length bs)

abbrev unpacked : Bytes → Option Bytes
unpacked [] = none
unpacked (b ∷ []) = if b == 1 then some [] else none
unpacked (b ∷ (n ∷ bs)) = if b == 0 then some (run_of n) else some (n ∷ bs)

abbrev runs : Crates
runs = record {
  lz4_compress = λ bs. if is_run bs then 0 ∷ length bs ∷ [] else 1 ∷ bs;
  lz4_decompress = unpacked;
  zstd_encode = λ level bs. bs;
  zstd_decode = λ bs. some bs;
}

runs-lz4 : (bs : Bytes) → runs.lz4_decompress (runs.lz4_compress bs) ≡ some bs
runs-lz4 [] = refl
runs-lz4 (b ∷ bs) = ground (arith, run_of-length (b ∷ bs))

runs-IsExact : IsExact runs
runs-IsExact = record { lz4 = runs-lz4; zstd = λ level bs. refl }

abbrev parse_flagged : Bytes → Option Packet
parse_flagged [] = none
parse_flagged (b ∷ []) = none
parse_flagged (b ∷ (flags ∷ bs)) =
    if b == 8 then some (record (packet_with bs) { flags = flags }) else none

abbrev flagged : Wire Packet
flagged = record { serialize = λ p. 8 ∷ p.flags ∷ p.payload; parse = parse_flagged }

flagged-RefusesTagZero : RefusesTagZero flagged
flagged-RefusesTagZero b [] h = refl
flagged-RefusesTagZero b (n ∷ bs) h = ground (arith, h)

abbrev compressing : Runtime
compressing = record sample {
  packet = flagged;
  compress = some (compress_bytes runs);
  decompress = some (decompress_bytes runs);
}

-- seventy bytes, sent as two
abbrev squeezed : Packet
squeezed = record (packet_with (0 ∷ 70 ∷ [])) { flags = Format.Flags.codec_lz4 }

encode_message-decode_example :
    (encode_message compressing "chat" (raw (run_of 70)) (some 7) 1000 encoder
      ≡ (encoder, some (wire_bytes compressing squeezed)))
    × (decode_single compressing (wire_bytes compressing squeezed)
        ≡ decoded (
            received compressing squeezed Format.message
              (run_of 70)
              (message "chat" (deserialize_data compressing (run_of 70)))))
unfolding make_packet packet_fits serialize_data compress compress_bytes select_codec
encode_message-decode_example =
    encode_message-decode compressing "chat" (raw (run_of 70)) (run_of 70) (some 7) 1000 encoder
      squeezed (inr (runs, refl, refl, runs-IsExact)) flagged-RefusesTagZero refl refl refl refl
      refl (omega arith)

hi_nonempty : encode_text "hi" ≢ []
hi_nonempty e = cc

seven_nonempty : encode_text "7" ≢ []
seven_nonempty e = cc
