-- ===== src/Protocol/Format/Flags.antt =====
-- `MessageFlags` of conduit/protocol/format.py: the bits of Packet.flags that the program tests.
use net_conduit.Base.{ℕ}

abbrev pub compressed : ℕ
compressed = 0x0001

abbrev pub codec_lz4 : ℕ
codec_lz4 = 0x0080

abbrev pub codec_zstd : ℕ
codec_zstd = 0x0100

abbrev pub ordered : ℕ
ordered = 0x0200

abbrev pub byte_order_le : ℕ
byte_order_le = 0x0400
