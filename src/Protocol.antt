-- ===== src/Protocol.antt =====
-- conduit/protocol/: the wire format, the encoder and the decoder.
pub mod Bytes
pub mod Format
pub mod Runtime
pub mod Compression
pub mod Encoder
pub mod Decoder
pub mod Roundtrip
pub mod Examples
