-- ===== src/Protocol/Compression.antt =====
-- netconduit_core/src/core.rs: the compression that the extension offers to Python as
-- `compress_payload` and `decompress_payload`. The crates lz4_flex and zstd are parameters.
use net_conduit.Base.{
  ℕ, ◌≡◌, Option, none, some, [], ◌∷◌, arith, length, ltb, leb, ◌==◌, if◌then◌else◌,
}
use net_conduit.Protocol.Bytes.{Bytes}

-- lz4_flex::compress_prepend_size and decompress_size_prepended; zstd::encode_all at a level, which
-- succeeds on bytes in memory, and decode_all. none is an error.
pub record Crates : Type 0 where
  pub lz4_compress : Bytes → Bytes
  pub lz4_decompress : Bytes → Option Bytes
  pub zstd_encode : ℕ → Bytes → Bytes
  pub zstd_decode : Bytes → Option Bytes

-- Both crates read back what they wrote.
pub record IsExact (c : Crates) : Type 0 where
  pub lz4 : (bs : Bytes) → c.lz4_decompress (c.lz4_compress bs) ≡ some bs
  pub zstd : (level : ℕ) (bs : Bytes) → c.zstd_decode (c.zstd_encode level bs) ≡ some bs

unfoldable pub select_codec : Bytes → ℕ
select_codec payload =
    if ltb (length payload) 64 then 0 else if ltb (length payload) 256 then 1 else 2

unfoldable pub compress_bytes : Crates → Bytes → Bytes
unfolding select_codec
compress_bytes c bs =
    let codec = select_codec bs in
    if codec == 0
    then 0 ∷ bs
    else if codec == 1
    then 1 ∷ c.lz4_compress bs
    else 2 ∷ c.zstd_encode (if leb 4096 (length bs) then 3 else 1) bs

unfoldable pub decompress_bytes : Crates → Bytes → Option Bytes
decompress_bytes c [] = some []
decompress_bytes c (codec ∷ bs) =
    if codec == 0
    then some bs
    else if codec == 1
    then c.lz4_decompress bs
    else if codec == 2
    then c.zstd_decode bs
    else none

-- Where the crates read back what they wrote, `decompress_bytes` undoes `compress_bytes`.
pub decompress_bytes-compress_bytes :
    (c : Crates) (bs : Bytes) → IsExact c → decompress_bytes c (compress_bytes c bs) ≡ some bs
unfolding compress_bytes decompress_bytes select_codec
decompress_bytes-compress_bytes c bs x = ground (arith, x.lz4 bs, x.zstd 1 bs, x.zstd 3 bs)
