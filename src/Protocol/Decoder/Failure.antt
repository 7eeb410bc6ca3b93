-- ===== src/Protocol/Decoder/Failure.antt =====
-- A packet that cannot be decoded: what `decode_all` loses.
use mathlib.Core.List.{append_assoc}
use net_conduit.Base.{
  ℕ, zero, suc, ◌+◌, ◌≤◌, ◌<◌, ◌≡◌, refl, List, [], ◌∷◌, ◌++◌, arith, length, All, length-append,
  take-append, drop-append,
}
use net_conduit.Protocol.Bytes.{
  Bytes, be_bytes, length-be_bytes, be_value-be_bytes, take-be_bytes, drop-be_bytes,
}
use net_conduit.Protocol.Runtime.{Runtime}
use net_conduit.Protocol.Decoder.{
  decode_single, raised, step_of, decode_one, decode_loop, decode_all, failed,
}
use net_conduit.Protocol.Decoder.Stream.{
  Item, IsGood, framed, frames, max_length, decode_one-framed, length-framed,
}

abbrev pub frame_of : Bytes → Bytes
frame_of bs = be_bytes 4 (length bs) ++ bs

module _ (r : Runtime) where
  decode_one-frame_of :
      (bs rest : Bytes)
      → length bs ≤ max_length
      → decode_one r (frame_of bs ++ rest) ≡ (step_of r (decode_single r bs), rest)
  unfolding decode_one
  decode_one-frame_of bs rest h =
      rw (append_assoc, take-be_bytes, drop-be_bytes, be_value-be_bytes 4 (length bs) (omega arith))
        (ground (
          arith,
          take-append bs rest,
          drop-append bs rest,
          length-append (be_bytes 4 (length bs)) (bs ++ rest),
          length-append bs rest,
          length-be_bytes 4 (length bs),
        ))

  decode_loop_fails :
      (fuel : ℕ) (is : List (Item r)) (bad rest : Bytes)
      → All (IsGood r) is
      → length (frames r is) < fuel
      → length bad ≤ max_length
      → step_of r (decode_single r bad) ≡ raised
      → decode_loop r fuel (frames r is ++ (frame_of bad ++ rest)) ≡ (failed, rest)
  unfolding decode_loop
  decode_loop_fails zero is bad rest g f h e = absurd (omega arith)
  decode_loop_fails (suc fuel) [] bad rest g f h e = rw (decode_one-frame_of bad rest h, e) refl
  decode_loop_fails (suc fuel) (i ∷ is) bad rest g f h e =
      let tail = frames r is ++ (frame_of bad ++ rest) in
      rw
        (
          append_assoc (framed r i) (frames r is) (frame_of bad ++ rest),
          decode_one-framed r i tail g.0,
          decode_loop_fails fuel is bad rest g.1
              (omega (arith, f, length-append (framed r i) (frames r is), length-framed r i)) h e,
        )
        refl

  -- A packet that cannot be decoded makes `decode_all` raise, and the messages of the good packets
  -- in front of it are not returned, though their frames are gone: the buffer holds only what
  -- follows the bad frame.
  pub decode_all_loses :
      (is : List (Item r)) (bad rest : Bytes)
      → All (IsGood r) is
      → length bad ≤ max_length
      → step_of r (decode_single r bad) ≡ raised
      → decode_all r (frames r is ++ (frame_of bad ++ rest)) ≡ (failed, rest)
  unfolding decode_all
  decode_all_loses is bad rest g h e =
      decode_loop_fails (length (frames r is ++ (frame_of bad ++ rest)) + 1) is bad rest g
        (omega (arith, length-append (frames r is) (frame_of bad ++ rest))) h e
