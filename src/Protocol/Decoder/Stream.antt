-- ===== src/Protocol/Decoder/Stream.antt =====
-- The buffer of `ProtocolDecoder` on a stream of frames: however the stream is cut into reads,
-- `decode_all` after each read gives the messages once, in order.
use mathlib.Core.List.{append_assoc}
use net_conduit.Base.{
  ℕ, zero, suc, ◌+◌, ◌*◌, ◌≤◌, ◌<◌, ◌≡◌, refl, ap, sym, ◌∙◌, ◌≢◌, inl, inr, List, [], ◌∷◌, ◌++◌,
  map, arith, ltb, length, take, drop, All, length-append, take-append, drop-append, take-append_le,
  length-drop, Bool-cases,
}
use net_conduit.Protocol.Bytes.{
  Bytes, be_bytes, be_value, length-be_bytes, be_value-be_bytes, take-be_bytes, drop-be_bytes,
}
use net_conduit.Protocol.Runtime.{Runtime, Packet, Reads}
use net_conduit.Protocol.Decoder.{
  DecodedMessage, decoded, message_of, decode_single, nothing, one, decode_one, Batch, returned,
  extend, prepend, decode_loop,
}

abbrev pub max_length : ℕ
max_length = 100 * 1024 * 1024

module _ (r : Runtime) where
  -- a packet, and the message that it is decoded to
  abbrev pub Item : Type 0
  Item = Packet × DecodedMessage r.Json

  abbrev pub body : Item → Bytes
  body i = r.packet.serialize i.0

  -- A packet of at most 100 MB that protobuf reads back, and that decodes to the message.
  abbrev pub IsGood : Item → Type 0
  IsGood i = (length (body i) ≤ max_length) × Reads r.packet i.0 × (message_of r i.0 ≡ decoded i.1)

  -- the frame that the encoder sends
  abbrev pub framed : Item → Bytes
  framed i = be_bytes 4 (length (body i)) ++ body i

  abbrev pub frames : List Item → Bytes
  frames [] = []
  frames (i ∷ is) = framed i ++ frames is

  abbrev pub messages : List Item → List (DecodedMessage r.Json)
  messages is = map (λ i. i.1) is

  pub length-framed : (i : Item) → length (framed i) ≡ 4 + length (body i)
  length-framed i = rw length-append (rw length-be_bytes refl)

  size_of_framed :
      (i : Item) (rest : Bytes) → IsGood i → be_value (take 4 (framed i ++ rest)) ≡ length (body i)
  size_of_framed i rest g =
      rw (append_assoc, take-be_bytes) (be_value-be_bytes 4 (length (body i)) (omega arith))

  drop_prefix : (i : Item) (rest : Bytes) → drop 4 (framed i ++ rest) ≡ body i ++ rest
  drop_prefix i rest = rw (append_assoc, drop-be_bytes) refl

  pub decode_single-body : (i : Item) → IsGood i → decode_single r (body i) ≡ decoded i.1
  unfolding decode_single
  decode_single-body i g = ground (arith, g.1, g.2)

  pub decode_one-framed :
      (i : Item) (rest : Bytes) → IsGood i → decode_one r (framed i ++ rest) ≡ (one i.1, rest)
  unfolding decode_one
  decode_one-framed i rest g = ground (
    arith,
    size_of_framed i rest g,
    drop_prefix i rest,
    take-append (body i) rest,
    drop-append (body i) rest,
    decode_single-body i g,
    length-append (framed i) rest,
    length-framed i,
  )

  -- A buffer that holds a part of a frame waits.
  decode_one-part :
      (i : Item) (b more rest : Bytes)
      → IsGood i
      → b ++ more ≡ framed i ++ rest
      → length b < length (framed i)
      → decode_one r b ≡ (nothing, b)
  unfolding decode_one
  decode_one-part i b more rest g e h = elim (Bool-cases (ltb (length b) 4)) [
    | inl short ↦ rw short
    | inr long ↦
        let size : be_value (take 4 b) ≡ length (body i) =
          rw (← take-append_le 4 b more (ground arith)) (rw e (size_of_framed i rest g)) in
        ground (arith, size, length-framed i, g.0)
  ]

  -- A buffer that holds the first frame is that frame and a rest.
  cut_frame :
      (f b more rest : Bytes)
      → b ++ more ≡ f ++ rest
      → length f ≤ length b
      → (b ≡ f ++ drop (length f) b) × (drop (length f) b ++ more ≡ rest)
  cut_frame [] b more rest e h = (refl, e)
  cut_frame (x ∷ f) [] more rest e h = absurd (omega arith)
  cut_frame (x ∷ f) (y ∷ b) more rest e h =
      let ih = cut_frame f b more rest (cc) (omega arith) in (cc (ih.0), ih.1)

  -- What decode_all has done with a buffer, when `more` is still to come of the frames of `is`.
  pub record Progress (is : List Item) (more : Bytes) (out : Batch r × Bytes) : Type 0 where
    pub past : List Item
    pub left : List Item
    pub split : is ≡ past ++ left
    pub result : out.0 ≡ returned (messages past)
    pub rest : out.1 ++ more ≡ frames left
    pub ends : more ≡ [] → left ≡ []

  prepend-Progress :
      (i : Item) (is : List Item) (more : Bytes) (out : Batch r × Bytes)
      → Progress is more out
      → Progress (i ∷ is) more (prepend r i.1 out)
  prepend-Progress i is more out p = record {
    past = i ∷ p.past;
    left = p.left;
    split = ap (λ l. i ∷ l) p.split;
    result = ap (extend r i.1) p.result;
    rest = p.rest;
    ends = p.ends;
  }

  decode_one-empty : decode_one r [] ≡ (nothing, [])
  unfolding decode_one
  decode_one-empty = refl

  -- A frame is longer than a part of it, also when nothing is to come.
  part_is_short :
      (i : Item) (b more rest : Bytes)
      → b ++ more ≡ framed i ++ rest
      → length b < length (framed i)
      → more ≢ []
  part_is_short i b more rest e h m =
      let n : length b + length more ≡ length (framed i) + length rest =
        sym (length-append b more) ∙ ap length e ∙ length-append (framed i) rest in
      absurd (omega (arith, ap length m))

  pub progress :
      (fuel : ℕ) (is : List Item) (b more : Bytes)
      → length b < fuel
      → All IsGood is
      → b ++ more ≡ frames is
      → Progress is more (decode_loop r fuel b)
  unfolding decode_loop
  progress zero is b more h g e = absurd (omega arith)
  progress (suc fuel) [] [] more h g e =
      rw decode_one-empty
        (record { past = []; left = []; split = refl; result = refl; rest = e; ends = λ m. refl })
  progress (suc fuel) [] (x ∷ b) more h g e = absurd (omega (arith, ap length e))
  progress (suc fuel) (i ∷ is) b more h g e =
      elim (Bool-cases (ltb (length b) (length (framed i)))) [
        | inl part ↦ rw (decode_one-part i b more (frames is) g.0 e (ground arith)) (record {
          past = [];
          left = i ∷ is;
          split = refl;
          result = refl;
          rest = e;
          ends = λ m. absurd (part_is_short i b more (frames is) e (ground arith) m);
        })
        | inr whole ↦
            let c = cut_frame (framed i) b more (frames is) e (ground arith) in
            let b' = drop (length (framed i)) b in
            rw (ap (decode_one r) (c.0) ∙ decode_one-framed i b' g.0) (
              prepend-Progress i is more (decode_loop r fuel b') (
                progress fuel is b' more
                  (ground (arith, length-drop (length (framed i)) b, length-framed i)) g.1 c.1))
      ]
