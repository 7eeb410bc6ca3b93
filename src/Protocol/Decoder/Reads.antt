-- ===== src/Protocol/Decoder/Reads.antt =====
-- A connection that feeds each read to `ProtocolDecoder` and then calls `decode_all`.
use mathlib.Core.List.{append-nil, append_assoc, map-append}
use net_conduit.Base.{
  ◌+◌, ◌≡◌, refl, ap, sym, ◌∙◌, List, [], ◌∷◌, ◌++◌, arith, length, length-append, All,
}
use net_conduit.Protocol.Bytes.{Bytes}
use net_conduit.Protocol.Runtime.{Runtime}
use net_conduit.Protocol.Decoder.{feed, Batch, returned, decode_all}
use net_conduit.Protocol.Decoder.Stream.{
  Item, IsGood, frames, framed, length-framed, messages, Progress, progress,
}

abbrev pub joined : List Bytes → Bytes
joined [] = []
joined (c ∷ cs) = c ++ joined cs

module _ (r : Runtime) where
  abbrev append_batch : Batch r → Batch r → Batch r
  append_batch (returned ms) (returned ns) = returned (ms ++ ns)
  append_batch (returned ms) b = b
  append_batch b c = b

  -- The messages of every read, and the buffer at the end.
  unfoldable pub receive : List Bytes → Bytes → Batch r × Bytes
  receive [] buffer = (returned [], buffer)
  receive (c ∷ cs) buffer =
      let now = decode_all r (feed c buffer) in
      let later = receive cs now.1 in (append_batch now.0 later.0, later.1)

  All-split : (xs ys : List (Item r)) → All (IsGood r) (xs ++ ys) → All (IsGood r) ys
  All-split [] ys h = h
  All-split (x ∷ xs) ys h = All-split xs ys h.1

  decode_all-Progress :
      (is : List (Item r)) (b more : Bytes)
      → All (IsGood r) is
      → b ++ more ≡ frames r is
      → Progress r is more (decode_all r b)
  unfolding decode_all
  decode_all-Progress is b more g e = progress r (length b + 1) is b more (omega arith) g e

  receive_from :
      (cs : List Bytes) (is : List (Item r)) (b : Bytes)
      → All (IsGood r) is
      → b ++ joined cs ≡ frames r is
      → (joined cs ≡ [] → is ≡ [])
      → receive cs b ≡ (returned (messages r is), [])
  unfolding receive feed
  receive_from [] [] b g e d = ap (λ l. (returned [], l)) (rw append-nil at e)
  receive_from [] (i ∷ is) b g e d = absurd (ground (arith, d refl))
  receive_from (c ∷ cs) is b g e d =
      let p = decode_all-Progress is (b ++ c) (joined cs) g (append_assoc b c (joined cs) ∙ e) in
      let ih =
        receive_from cs p.left (decode_all r (b ++ c)).1 (All-split p.past p.left (rw p.split at g))
          p.rest p.ends in
      rw (p.result, ih)
        (ap (λ l. (returned l, [])) (sym (ap (messages r) p.split ∙ map-append _ p.past p.left)))

  no_frames :
      (is : List (Item r)) (cs : List Bytes) → joined cs ≡ frames r is → joined cs ≡ [] → is ≡ []
  no_frames [] cs e h = refl
  no_frames (i ∷ is) cs e h = absurd (
      omega
        (arith, ap length (sym h ∙ e), length-append (framed r i) (frames r is), length-framed r i))

  -- Frames of good packets, cut into reads in any way and fed to an empty decoder that decodes
  -- after each read, give the messages of the packets, each once and in order, and leave the buffer
  -- empty.
  pub receive-frames :
      (is : List (Item r)) (cs : List Bytes)
      → All (IsGood r) is
      → joined cs ≡ frames r is
      → receive cs [] ≡ (returned (messages r is), [])
  receive-frames is cs g e = receive_from cs is [] g e (no_frames is cs e)
