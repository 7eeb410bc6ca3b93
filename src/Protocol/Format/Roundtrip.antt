-- ===== src/Protocol/Format/Roundtrip.antt =====
-- The legacy header survives `to_bytes` and `from_bytes`, but for the fields outside the struct.
use net_conduit.Base.{
  ℕ, zero, suc, ◌^◌, ◌<◌, ◌≡◌, refl, ◌∙◌, ap, some, List, [], ◌∷◌, ◌++◌, arith, length, take,
  length-append, All,
}
use net_conduit.Protocol.Bytes.{
  Bytes, be_bytes, length-be_bytes, be_value-be_bytes, take-be_bytes, drop-be_bytes,
}
use net_conduit.Protocol.Format.{
  MessageType, message, be, magic_bytes, type_code, message_type_of-type_code,
}
use net_conduit.Protocol.Format.Header.{
  MessageHeader, header, pack_fields, unpack_fields, int_fields, to_bytes, from_bytes, of_fields,
  pad, Fits,
}

abbrev InRange : List (ℕ × ℕ) → Type 0
InRange fs = All (λ f. f.1 < 256 ^ f.0) fs

-- The bytes that the fields are packed to.
abbrev packed : List (ℕ × ℕ) → Bytes
packed [] = []
packed ((w, v) ∷ fs) = be_bytes w v ++ packed fs

abbrev widths : List (ℕ × ℕ) → List ℕ
widths [] = []
widths ((w, v) ∷ fs) = w ∷ widths fs

abbrev values : List (ℕ × ℕ) → List ℕ
values [] = []
values ((w, v) ∷ fs) = v ∷ values fs

pack_fields-eq : (fs : List (ℕ × ℕ)) → InRange fs → pack_fields fs ≡ some (packed fs)
unfolding pack_fields
pack_fields-eq [] h = refl
pack_fields-eq ((w, v) ∷ fs) h = ground (arith, pack_fields-eq fs h.1)

unpack_fields-packed :
    (fs : List (ℕ × ℕ)) → InRange fs → unpack_fields (widths fs) (packed fs) ≡ values fs
unfolding unpack_fields
unpack_fields-packed [] h = refl
unpack_fields-packed ((w, v) ∷ fs) h =
    rw (take-be_bytes, drop-be_bytes, be_value-be_bytes w v h.0, unpack_fields-packed fs h.1)

take_all : (n : ℕ) (xs : Bytes) → length xs ≡ n → take n xs ≡ xs
take_all zero [] h = refl
take_all zero (x ∷ xs) h = absurd (omega arith)
take_all (suc n) [] h = refl
take_all (suc n) (x ∷ xs) h = ap (λ l. x ∷ l) (take_all n xs (omega arith))

length-packed : (h : MessageHeader) → length (packed (int_fields h)) ≡ 28
length-packed h = simp (length-append, length-be_bytes)

type_code-lt : (t : MessageType) → type_code t < 2 ^ 16
type_code-lt message = omega arith
type_code-lt _ = omega arith

int_fields-InRange : (h : MessageHeader) → Fits h → InRange (int_fields h)
int_fields-InRange h f = (
  f.version,
  (
    type_code-lt h.message_type,
    (f.flags, (f.reserved, (f.content_length, (f.correlation_id, (f.timestamp, tt))))),
  ),
)

to_bytes-eq :
    (h : MessageHeader)
    → h.magic ≡ magic_bytes
    → Fits h
    → to_bytes h ≡ some (magic_bytes ++ packed (int_fields h))
unfolding to_bytes pad
to_bytes-eq h m f = rw (m, pack_fields-eq (int_fields h) (int_fields-InRange h f)) refl

from_bytes-append :
    (p : Bytes)
    → length p ≡ 28
    → from_bytes (magic_bytes ++ p)
      ≡ of_fields magic_bytes (unpack_fields (2 ∷ 2 ∷ 2 ∷ 2 ∷ 4 ∷ 8 ∷ 8 ∷ []) p)
unfolding from_bytes
from_bytes-append p h = rw (take_all 28 p h) (ground arith)

of_fields-values :
    (h : MessageHeader)
    → h.magic ≡ magic_bytes
    → of_fields magic_bytes (values (int_fields h))
      ≡ header (record h { sequence_id = 0; stream_id = 0; byte_order = be })
of_fields-values h m = ground (arith, message_type_of-type_code h.message_type)

-- A header with the right magic whose integers fit is packed to 32 bytes, and `from_bytes` reads
-- from them the same header, but that its sequence id, stream id and byte order are the defaults.
pub from_bytes-to_bytes :
    (h : MessageHeader)
    → h.magic ≡ magic_bytes
    → Fits h
    → (bs : Bytes) × (to_bytes h ≡ some bs)
      × (length bs ≡ 32)
      × (from_bytes bs ≡ header (record h { sequence_id = 0; stream_id = 0; byte_order = be }))
from_bytes-to_bytes h m f = (
  magic_bytes ++ packed (int_fields h),
  to_bytes-eq h m f,
  omega (arith, length-packed h),
  from_bytes-append (packed (int_fields h)) (length-packed h)
      ∙ ap (of_fields magic_bytes) (unpack_fields-packed (int_fields h) (int_fields-InRange h f))
      ∙ of_fields-values h m,
)
