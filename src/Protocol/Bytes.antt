-- ===== src/Protocol/Bytes.antt =====
-- Bytes as numbers, and the integers of Python's `struct` and `int.to_bytes`: `width` bytes in
-- either order. A value that does not fit is refused by `struct.error` or OverflowError.
use mathlib.Core.List.{reverse, reverse-cons, reverse-reverse}
use mathlib.Core.Path.{subst}
use native.Mathlib.Nat.{pow-suc}
use net_conduit.Base.{
  ℕ, zero, suc, ◌+◌, ◌*◌, ◌/◌, ◌%◌, ◌^◌, ◌<◌, ◌≡◌, refl, ◌∙◌, Option, none, some, List, [], ◌∷◌,
  ◌++◌, arith, ltb, if◌then◌else◌, length, length-append, take, drop, take-append, drop-append,
}

abbrev pub Bytes : Type 0
Bytes = List ℕ

unfoldable pub le_bytes : ℕ → ℕ → Bytes
le_bytes zero n = []
le_bytes (suc width) n = (n % 256) ∷ le_bytes width (n / 256)

unfoldable pub le_value : Bytes → ℕ
le_value [] = 0
le_value (b ∷ bs) = b + 256 * le_value bs

unfoldable pub be_bytes : ℕ → ℕ → Bytes
unfolding le_bytes
be_bytes width n = reverse (le_bytes width n)

-- int.from_bytes(bs, byteorder='big')
unfoldable pub be_value : Bytes → ℕ
unfolding le_value
be_value bs = le_value (reverse bs)

pub length-le_bytes : (width n : ℕ) → length (le_bytes width n) ≡ width
unfolding le_bytes
length-le_bytes zero n = omega arith
length-le_bytes (suc w) n = omega (arith, length-le_bytes w (n / 256))

pub length-reverse {ℓ} : {A : Type ℓ} (xs : List A) → length (reverse xs) ≡ length xs
length-reverse [] = refl
length-reverse (x ∷ xs) =
    rw reverse-cons (omega (arith, length-append (reverse xs) (x ∷ []), length-reverse xs))

pub length-be_bytes : (width n : ℕ) → length (be_bytes width n) ≡ width
unfolding be_bytes
length-be_bytes w n = length-reverse (le_bytes w n) ∙ length-le_bytes w n

pub le_value-le_bytes : (width n : ℕ) → n < 256 ^ width → le_value (le_bytes width n) ≡ n
unfolding le_bytes le_value
le_value-le_bytes zero n h = omega arith
le_value-le_bytes (suc w) n h =
    omega (arith, le_value-le_bytes w (n / 256) (omega (arith, pow-suc 256 w)))

pub be_value-be_bytes : (width n : ℕ) → n < 256 ^ width → be_value (be_bytes width n) ≡ n
unfolding be_bytes be_value
be_value-be_bytes w n h = rw reverse-reverse (le_value-le_bytes w n h)

-- A field that was packed is unpacked from the front, and what follows it is left.
pub take-be_bytes :
    (width n : ℕ) (rest : Bytes) → take width (be_bytes width n ++ rest) ≡ be_bytes width n
take-be_bytes w n rest =
    subst (λ k. take k (be_bytes w n ++ rest) ≡ be_bytes w n) (length-be_bytes w n)
      (take-append (be_bytes w n) rest)

pub drop-be_bytes : (width n : ℕ) (rest : Bytes) → drop width (be_bytes width n ++ rest) ≡ rest
drop-be_bytes w n rest =
    subst (λ k. drop k (be_bytes w n ++ rest) ≡ rest) (length-be_bytes w n)
      (drop-append (be_bytes w n) rest)

-- `n.to_bytes(width, byteorder='big')` and the unsigned formats of `struct.pack`; `none` where they
-- raise.
unfoldable pub pack_be : ℕ → ℕ → Option Bytes
unfolding be_bytes
pack_be width n = if ltb n (256 ^ width) then some (be_bytes width n) else none

unfoldable pub pack_le : ℕ → ℕ → Option Bytes
unfolding le_bytes
pack_le width n = if ltb n (256 ^ width) then some (le_bytes width n) else none
