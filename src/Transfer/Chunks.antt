-- ===== src/Transfer/Chunks.antt =====
-- A file in chunks: the sender's loop, which reads until a read gives nothing, and the chunks that a
-- download is served in.
use native.Mathlib.Nat.{div-eq-sub-div, div-eq_of_lt, lt-div-mul-add}
use net_conduit.Base.{
  ℕ, zero, suc, ◌+◌, ◌-◌, ◌*◌, ◌/◌, ◌≤◌, ◌<◌, ◌≡◌, refl, ap, sym, ◌∙◌, true, false, Option, none,
  some, List, [], ◌∷◌, ◌++◌, arith, if◌then◌else◌, ◌==◌, length, length-append, length-drop, take,
  drop, All, Bool-cases, inl, inr, ltb,
}
use net_conduit.Protocol.Bytes.{Bytes}
use net_conduit.Transfer.{chunk_at, chunk_count}

-- A read at the end of the file gives no bytes.
unfoldable pub read_chunks : ℕ → ℕ → Bytes → Option (List Bytes)
read_chunks zero chunk_size bytes = none
read_chunks (suc fuel) chunk_size bytes =
    let rest = read_chunks fuel chunk_size (drop chunk_size bytes) in
    if length (take chunk_size bytes) == 0
    then some []
    else elim rest [ none ↦ none | some cs ↦ some (take chunk_size bytes ∷ cs) ]

abbrev pub joined : List Bytes → Bytes
joined [] = []
joined (c ∷ cs) = c ++ joined cs

-- The size of a chunk that is sent.
abbrev pub IsChunk : ℕ → Bytes → Type 0
IsChunk chunk_size c = (0 < length c) × (length c ≤ chunk_size)

take-append_drop : (n : ℕ) (bytes : Bytes) → take n bytes ++ drop n bytes ≡ bytes
take-append_drop zero bytes = refl
take-append_drop (suc n) [] = refl
take-append_drop (suc n) (b ∷ bytes) = ap (λ l. b ∷ l) (take-append_drop n bytes)

length-take : (n : ℕ) (bytes : Bytes) → length (take n bytes) + length (drop n bytes) ≡ length bytes
length-take n bytes =
    sym (length-append (take n bytes) (drop n bytes)) ∙ ap length (take-append_drop n bytes)

length-take-le : (n : ℕ) (bytes : Bytes) → length (take n bytes) ≤ n
length-take-le zero bytes = omega arith
length-take-le (suc n) [] = omega arith
length-take-le (suc n) (b ∷ bytes) = omega (arith, length-take-le n bytes)

-- The number of chunks of a file is one more than that of what the first chunk leaves.
count_step : (L s : ℕ) → 0 < s → 0 < L → (L + s - 1) / s ≡ (L - s + s - 1) / s + 1
count_step L s hs hL =
    let first : (L + s - 1) / s ≡ (L + s - 1 - s) / s + 1 = div-eq-sub-div hs (omega arith) in
    elim (Bool-cases (ltb L s)) [
      | inl e ↦
          let a : (L + s - 1 - s) / s ≡ 0 = div-eq_of_lt (ground (arith, e)) in
          let b : (L - s + s - 1) / s ≡ 0 = div-eq_of_lt (ground (arith, e)) in
          omega (arith, first, a, b)
      | inr e ↦
          let same : L + s - 1 - s ≡ L - s + s - 1 = ground (arith, e) in
          first ∙ ap (λ n. n / s + 1) same
    ]

-- What the loop gives with enough fuel.
record IsSplit (chunk_size : ℕ) (bytes : Bytes) (cs : Option (List Bytes)) : Type 0 where
  chunks : List Bytes
  found : cs ≡ some chunks
  whole : joined chunks ≡ bytes
  counted : length chunks ≡ (length bytes + chunk_size - 1) / chunk_size
  sizes : All (IsChunk chunk_size) chunks

take_pos : (s : ℕ) (bytes : Bytes) → 0 < s → 0 < length bytes → 0 < length (take s bytes)
take_pos zero bytes hs hb = absurd (omega (arith, hs))
take_pos (suc s) [] hs hb = absurd (omega (arith, hb))
take_pos (suc s) (b ∷ bytes) hs hb = omega arith

IsSplit-empty :
    (fuel s : ℕ) (bytes : Bytes)
    → 0 < s
    → (length (take s bytes) == 0) ≡ true
    → IsSplit s bytes (read_chunks (suc fuel) s bytes)
unfolding read_chunks
IsSplit-empty fuel s [] hs e = record {
  chunks = [];
  found = ground (arith, e);
  whole = refl;
  counted = sym (div-eq_of_lt (omega (arith, hs)));
  sizes = tt;
}
IsSplit-empty fuel s (b ∷ bytes) hs e =
    let p = take_pos s (b ∷ bytes) hs (omega arith) in absurd (ground (arith, p, e))

IsSplit-more :
    (fuel s : ℕ) (bytes : Bytes)
    → 0 < s
    → (length (take s bytes) == 0) ≡ false
    → IsSplit s (drop s bytes) (read_chunks fuel s (drop s bytes))
    → IsSplit s bytes (read_chunks (suc fuel) s bytes)
unfolding read_chunks
IsSplit-more fuel s bytes hs e f =
    let long : 0 < length (take s bytes) = ground (arith, e) in
    let total = length-take s bytes in
    let step = count_step (length bytes) s hs (omega (arith, long, total)) in
    let rest : length f.chunks ≡ (length bytes - s + s - 1) / s =
      f.counted ∙ ap (λ n. (n + s - 1) / s) (length-drop s bytes) in
    record {
      chunks = take s bytes ∷ f.chunks;
      found = ground (arith, e, f.found);
      whole = ap (λ l. take s bytes ++ l) f.whole ∙ take-append_drop s bytes;
      counted = omega (arith, rest, step);
      sizes = ((long, length-take-le s bytes), f.sizes);
    }

read_chunks-IsSplit :
    (fuel s : ℕ) (bytes : Bytes)
    → 0 < s
    → length bytes < fuel
    → IsSplit s bytes (read_chunks fuel s bytes)
read_chunks-IsSplit zero s bytes hs h = absurd (omega (arith, h))
read_chunks-IsSplit (suc fuel) s bytes hs h = elim (Bool-cases (length (take s bytes) == 0)) [
  | inl e ↦ IsSplit-empty fuel s bytes hs e
  | inr e ↦
      let long : 0 < length (take s bytes) = ground (arith, e) in
      IsSplit-more fuel s bytes hs e
        (read_chunks-IsSplit fuel s (drop s bytes) hs (omega (arith, long, length-take s bytes, h)))
]

-- With a chunk size above 0, the loop that reads a file ends within one round more than the file has
-- bytes: it gives chunks that are not empty and no longer than the chunk size, that joined are the
-- file, and as many as the receiver is told to expect.
pub read_chunks-total :
    (s : ℕ) (bytes : Bytes)
    → 0 < s
    → (cs : List Bytes) × (read_chunks (length bytes + 1) s bytes ≡ some cs)
      × (joined cs ≡ bytes)
      × (some (length cs) ≡ chunk_count (length bytes) s)
      × All (IsChunk s) cs
unfolding chunk_count
read_chunks-total s bytes hs =
    let f = read_chunks-IsSplit (length bytes + 1) s bytes hs (omega arith) in
    (f.chunks, f.found, f.whole, ground (arith, hs, f.counted), f.sizes)

-- The chunks that `get_download_chunk` reads for the indexes from one on, joined.
unfoldable pub download_from : ℕ → ℕ → ℕ → Bytes → Bytes
download_from zero chunk_index chunk_size bytes = []
download_from (suc rounds) chunk_index chunk_size bytes =
    chunk_at chunk_index chunk_size bytes ++ download_from rounds (chunk_index + 1) chunk_size bytes

drop_nil : (n : ℕ) → drop {A = ℕ} n [] ≡ []
drop_nil zero = refl
drop_nil (suc n) = refl

drop-drop : (n m k : ℕ) (bytes : Bytes) → k ≡ n + m → drop k bytes ≡ drop m (drop n bytes)
drop-drop zero m k bytes e = let e' : k ≡ m = omega (arith, e) in ap (λ j. drop j bytes) e'
drop-drop (suc n) m k [] e = drop_nil k ∙ sym (drop_nil m)
drop-drop (suc n) m zero (b ∷ bytes) e = absurd (omega (arith, e))
drop-drop (suc n) m (suc k) (b ∷ bytes) e = drop-drop n m k bytes (omega (arith, e))

drop_all : (n : ℕ) (bytes : Bytes) → length bytes ≤ n → drop n bytes ≡ []
drop_all n [] h = drop_nil n
drop_all zero (b ∷ bytes) h = absurd (omega (arith, h))
drop_all (suc n) (b ∷ bytes) h = drop_all n bytes (omega (arith, h))

download_from-drop :
    (rounds i s : ℕ) (bytes : Bytes)
    → length bytes ≤ i * s + rounds * s
    → download_from rounds i s bytes ≡ drop (i * s) bytes
unfolding download_from
download_from-drop zero i s bytes h = sym (drop_all (i * s) bytes (omega (arith, h)))
download_from-drop (suc rounds) i s bytes h =
    let next : (i + 1) * s ≡ i * s + s = omega arith in
    let rest = download_from-drop rounds (i + 1) s bytes (omega (arith, h)) in
    ap (λ l. chunk_at i s bytes ++ l) (rest ∙ drop-drop (i * s) s ((i + 1) * s) bytes next)
    ∙ take-append_drop s (drop (i * s) bytes)

-- The number of chunks that a download announces is enough: reading each of them in turn gives the
-- whole file, for every chunk size above 0.
pub download_from-file :
    (s total : ℕ) (bytes : Bytes)
    → 0 < s
    → chunk_count (length bytes) s ≡ some total
    → download_from total 0 s bytes ≡ bytes
unfolding chunk_count
download_from-file s total bytes hs e =
    let same : total ≡ (length bytes + s - 1) / s = ground (arith, hs, e) in
    let above = lt-div-mul-add {a = length bytes + s - 1} hs in
    let start : 0 * s ≡ 0 = omega arith in
    download_from-drop total 0 s bytes (rw same (omega (arith, above, hs)))
    ∙ ap (λ n. drop n bytes) start
