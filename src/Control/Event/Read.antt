-- ===== src/Control/Event/Read.antt =====
-- What the readers of `parseControlMessage` make of big-endian bytes.
use Prim.Native.Nat.{bit_or}
use ms_robot.Base.Bits.{bit_or-add, bit_or-eq_zero, bit_or-lt, bit_or_assoc, shl32}
use ms_robot.Wire.Bytes.{to_big_endian_bytes}
use ms_robot.Base.Int.{ℤ, to_int32, residue, negsuc, ◌≤ℤ◌, pos}
use ms_robot.Wire.Bytes.Value.{
  from_bytes, All-to_big_endian_bytes, from_bytes-to_big_endian_bytes, length-to_big_endian_bytes,
  IsByte,
}
use ms_robot.Control.Event.{read_int16_be, read_int32_be, read_int64_be}
use ms_robot.Base.{
  ℕ, ◌<◌, ◌∷◌, ◌≡◌, [], arith, ◌^◌, ◌*◌, ◌+◌, List, ◌∙◌, length, ◌-◌, All, ap, ◌↔◌, refl, suc, take,
  drop, ◌%◌,
}

-- Four bytes joined by `<<` and `|` are the number that they stand for, read as a signed word.
read_int32_be-from_bytes :
    (bytes : List ℕ)
    → length bytes ≡ 4
    → All IsByte bytes
    → read_int32_be bytes ≡ to_int32 (from_bytes 0 bytes)
unfolding read_int32_be from_bytes
read_int32_be-from_bytes (a ∷ b ∷ c ∷ d ∷ []) l (ha, (hb, (hc, (hd, _)))) = ground (
  arith,
  bit_or-add 24 a (b * 2 ^ 16) (omega arith),
  bit_or-add 16 (a * 2 ^ 8 + b) (c * 2 ^ 8) (omega arith),
  bit_or-add 8 (a * 2 ^ 16 + b * 2 ^ 8 + c) d (omega arith),
)
read_int32_be-from_bytes _ l h = absurd (omega arith)

read_int16_be-from_bytes :
    (bytes : List ℕ)
    → length bytes ≡ 2
    → All IsByte bytes
    → read_int16_be bytes ≡ from_bytes 0 bytes
unfolding read_int16_be from_bytes
read_int16_be-from_bytes (a ∷ b ∷ []) l (ha, (hb, _)) =
    ground (arith, bit_or-add 8 a b (omega arith))
read_int16_be-from_bytes _ l h = absurd (omega arith)

-- A 32-bit field written by `toBigEndianBytes` is read back as a signed word.
read_int32_be-to_big_endian_bytes :
    (v : ℤ) → read_int32_be (to_big_endian_bytes v 4) ≡ to_int32 (residue v (2 ^ 32))
read_int32_be-to_big_endian_bytes v =
    read_int32_be-from_bytes _ (length-to_big_endian_bytes v 4) (All-to_big_endian_bytes v 4)
    ∙ ap to_int32 (from_bytes-to_big_endian_bytes v 4)

pub read_int16_be-to_big_endian_bytes :
    (v : ℤ) → read_int16_be (to_big_endian_bytes v 2) ≡ residue v (2 ^ 16)
read_int16_be-to_big_endian_bytes v =
    read_int16_be-from_bytes _ (length-to_big_endian_bytes v 2) (All-to_big_endian_bytes v 2)
    ∙ from_bytes-to_big_endian_bytes v 2

-- Reading four bytes gives back every integer of 32 bits.
pub read_int32_be_round_trip :
    (v : ℤ)
    → negsuc (2 ^ 31 - 1) ≤ℤ v
    → v ≤ℤ pos (2 ^ 31 - 1)
    → read_int32_be (to_big_endian_bytes v 4) ≡ v
read_int32_be_round_trip (pos n) lo hi = rw read_int32_be-to_big_endian_bytes (ground arith)
read_int32_be_round_trip (negsuc n) lo hi = rw read_int32_be-to_big_endian_bytes (ground arith)

abbrev Word : ℕ → Type 0
Word w = w < 2 ^ 32

or_zero : (a b : ℕ) → Word a → Word b → bit_or a b ≡ 0 → (a ≡ 0) × (b ≡ 0)
or_zero a b = bit_or-eq_zero (2 ^ 32) a b

-- Eight patterns joined by `|` are zero only if each is.
or_zero_eight :
    (a b c d e f g h : ℕ)
    → Word a
    → Word b
    → Word c
    → Word d
    → Word e
    → Word f
    → Word g
    → Word h
    → to_int32 (bit_or (bit_or (bit_or (bit_or (bit_or (bit_or (bit_or a b) c) d) e) f) g) h)
      ≡ pos 0
    → (a ≡ 0) × (b ≡ 0) × (c ≡ 0) × (d ≡ 0) × (e ≡ 0) × (f ≡ 0) × (g ≡ 0) × (h ≡ 0)
or_zero_eight a b c d e f g h ha hb hc hd he hf hg hh z =
    let l2 = bit_or-lt 32 a b ha hb in
    let l3 = bit_or-lt 32 (bit_or a b) c l2 hc in
    let l4 = bit_or-lt 32 (bit_or (bit_or a b) c) d l3 hd in
    let l5 = bit_or-lt 32 (bit_or (bit_or (bit_or a b) c) d) e l4 he in
    let l6 = bit_or-lt 32 (bit_or (bit_or (bit_or (bit_or a b) c) d) e) f l5 hf in
    let l7 = bit_or-lt 32 (bit_or (bit_or (bit_or (bit_or (bit_or a b) c) d) e) f) g l6 hg in
    let l8 =
      bit_or-lt 32 (bit_or (bit_or (bit_or (bit_or (bit_or (bit_or a b) c) d) e) f) g) h l7 hh in
    let z8 = or_zero _ h l7 hh (ground arith) in
    let z7 = or_zero _ g l6 hg z8.0 in
    let z6 = or_zero _ f l5 hf z7.0 in
    let z5 = or_zero _ e l4 he z6.0 in
    let z4 = or_zero _ d l3 hd z5.0 in
    let z3 = or_zero _ c l2 hc z4.0 in
    let z2 = or_zero a b ha hb z3.0 in (z2.0, z2.1, z3.1, z4.1, z5.1, z6.1, z7.1, z8.1)

-- Four bytes joined as a pattern.
word :
    (a b c d : ℕ)
    → IsByte a
    → IsByte b
    → IsByte c
    → IsByte d
    → bit_or (bit_or (bit_or (a * 2 ^ 24) (b * 2 ^ 16)) (c * 2 ^ 8)) d
      ≡ from_bytes 0 (a ∷ b ∷ c ∷ d ∷ [])
unfolding from_bytes
word a b c d ha hb hc hd = ground (
  arith,
  bit_or-add 24 a (b * 2 ^ 16) (omega arith),
  bit_or-add 16 (a * 2 ^ 8 + b) (c * 2 ^ 8) (omega arith),
  bit_or-add 8 (a * 2 ^ 16 + b * 2 ^ 8 + c) d (omega arith),
)

-- A pattern joined with four more is joined with what these make.
or_four :
    (x e f g h : ℕ)
    → bit_or (bit_or (bit_or (bit_or x e) f) g) h ≡ bit_or x (bit_or (bit_or (bit_or e f) g) h)
or_four x e f g h =
    ap (λ t. bit_or (bit_or t g) h) (bit_or_assoc (suc x) x e f (omega arith))
    ∙ ap (λ t. bit_or t h) (bit_or_assoc (suc x) x (bit_or e f) g (omega arith))
    ∙ bit_or_assoc (suc x) x (bit_or (bit_or e f) g) h (omega arith)

shifted : (x k : ℕ) → x * 2 ^ (k % 32) < 2 ^ 32 → shl32 x k ≡ x * 2 ^ (k % 32)
shifted x k h = omega arith

unshifted : (x k : ℕ) → k % 32 ≡ 0 → x < 2 ^ 32 → shl32 x k ≡ x
unshifted x k e h = rw e (omega arith)

read_int64_be-fold :
    (bytes : List ℕ)
    → length bytes ≡ 8
    → All IsByte bytes
    → read_int64_be bytes
      ≡ to_int32 (bit_or (from_bytes 0 (take 4 bytes)) (from_bytes 0 (drop 4 bytes)))
unfolding read_int64_be
read_int64_be-fold (a ∷ b ∷ c ∷ d ∷ e ∷ f ∷ g ∷ h ∷ []) l
      (ha, (hb, (hc, (hd, (he, (hf, (hg, (hh, _)))))))) =
    let high = word a b c d ha hb hc hd in
    let low = word e f g h he hf hg hh in
    rw
      (
        shifted a 56 (omega arith),
        shifted b 48 (omega arith),
        shifted c 40 (omega arith),
        unshifted d 32 refl (omega arith),
        shifted e 24 (omega arith),
        shifted f 16 (omega arith),
        shifted g 8 (omega arith),
        unshifted h 0 refl (omega arith),
      )
      (ap to_int32 (
        or_four _ (e * 2 ^ 24) (f * 2 ^ 16) (g * 2 ^ 8) h
        ∙ ap (λ t. bit_or t (bit_or (bit_or (bit_or (e * 2 ^ 24) (f * 2 ^ 16)) (g * 2 ^ 8)) h)) high
        ∙ ap (bit_or (from_bytes 0 (a ∷ b ∷ c ∷ d ∷ []))) low))
read_int64_be-fold _ l h = absurd (omega arith)

read_int64_be-zero :
    (bytes : List ℕ)
    → length bytes ≡ 8
    → All IsByte bytes
    → (read_int64_be bytes ≡ pos 0) ↔ (from_bytes 0 bytes ≡ 0)
unfolding read_int64_be from_bytes
read_int64_be-zero (a ∷ b ∷ c ∷ d ∷ e ∷ f ∷ g ∷ h ∷ []) l
      (ha, (hb, (hc, (hd, (he, (hf, (hg, (hh, _)))))))) =
    (
      λ z.
          let zs =
            or_zero_eight _ _ _ _ _ _ _ _ (omega arith) (omega arith) (omega arith) (omega arith)
              (omega arith) (omega arith) (omega arith) (omega arith) z in
          omega arith,
      λ z.
          let ea : a ≡ 0 = omega arith in
          let eb : b ≡ 0 = omega arith in
          let ec : c ≡ 0 = omega arith in
          let ed : d ≡ 0 = omega arith in
          let ee : e ≡ 0 = omega arith in
          let ef : f ≡ 0 = omega arith in
          let eg : g ≡ 0 = omega arith in
          let eh : h ≡ 0 = omega arith in rw (ea, eb, ec, ed, ee, ef, eg, eh),
    )
read_int64_be-zero _ l h = absurd (omega arith)

-- The eight bytes of a pointer id, from the first on, are folded onto 32 bits: what is read is the number
-- of the first four bytes joined bit by bit with that of the last four, as a signed word. Yet 0 is
-- read only if all eight are 0.
pub read_int64_be-eq_zero :
    (bytes : List ℕ)
    → length bytes ≡ 8
    → All IsByte bytes
    → (read_int64_be bytes
        ≡ to_int32 (bit_or (from_bytes 0 (take 4 bytes)) (from_bytes 0 (drop 4 bytes))))
      × ((read_int64_be bytes ≡ pos 0) ↔ (from_bytes 0 bytes ≡ 0))
read_int64_be-eq_zero bytes l h = (read_int64_be-fold bytes l h, read_int64_be-zero bytes l h)
