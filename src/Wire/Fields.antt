-- ===== src/Wire/Fields.antt =====
-- The reader's view of a message: a sequence of big-endian fields of given sizes.
use mathlib.Core.List.{map-append, append-nil}
use native.Mathlib.Nat.{mod-eq_of_lt}
use ms_robot.Base.{
  ℕ, ◌^◌, ◌*◌, ◌%◌, List, [], ◌∷◌, ◌++◌, ◌≡◌, refl, sym, arith, take, drop, All, take-append_self,
  drop-append_self,
}
use ms_robot.Base.Int.{ℤ, pos, residue}
use ms_robot.Wire.Bytes.{to_big_endian_bytes, uint8_array}
use ms_robot.Wire.Bytes.Value.{
  IsByte, from_bytes, from_bytes-to_big_endian_bytes, length-to_big_endian_bytes,
  All-to_big_endian_bytes,
}

-- The values of the fields, and the bytes behind them.
pub read_fields : List ℕ → List ℕ → List ℕ × List ℕ
read_fields [] bytes = ([], bytes)
read_fields (n ∷ sizes) bytes =
    let (values, rest) = read_fields sizes (drop n bytes) in
    (from_bytes 0 (take n bytes) ∷ values, rest)

pub read_fields-nil : (bytes : List ℕ) → read_fields [] bytes ≡ ([], bytes)
unfolding read_fields
read_fields-nil bytes = refl

-- A written field is read back as its residue.
pub read_fields-append :
    (v : ℤ) (n : ℕ) (sizes bytes : List ℕ)
    → read_fields (n ∷ sizes) (to_big_endian_bytes v n ++ bytes)
      ≡ (residue v (2 ^ (n * 8)) ∷ (read_fields sizes bytes).0, (read_fields sizes bytes).1)
unfolding read_fields
read_fields-append v n sizes bytes =
    let e =
      take-append_self (to_big_endian_bytes v n) bytes n (sym (length-to_big_endian_bytes v n)) in
    let d =
      drop-append_self (to_big_endian_bytes v n) bytes n (sym (length-to_big_endian_bytes v n)) in
    rw (e, d, from_bytes-to_big_endian_bytes v n)

-- One byte, written as it is.
pub read_fields-cons :
    (b : ℕ) (sizes bytes : List ℕ)
    → read_fields (1 ∷ sizes) (b ∷ bytes)
      ≡ (b ∷ (read_fields sizes bytes).0, (read_fields sizes bytes).1)
unfolding read_fields from_bytes
read_fields-cons b sizes bytes = ground arith

pub uint8_array_id : (bytes : List ℕ) → All IsByte bytes → uint8_array bytes ≡ bytes
unfolding uint8_array
uint8_array_id [] h = refl
uint8_array_id (b ∷ bytes) h = cc (mod-eq_of_lt h.0, uint8_array_id bytes h.1)

pub uint8_array-to_big_endian_bytes :
    (v : ℤ) (n : ℕ) → uint8_array (to_big_endian_bytes v n) ≡ to_big_endian_bytes v n
uint8_array-to_big_endian_bytes v n = uint8_array_id _ (All-to_big_endian_bytes v n)

pub uint8_array-append :
    (xs ys : List ℕ) → uint8_array (xs ++ ys) ≡ uint8_array xs ++ uint8_array ys
unfolding uint8_array
uint8_array-append xs ys = map-append _ xs ys

pub uint8_array-cons : (x : ℕ) (xs : List ℕ) → uint8_array (x ∷ xs) ≡ (x % 256) ∷ uint8_array xs
unfolding uint8_array
uint8_array-cons x xs = refl

pub read_fields_last :
    (v : ℤ) (n : ℕ)
    → read_fields (n ∷ []) (to_big_endian_bytes v n) ≡ (residue v (2 ^ (n * 8)) ∷ [], [])
read_fields_last v n = let e = read_fields-append v n [] [] in rw (append-nil, read_fields-nil) at e

pub uint8_array-nil : uint8_array [] ≡ []
unfolding uint8_array
uint8_array-nil = refl

pub one_byte : (n : ℕ) → to_big_endian_bytes (pos n) 1 ≡ (n % 256) ∷ []
unfolding to_big_endian_bytes
one_byte n = ground arith

pub ruleset field_laws = (
  read_fields_last, uint8_array-nil, uint8_array-to_big_endian_bytes, uint8_array-append,
  uint8_array-cons, read_fields-nil, read_fields-append, read_fields-cons,
)
