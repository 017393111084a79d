-- ===== src/Wire/Text/Bounds.antt =====
-- The encoder produces bytes.
use ms_robot.Base.{
  ℕ, ◌^◌, ◌<◌, [], ◌∷◌, ◌≡◌, true, inl, inr, arith, Str, All, All-append, Bool-cases,
}
use ms_robot.Wire.Bytes.Value.{IsByte}
use ms_robot.Wire.Text.{encode_point, encode_unit, string_to_utf8_bytes, is_pair, pair_point}

-- A string of UTF-16 code units.
abbrev pub IsUtf16 : Str → Type 0
IsUtf16 = All (λ c. c < 2 ^ 16)

encode_point-IsByte : (p : ℕ) → p < 2 ^ 22 → All IsByte (encode_point p)
unfolding encode_point
encode_point-IsByte p h = ground arith

encode_unit-IsByte : (c : ℕ) → c < 2 ^ 16 → All IsByte (encode_unit c)
unfolding encode_unit
encode_unit-IsByte c h =
    ground (arith, encode_point-IsByte c (omega arith), encode_point-IsByte 0xFFFD (omega arith))

pair_point-lt : (c d : ℕ) → is_pair c d ≡ true → pair_point c d < 2 ^ 22
unfolding is_pair pair_point
pair_point-lt c d h = ground arith

-- Every byte of an encoded string is below 256.
pub string_to_utf8_bytes-IsByte : (s : Str) → IsUtf16 s → All IsByte (string_to_utf8_bytes s)
unfolding string_to_utf8_bytes
string_to_utf8_bytes-IsByte [] h = tt
string_to_utf8_bytes-IsByte (c ∷ []) h = encode_unit-IsByte c h.0
string_to_utf8_bytes-IsByte (c ∷ d ∷ rest) h =
    let paired = string_to_utf8_bytes-IsByte rest h.1.1 in
    let single = string_to_utf8_bytes-IsByte (d ∷ rest) h.1 in
    elim (Bool-cases (is_pair c d)) [
      | inl e ↦ rw e (
          All-append IsByte _ _ (encode_point-IsByte (pair_point c d) (pair_point-lt c d e)) paired)
      | inr e ↦ rw e (All-append IsByte _ _ (encode_unit-IsByte c h.0) single)
    ]
