-- ===== src/Wire/Text.antt =====
-- `stringToUtf8Bytes` of assets/web/static/js/control.js: what `TextEncoder` does with the code
-- units of a string.
pub mod Bounds
use ms_robot.Base.{
  ℕ, ◌+◌, ◌-◌, ◌*◌, ◌/◌, ◌%◌, ◌^◌, List, [], ◌∷◌, ◌++◌, Bool, true, false, ◌&&◌, Str, ltb, leb,
  if◌then◌else◌,
}

is_high_surrogate : ℕ → Bool
is_high_surrogate c = leb 0xD800 c && ltb c 0xDC00

is_low_surrogate : ℕ → Bool
is_low_surrogate c = leb 0xDC00 c && ltb c 0xE000

-- The bytes of one code point.
encode_point : ℕ → List ℕ
encode_point p =
    if ltb p 0x80
    then p ∷ []
    else if ltb p 0x800
    then (0xC0 + p / 64) ∷ (0x80 + p % 64) ∷ []
    else if ltb p 0x1_0000
    then (0xE0 + p / 4096) ∷ (0x80 + p / 64 % 64) ∷ (0x80 + p % 64) ∷ []
    else (0xF0 + p / 2 ^ 18) ∷ (0x80 + p / 4096 % 64) ∷ (0x80 + p / 64 % 64) ∷ (0x80 + p % 64) ∷ []

-- A surrogate without its partner is replaced by U+FFFD.
encode_unit : ℕ → List ℕ
encode_unit c =
    if is_high_surrogate c
    then encode_point 0xFFFD
    else if is_low_surrogate c
    then encode_point 0xFFFD
    else encode_point c

-- A high surrogate with its low surrogate behind it.
is_pair : ℕ → ℕ → Bool
unfolding is_high_surrogate is_low_surrogate
is_pair c d = is_high_surrogate c && is_low_surrogate d

pair_point : ℕ → ℕ → ℕ
pair_point c d = 0x1_0000 + (c - 0xD800) * 1024 + (d - 0xDC00)

unfoldable pub string_to_utf8_bytes : Str → List ℕ
unfolding encode_unit encode_point pair_point is_pair
string_to_utf8_bytes [] = []
string_to_utf8_bytes (c ∷ []) = encode_unit c
string_to_utf8_bytes (c ∷ d ∷ rest) =
    let paired = encode_point (pair_point c d) ++ string_to_utf8_bytes rest in
    let single = encode_unit c ++ string_to_utf8_bytes (d ∷ rest) in
    if is_pair c d then paired else single
