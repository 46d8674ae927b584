-- ===== src/Strings/Trim.antt =====
-- `strings.TrimSpace`, on the bytes of UTF-8.
use mathlib.Core.List.{reverse}
use go_sessions.Base.{
  ℕ, zero, suc, GoString, ◌==◌, leb, Bool, ◌||◌, ◌&&◌, [], ◌∷◌, drop, if◌then◌else◌,
}

abbrev between : ℕ → ℕ → ℕ → Bool
between low high b = leb low b && leb b high

-- The runes of `unicode.IsSpace` that have one byte, two bytes and three.
abbrev one_byte : ℕ → Bool
one_byte a = between 9 13 a || a == b' '

abbrev two_bytes : ℕ → ℕ → Bool
two_bytes a b = a == 0xC2 && (b == 0x85 || b == 0xA0)

abbrev three_bytes : ℕ → ℕ → ℕ → Bool
three_bytes a b c =
    a == 0xE1 && b == 0x9A && c == 0x80
    || a == 0xE2 && b == 0x80 && (between 0x80 0x8A c || c == 0xA8 || c == 0xA9 || c == 0xAF)
    || a == 0xE2 && b == 0x81 && c == 0x9F
    || a == 0xE3 && b == 0x80 && c == 0x80

-- The bytes of the space in front, if there is one.
abbrev first_width : GoString → ℕ
first_width [] = 0
first_width (a ∷ []) = if one_byte a then 1 else 0
first_width (a ∷ b ∷ []) = if one_byte a then 1 else if two_bytes a b then 2 else 0
first_width (a ∷ b ∷ c ∷ s) =
    if one_byte a then 1 else if two_bytes a b then 2 else if three_bytes a b c then 3 else 0

-- The same of the space at the end, for the bytes in reverse.
abbrev last_width : GoString → ℕ
last_width [] = 0
last_width (a ∷ []) = if one_byte a then 1 else 0
last_width (b ∷ a ∷ []) = if one_byte b then 1 else if two_bytes a b then 2 else 0
last_width (c ∷ b ∷ a ∷ s) =
    if one_byte c then 1 else if two_bytes b c then 2 else if three_bytes a b c then 3 else 0

-- The number of bytes of the spaces in front, of which `left` belong to one that has begun.
unfoldable spaces : (GoString → ℕ) → ℕ → GoString → ℕ
spaces width left [] = 0
spaces width (suc left) (b ∷ s) = suc (spaces width left s)
spaces width zero (b ∷ s) = elim (width (b ∷ s)) [ zero ↦ 0 | suc left ↦ suc (spaces width left s) ]

abbrev without_spaces : (GoString → ℕ) → GoString → GoString
without_spaces width s = drop (spaces width 0 s) s

unfoldable pub trim_space : GoString → GoString
unfolding spaces
trim_space s = reverse (without_spaces last_width (reverse (without_spaces first_width s)))
