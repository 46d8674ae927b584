-- ===== src/Strconv.antt =====
-- What the package uses of Go's `strconv`: each function returns a value and an error.
use go_sessions.Base.{
  ℕ, ◌+◌, ◌-◌, ◌*◌, ◌^◌, GoString, codes, str_eq, ltb, leb, ◌==◌, Bool, true, false, ◌&&◌, ◌||◌,
  Option, none, some, List, [], ◌∷◌, if◌then◌else◌,
}
use go_sessions.Base.Int.{ℤ, pos, negsuc}
use go_sessions.Value.{Value}

-- `not_found` is the error of `errIntParseFormat`, with the wanted type, the key and the value.
pub data Error : Type 0 where
  syntax out_of_range : Error
  not_found : GoString → GoString → Value → Error

abbrev pub WithError : Type 0 → Type 0
WithError A = A × Option Error

abbrev max_uint64 : ℕ
max_uint64 = 2 ^ 64 - 1

unfoldable pub is_digit : ℕ → Bool
is_digit c = leb b'0' c && leb c b'9'

-- The loop of `ParseUint(s, 10, 64)` from the value `n` of the digits read.
unfoldable pub parse_digits : ℕ → GoString → WithError ℕ
unfolding is_digit
parse_digits n [] = (n, none)
parse_digits n (c ∷ s) =
    let n1 : ℕ = n * 10 + (c - b'0') in
    let rest = parse_digits n1 s in
    if is_digit c
    then if ltb max_uint64 n1 then (max_uint64, some out_of_range) else rest
    else (0, some syntax)

unfoldable pub parse_uint : GoString → WithError ℕ
unfolding parse_digits
parse_uint [] = (0, some syntax)
parse_uint (c ∷ s) = parse_digits 0 (c ∷ s)

-- -n
abbrev pub negate : ℕ → ℤ
negate n = if n == 0 then pos 0 else negsuc (n - 1)

-- The end of `ParseInt`: the range of the signed type.
unfoldable pub signed : Bool → WithError ℕ → WithError ℤ
signed neg (n, some syntax) = (pos 0, some syntax)
signed neg (n, e) =
    if neg
    then (if ltb (2 ^ 63) n then (negate (2 ^ 63), some out_of_range) else (negate n, e))
    else (if leb (2 ^ 63) n then (pos (2 ^ 63 - 1), some out_of_range) else (pos n, e))

-- `ParseInt(s, 10, 64)`; `Atoi(s)` is the same where an `int` has 64 bits.
unfoldable pub parse_int : GoString → WithError ℤ
unfolding parse_uint signed
parse_int [] = (pos 0, some syntax)
parse_int (c ∷ s) =
    if c == b'-'
    then signed true (parse_uint s)
    else if c == b'+'
    then signed false (parse_uint s)
    else signed false (parse_uint (c ∷ s))

abbrev pub atoi : GoString → WithError ℤ
atoi = parse_int

abbrev one_of : GoString → List GoString → Bool
one_of s [] = false
one_of s (t ∷ ts) = str_eq s t || one_of s ts

-- `ParseBool`
unfoldable pub parse_bool : GoString → WithError Bool
unfolding str_eq
parse_bool s =
    if one_of s
      (codes "1" ∷ codes "t" ∷ codes "T" ∷ codes "TRUE" ∷ codes "true" ∷ codes "True" ∷ [])
    then (true, none)
    else if one_of s
        (codes "0" ∷ codes "f" ∷ codes "F" ∷ codes "FALSE" ∷ codes "false" ∷ codes "False" ∷ [])
    then (false, none)
    else (false, some syntax)

-- Floats are bit patterns; these are the conversions that the package calls.
pub record Floats : Type 0 where
  pub int_to_32 : ℤ → ℕ
  pub int_to_64 : ℤ → ℕ
  pub widen : ℕ → ℕ
  pub narrow : ℕ → ℕ
  pub parse_float : GoString → ℕ → WithError ℕ
  pub minus_one32 : ℕ
  pub minus_one64 : ℕ
