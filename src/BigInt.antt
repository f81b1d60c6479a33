-- ===== src/BigInt.antt =====
-- `BigInt(s)` of a string.
pub mod Digits
use flare_hack.Prelude.{
  ℕ, zero, suc, ◌+◌, ◌-◌, ◌*◌, Bool, ◌&&◌, ◌||◌, ◌==◌, leb, all, if◌then◌else◌, Option, none, some,
  [], ◌∷◌, ℤ, pos, negsuc, Text,
}
use flare_hack.Hex.{is_hex_digit, hex_number}

-- White space and line ends of the language.
abbrev pub is_white : ℕ → Bool
is_white c =
    (leb 9 c && leb c 13)
    || (c == 32)
    || (c == 0xa0)
    || (c == 0x1680)
    || (leb 0x2000 c && leb c 0x200a)
    || (c == 0x2028)
    || (c == 0x2029)
    || (c == 0x202f)
    || (c == 0x205f)
    || (c == 0x3000)
    || (c == 0xfeff)

unfoldable pub trim_start : Text → Text
trim_start [] = []
trim_start (c ∷ s) = let rest = trim_start s in if is_white c then rest else c ∷ s

abbrev white_or : ℕ → Text → Text
white_or c [] = if is_white c then [] else c ∷ []
white_or c (d ∷ s) = c ∷ d ∷ s

unfoldable pub trim_end : Text → Text
trim_end [] = []
trim_end (c ∷ s) = white_or c (trim_end s)

abbrev pub is_digit : ℕ → Bool
is_digit c = leb b'0' c && leb c b'9'

abbrev pub is_octal_digit : ℕ → Bool
is_octal_digit c = leb b'0' c && leb c b'7'

abbrev pub is_binary_digit : ℕ → Bool
is_binary_digit c = leb b'0' c && leb c b'1'

-- The number that digits up to 9 stand for, after what was read before.
unfoldable pub number_in : ℕ → ℕ → Text → ℕ
number_in base n [] = n
number_in base n (c ∷ s) = number_in base (n * base + (c - 48)) s

-- At least one digit, and nothing else.
abbrev pub all_digits : (ℕ → Bool) → (Text → ℕ) → Text → Option ℕ
all_digits is value [] = none
all_digits is value (c ∷ s) = if all is (c ∷ s) then some (value (c ∷ s)) else none

abbrev pub positive : Option ℕ → Option ℤ
positive none = none
positive (some n) = some (pos n)

abbrev pub negative : Option ℕ → Option ℤ
negative none = none
negative (some zero) = some (pos 0)
negative (some (suc n)) = some (negsuc n)

abbrev pub decimal : Text → Option ℕ
decimal s = all_digits is_digit (number_in 10 0) s

-- What follows a first 0; a prefix takes no sign.
abbrev pub after_zero : Text → Option ℕ
after_zero [] = some 0
after_zero (d ∷ s) =
    if (d == b'x') || (d == b'X')
    then all_digits is_hex_digit (hex_number 0) s
    else if (d == b'o') || (d == b'O')
    then all_digits is_octal_digit (number_in 8 0) s
    else if (d == b'b') || (d == b'B')
    then all_digits is_binary_digit (number_in 2 0) s
    else decimal (b'0' ∷ d ∷ s)

-- An empty text is 0.
abbrev pub literal : Text → Option ℤ
literal [] = some (pos 0)
literal (c ∷ s) =
    if c == b'-'
    then negative (decimal s)
    else if c == b'+'
    then positive (decimal s)
    else if c == b'0'
    then positive (after_zero s)
    else positive (decimal (c ∷ s))

-- `none` where it throws
unfoldable pub big_int : Text → Option ℤ
big_int s = literal (trim_end (trim_start s))

-- `BigInt("0x" + s)`; the text begins with no white space, and its number has no sign.
unfoldable pub big_hex : Text → Option ℕ
big_hex s = all_digits is_hex_digit (hex_number 0) (trim_end s)
