-- ===== src/Hex.antt =====
-- Hexadecimal text: what `b.toString(16).padStart(2, "0")` prints for a byte, and what
-- `Number.parseInt(s.slice(i * 2, i * 2 + 2), 16)` reads from two hex digits.
pub mod RoundTrip
use flare_hack.Prelude.{
  ℕ, ◌+◌, ◌-◌, ◌*◌, ◌/◌, ◌%◌, ◌<◌, ◌≡◌, Bool, true, ◌&&◌, ◌||◌, [], ◌∷◌, leb, all, if◌then◌else◌,
  Text, Bytes,
}

abbrev pub IsByte : ℕ → Type 0
IsByte b = b < 256

-- the class [0-9a-fA-F]
abbrev pub is_hex_digit : ℕ → Bool
is_hex_digit c =
    (leb b'0' c && leb c b'9') || ((leb b'a' c && leb c b'f') || (leb b'A' c && leb c b'F'))

abbrev pub digit_value : ℕ → ℕ
digit_value c = if leb c b'9' then c - 48 else if leb c b'F' then c - 55 else c - 87

abbrev pub digit_char : ℕ → ℕ
digit_char d = if leb d 9 then d + 48 else d + 87

-- The two digits of each byte, in lower case.
unfoldable pub hex_chars : Bytes → Text
hex_chars [] = []
hex_chars (b ∷ bs) = digit_char (b / 16) ∷ digit_char (b % 16) ∷ hex_chars bs

-- The loop over the pairs of digits; a last odd digit is not reached.
unfoldable pub parse_pairs : Text → Bytes
parse_pairs [] = []
parse_pairs (c ∷ []) = []
parse_pairs (c ∷ d ∷ s) = (digit_value c * 16 + digit_value d) ∷ parse_pairs s

-- The number that hex digits stand for, after what was read before: `BigInt("0x…")`.
unfoldable pub hex_number : ℕ → Text → ℕ
hex_number n [] = n
hex_number n (c ∷ s) = hex_number (n * 16 + digit_value c) s

-- `0x` and the digits.
abbrev pub with_prefix : Text → Text
with_prefix s = b'0' ∷ b'x' ∷ s

-- `/^0x[0-9a-fA-F]*$/`
abbrev pub IsHexText : Text → Type 0
IsHexText [] = ⊥
IsHexText (c ∷ []) = ⊥
IsHexText (c ∷ d ∷ s) = (c ≡ b'0') × (d ≡ b'x') × (all is_hex_digit s ≡ true)
