-- ===== src/Encoding.antt =====
-- extension/typescript/src/base/encoding.ts
pub mod RoundTrip
use flare_hack.Prelude.{
  ℕ, zero, suc, ◌+◌, ◌-◌, ◌/◌, ◌%◌, ◌||◌, Option, none, some, [], ◌∷◌, ◌++◌, ltb, ◌==◌,
  if◌then◌else◌, length, drop, all, Except, ok, err, Text, Bytes, codes, starts_with,
}
use flare_hack.Hex.{is_hex_digit, parse_pairs, hex_chars, with_prefix}

pub data HexError : Type 0 where
  odd_length : ℕ → HexError
  not_hex : HexError
  too_long : ℕ → HexError

abbrev pub strip_prefix : Text → Text
strip_prefix h = if starts_with h (codes "0x") || starts_with h (codes "0X") then drop 2 h else h

-- The rest of `hexToBytes`, behind the prefix.
abbrev pub decode_digits : Text → Except HexError Bytes
decode_digits s =
    if length s == 0
    then ok []
    else if length s % 2 == 0
    then if all is_hex_digit s then ok (parse_pairs s) else err not_hex
    else err (odd_length (length s))

-- `none` stands for null and undefined.
unfoldable pub hex_to_bytes : Option Text → Except HexError Bytes
hex_to_bytes none = ok []
hex_to_bytes (some h) = decode_digits (strip_prefix h)

unfoldable pub bytes_to_hex : Bytes → Text
bytes_to_hex b = with_prefix (hex_chars b)

-- `new TextEncoder().encode(s)`
abbrev utf8_char : ℕ → Bytes
utf8_char c =
    if ltb c 0x80
    then c ∷ []
    else if ltb c 0x800
    then (0xc0 + c / 0x40) ∷ (0x80 + c % 0x40) ∷ []
    else if ltb c 0x10000
    then (0xe0 + c / 0x1000) ∷ (0x80 + c / 0x40 % 0x40) ∷ (0x80 + c % 0x40) ∷ []
    else (0xf0 + c / 0x40000)
      ∷ (0x80 + c / 0x1000 % 0x40)
      ∷ (0x80 + c / 0x40 % 0x40)
      ∷ (0x80 + c % 0x40)
      ∷ []

unfoldable pub utf8 : Text → Bytes
utf8 [] = []
utf8 (c ∷ s) = utf8_char c ++ utf8 s

abbrev pub zeros : ℕ → Bytes
zeros zero = []
zeros (suc n) = 0 ∷ zeros n

unfoldable pub string_to_bytes32_hex : Text → Except HexError Text
unfolding utf8 bytes_to_hex
string_to_bytes32_hex s =
    let encoded = utf8 s in
    if ltb 32 (length encoded)
    then err (too_long (length encoded))
    else ok (bytes_to_hex (encoded ++ zeros (32 - length encoded)))
