-- ===== src/Encoding/RoundTrip.antt =====
-- extension/typescript/src/base/encoding.ts: decoding what was encoded.
use flare_hack.Prelude.{
  ◌≡◌, refl, ap, some, [], ◌∷◌, arith, All, ok, Text, Bytes, starts_with, to_lower_case,
}
use flare_hack.Hex.{IsByte, hex_chars, parse_pairs, with_prefix}
use flare_hack.Hex.RoundTrip.{
  parse_pairs-hex_chars, hex_chars-is_hex_digit, length-hex_chars, hex_chars-parse_pairs,
}
use flare_hack.Encoding.{strip_prefix, decode_digits, hex_to_bytes, bytes_to_hex}

decode_digits-hex_chars : (bs : Bytes) → All IsByte bs → decode_digits (hex_chars bs) ≡ ok bs
decode_digits-hex_chars [] h = unfold hex_chars in refl
decode_digits-hex_chars (b ∷ bs) h = ground (
  arith,
  length-hex_chars (b ∷ bs),
  hex_chars-is_hex_digit (b ∷ bs) h,
  parse_pairs-hex_chars (b ∷ bs) h,
)

-- Any bytes, the empty array included, survive the way to hex and back.
pub hex_to_bytes-bytes_to_hex :
    (bs : Bytes) → All IsByte bs → hex_to_bytes (some (bytes_to_hex bs)) ≡ ok bs
unfolding hex_to_bytes bytes_to_hex starts_with
hex_to_bytes-bytes_to_hex bs h = decode_digits-hex_chars bs h

hex_chars-decode_digits :
    (s : Text) {bs : Bytes} → decode_digits s ≡ ok bs → hex_chars bs ≡ to_lower_case s
hex_chars-decode_digits [] h = unfold hex_chars in ground arith
hex_chars-decode_digits (c ∷ s) {bs} h =
    let e : parse_pairs (c ∷ s) ≡ bs = ground arith in
    rw (← e) (hex_chars-parse_pairs (c ∷ s) (ground arith) (ground arith))

-- Bytes that were decoded from a string are encoded as its digits in lower case, behind 0x.
pub bytes_to_hex-hex_to_bytes :
    (s : Text) {bs : Bytes}
    → hex_to_bytes (some s) ≡ ok bs
    → bytes_to_hex bs ≡ with_prefix (to_lower_case (strip_prefix s))
unfolding hex_to_bytes bytes_to_hex
bytes_to_hex-hex_to_bytes s h = ap with_prefix (hex_chars-decode_digits (strip_prefix s) h)
