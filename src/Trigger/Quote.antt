-- ===== src/Trigger/Quote.antt =====
-- extension/typescript/src/app/triggers.ts: a feed's answer, as the contract encodes it, is read back.
use flare_hack.Prelude.{
  ◌%◌, Bytes, All, ℕ, ◌-◌, ◌^◌, ◌<◌, ◌/◌, ◌≡◌, refl, ap, ◌∙◌, false, if◌then◌else◌, ◌==◌, some, [],
  ◌∷◌, ◌++◌, append_assoc, append-nil, ltb, ◌||◌, arith, length, length-append, take-append,
  drop-append, ℤ, pos, negsuc, Text, codes, ◌===◌,
}
use flare_hack.BigInt.{big_hex}
use flare_hack.BigInt.Digits.{big_hex-digits}
use flare_hack.Hex.{IsByte, digit_char, hex_chars, hex_number}
use flare_hack.Hex.RoundTrip.{hex_chars-is_hex_digit, length-hex_chars}
use flare_hack.Endian.{be_bytes}
use flare_hack.Endian.RoundTrip.{
  be_number-be_bytes, length-be_bytes, be_bytes-IsByte, hex_number-eq-be_number,
}
use flare_hack.Trigger.{decimals_of, word_at, decode_feed}

-- A word of 32 bytes, in hex digits.
abbrev word : ℕ → Text
word n = hex_chars (be_bytes 32 n)

-- Two's complement in a word of 32 bytes.
abbrev signed_word : ℤ → ℕ
signed_word (pos n) = n
signed_word (negsuc n) = 2 ^ 256 - n - 1

abbrev IsInt8 : ℤ → Type 0
IsInt8 (pos n) = n < 128
IsInt8 (negsuc n) = n < 128

-- The ABI encoding of the result `(uint256 value, int8 decimals, uint64 timestamp)`.
abbrev pub encoded_quote : ℕ → ℤ → ℕ → Text
encoded_quote value decimals timestamp =
    codes "0x" ++ (word value ++ (word (signed_word decimals) ++ word timestamp))

length-word : (n : ℕ) → length (word n) ≡ 64
length-word n = omega (arith, length-hex_chars (be_bytes 32 n), length-be_bytes 32 n)

big_hex-bytes :
    (bs : Bytes)
    → All IsByte bs
    → 0 < length bs
    → big_hex (hex_chars bs) ≡ some (hex_number 0 (hex_chars bs))
unfolding hex_chars
big_hex-bytes [] h some_byte = absurd (omega arith)
big_hex-bytes (b ∷ bs) h some_byte =
    big_hex-digits (digit_char (b / 16)) (digit_char (b % 16) ∷ hex_chars bs)
      (hex_chars-is_hex_digit (b ∷ bs) h)

word_at-word :
    (n : ℕ) {from : ℕ} (before after : Text)
    → n < 2 ^ 256
    → length before ≡ from
    → word_at from (before ++ (word n ++ after)) ≡ some n
unfolding word_at
word_at-word n before after h from =
    rw (drop-append before (word n ++ after) from, take-append (word n) after (length-word n))
      (big_hex-bytes (be_bytes 32 n) (be_bytes-IsByte 32 n) (omega (arith, length-be_bytes 32 n))
        ∙ ap some (
            hex_number-eq-be_number 0 (be_bytes 32 n) (be_bytes-IsByte 32 n)
            ∙ be_number-be_bytes 32 n h))

decimals_of-signed_word : (d : ℤ) → IsInt8 d → decimals_of (signed_word d) ≡ d
decimals_of-signed_word (pos n) h = ground arith
decimals_of-signed_word (negsuc n) h = ground arith

signed_word-lt : (d : ℤ) → IsInt8 d → signed_word d < 2 ^ 256
signed_word-lt (pos n) h = omega arith
signed_word-lt (negsuc n) h = omega arith

answer-present :
    (s : Text)
    → 0 < length s
    → ((codes "0x" ++ s === codes "") || (codes "0x" ++ s === codes "0x")) ≡ false
unfolding ◌===◌
answer-present [] h = absurd (omega arith)
answer-present (c ∷ s) h = refl

-- What `readFeed` makes of the contract's answer is what the contract encoded: value, signed number of decimals and timestamp, but the clock's seconds in place of a timestamp 0. The value is a uint256, the decimals an int8, and the timestamp a number that a JavaScript number holds exactly.
pub decode_feed-encoded_quote :
    (now_ms value : ℕ) (decimals : ℤ) (timestamp : ℕ)
    → value < 2 ^ 256
    → IsInt8 decimals
    → timestamp < 2 ^ 53
    → decode_feed now_ms (encoded_quote value decimals timestamp)
      ≡ some (record {
        value = value;
        decimals = decimals;
        timestamp = if timestamp == 0 then now_ms / 1000 else timestamp;
      })
unfolding decode_feed flare_hack.Prelude.starts_with
decode_feed-encoded_quote now_ms value decimals timestamp v d t =
    let a = word value in
    let b = word (signed_word decimals) in
    let c = word timestamp in
    let first : word_at 0 (a ++ (b ++ c)) ≡ some value = word_at-word value [] (b ++ c) v refl in
    let second : word_at 64 (a ++ (b ++ c)) ≡ some (signed_word decimals) =
      word_at-word (signed_word decimals) a c (signed_word-lt decimals d) (length-word value) in
    let third : word_at 128 (a ++ (b ++ c)) ≡ some timestamp =
      rw (append_assoc a b (c ++ []), append-nil c) at
        (word_at-word timestamp {from = 128} (a ++ b) [] (omega (arith, t)) (
          omega
            (arith, length-append a b, length-word value, length-word (signed_word decimals)))) in
    let whole : length (a ++ (b ++ c)) ≡ 192 = omega (
      arith,
      length-append a (b ++ c),
      length-append b c,
      length-word value,
      length-word (signed_word decimals),
      length-word timestamp,
    ) in
    let long : ltb (length (a ++ (b ++ c))) 192 ≡ false = ground (arith, whole) in
    rw (answer-present (a ++ (b ++ c)) (omega (arith, whole)), long, first, second, third)
      (ap
        (λ (x : ℤ). some (record {
          value = value;
          decimals = x;
          timestamp = if timestamp == 0 then now_ms / 1000 else timestamp;
        }))
        (decimals_of-signed_word decimals d))
