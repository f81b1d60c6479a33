-- ===== src/Hex/RoundTrip.antt =====
-- Printing bytes and reading the digits back.
use flare_hack.Prelude.{
  ℕ, ◌+◌, ◌*◌, ◌/◌, ◌%◌, ◌<◌, ◌≡◌, refl, ap, true, [], ◌∷◌, all, All, length, lower_char,
  upper_char, Text, Bytes, to_lower_case, to_upper_case, arith,
}
use flare_hack.Hex.{
  IsByte, is_hex_digit, digit_value, digit_char, hex_chars, parse_pairs, hex_number,
}

digit_value-digit_char : (d : ℕ) → d < 16 → digit_value (digit_char d) ≡ d
digit_value-digit_char d h = ground arith

digit_value-upper_char : (d : ℕ) → d < 16 → digit_value (upper_char (digit_char d)) ≡ d
digit_value-upper_char d h = ground arith

digit_char-digit_value : (c : ℕ) → is_hex_digit c ≡ true → digit_char (digit_value c) ≡ lower_char c
digit_char-digit_value c h = ground arith

pub digit_value-lt : (c : ℕ) → is_hex_digit c ≡ true → digit_value c < 16
digit_value-lt c h = ground arith

digit_char-is_hex_digit : (d : ℕ) → d < 16 → is_hex_digit (digit_char d) ≡ true
digit_char-is_hex_digit d h = ground arith

pub parse_pairs-hex_chars : (bs : Bytes) → All IsByte bs → parse_pairs (hex_chars bs) ≡ bs
unfolding parse_pairs hex_chars
parse_pairs-hex_chars [] h = refl
parse_pairs-hex_chars (b ∷ bs) (p, h) =
    rw
      (
        digit_value-digit_char (b / 16) (omega arith),
        digit_value-digit_char (b % 16) (omega arith),
        parse_pairs-hex_chars bs h,
      )
      (ap (λ n. n ∷ bs) (omega arith))

pub parse_pairs-to_upper_case :
    (bs : Bytes) → All IsByte bs → parse_pairs (to_upper_case (hex_chars bs)) ≡ bs
unfolding parse_pairs hex_chars
parse_pairs-to_upper_case [] h = refl
parse_pairs-to_upper_case (b ∷ bs) (p, h) =
    rw
      (
        digit_value-upper_char (b / 16) (omega arith),
        digit_value-upper_char (b % 16) (omega arith),
        parse_pairs-to_upper_case bs h,
      )
      (ap (λ n. n ∷ bs) (omega arith))

pub hex_chars-is_hex_digit : (bs : Bytes) → All IsByte bs → all is_hex_digit (hex_chars bs) ≡ true
unfolding hex_chars
hex_chars-is_hex_digit [] h = refl
hex_chars-is_hex_digit (b ∷ bs) (p, h) =
    rw
      (
        digit_char-is_hex_digit (b / 16) (omega arith),
        digit_char-is_hex_digit (b % 16) (omega arith),
      )
      (hex_chars-is_hex_digit bs h)

pub length-hex_chars : (bs : Bytes) → length (hex_chars bs) ≡ 2 * length bs
unfolding hex_chars
length-hex_chars [] = refl
length-hex_chars (b ∷ bs) = omega (arith, length-hex_chars bs)

pub length-parse_pairs : (s : Text) → length s % 2 ≡ 0 → 2 * length (parse_pairs s) ≡ length s
unfolding parse_pairs
length-parse_pairs [] h = refl
length-parse_pairs (c ∷ []) h = absurd (omega arith)
length-parse_pairs (c ∷ d ∷ s) h = omega (arith, length-parse_pairs s (omega arith))

pub parse_pairs-IsByte : (s : Text) → all is_hex_digit s ≡ true → All IsByte (parse_pairs s)
unfolding parse_pairs
parse_pairs-IsByte [] h = tt
parse_pairs-IsByte (c ∷ []) h = tt
parse_pairs-IsByte (c ∷ d ∷ s) h = (ground arith, parse_pairs-IsByte s (ground arith))

pair_digits :
    (x y : ℕ)
    → x < 16
    → y < 16
    → (digit_char ((x * 16 + y) / 16) ≡ digit_char x)
      × (digit_char ((x * 16 + y) % 16) ≡ digit_char y)
pair_digits x y h k = (ap digit_char (omega arith), ap digit_char (omega arith))

-- Reading and printing again gives the digits in lower case.
pub hex_chars-parse_pairs :
    (s : Text)
    → all is_hex_digit s ≡ true
    → length s % 2 ≡ 0
    → hex_chars (parse_pairs s) ≡ to_lower_case s
unfolding parse_pairs hex_chars
hex_chars-parse_pairs [] h e = refl
hex_chars-parse_pairs (c ∷ []) h e = absurd (omega arith)
hex_chars-parse_pairs (c ∷ d ∷ s) h e =
    let hc : is_hex_digit c ≡ true = ground arith in
    let hd : is_hex_digit d ≡ true = ground arith in
    let ih = hex_chars-parse_pairs s (ground arith) (omega arith) in
    let both =
      pair_digits (digit_value c) (digit_value d) (digit_value-lt c hc) (digit_value-lt d hd) in
    cc (both.0, both.1, ih, digit_char-digit_value c hc, digit_char-digit_value d hd)

pub hex_number-hex_chars :
    (n : ℕ) (b : ℕ) (s : Text)
    → b < 256
    → hex_number n (digit_char (b / 16) ∷ digit_char (b % 16) ∷ s) ≡ hex_number (n * 256 + b) s
unfolding hex_number
hex_number-hex_chars n b s h =
    rw
      (digit_value-digit_char (b / 16) (omega arith), digit_value-digit_char (b % 16) (omega arith))
      (ap (λ m. hex_number m s) (omega arith))
