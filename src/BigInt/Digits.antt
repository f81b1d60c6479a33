-- ===== src/BigInt/Digits.antt =====
-- `BigInt` of digits, and of what `toString` printed.
use mathlib.Core.Path.{subst}
use flare_hack.Prelude.{
  ℕ, zero, suc, ◌+◌, ◌/◌, ◌%◌, ◌<◌, ◌≡◌, ◌∙◌, refl, sym, ap, inl, inr, true, false, ◌==◌, ◌||◌, ltb,
  Bool-cases, all, some, [], ◌∷◌, pos, arith, Text,
}
use flare_hack.Hex.{is_hex_digit, hex_number}
use flare_hack.Decimal.{decimal_loop, to_decimal}
use flare_hack.BigInt.{
  is_white, trim_start, trim_end, is_digit, number_in, decimal, positive, after_zero, literal,
  big_int, big_hex,
}

hex_white : (c : ℕ) → is_hex_digit c ≡ true → is_white c ≡ false
hex_white c h = ground arith

trim_end-hex : (s : Text) → all is_hex_digit s ≡ true → trim_end s ≡ s
unfolding trim_end
trim_end-hex [] h = refl
trim_end-hex (c ∷ []) h = rw (hex_white c (ground arith)) refl
trim_end-hex (c ∷ d ∷ s) h = rw (trim_end-hex (d ∷ s) (ground arith)) refl

-- A text of hex digits is read as their number.
pub big_hex-digits :
    (c : ℕ) (s : Text)
    → all is_hex_digit (c ∷ s) ≡ true
    → big_hex (c ∷ s) ≡ some (hex_number 0 (c ∷ s))
unfolding big_hex
big_hex-digits c s h = rw (trim_end-hex (c ∷ s) h, h) refl

all_hex : (s : Text) → all is_digit s ≡ true → all is_hex_digit s ≡ true
all_hex [] h = refl
all_hex (c ∷ s) h = ground (arith, all_hex s (ground arith))

trim_start-digits : (s : Text) → all is_digit s ≡ true → trim_start s ≡ s
unfolding trim_start
trim_start-digits [] h = refl
trim_start-digits (c ∷ s) h = rw (hex_white c (ground arith)) refl

decimal-digits :
    (c : ℕ) (s : Text)
    → all is_digit (c ∷ s) ≡ true
    → decimal (c ∷ s) ≡ some (number_in 10 0 (c ∷ s))
decimal-digits c s h = rw h refl

after_zero-digits :
    (s : Text) → all is_digit (b'0' ∷ s) ≡ true → after_zero s ≡ some (number_in 10 0 (b'0' ∷ s))
unfolding number_in
after_zero-digits [] h = refl
after_zero-digits (d ∷ s) h =
    let x : ((d == b'x') || (d == b'X')) ≡ false = ground arith in
    let o : ((d == b'o') || (d == b'O')) ≡ false = ground arith in
    let b : ((d == b'b') || (d == b'B')) ≡ false = ground arith in rw (x, o, b, h) refl

literal-digits :
    (c : ℕ) (s : Text)
    → all is_digit (c ∷ s) ≡ true
    → literal (c ∷ s) ≡ some (pos (number_in 10 0 (c ∷ s)))
literal-digits c s h =
    let minus : (c == b'-') ≡ false = ground arith in
    let plus : (c == b'+') ≡ false = ground arith in
    elim (Bool-cases (c == b'0')) [
      | inl leads ↦
          let zero_first : c ≡ b'0' = ground arith in
          rw (minus, plus, leads)
            (ap positive (
              after_zero-digits s (subst (λ d. all is_digit (d ∷ s) ≡ true) zero_first h)
              ∙ ap (λ d. some (number_in 10 0 (d ∷ s))) (sym zero_first)))
      | inr other ↦ rw (minus, plus, other) (ap positive (decimal-digits c s h))
    ]

number_in-nil : (n : ℕ) → number_in 10 n [] ≡ n
unfolding number_in
number_in-nil n = refl

big_int-digits :
    (c : ℕ) (s : Text)
    → all is_digit (c ∷ s) ≡ true
    → big_int (c ∷ s) ≡ some (pos (number_in 10 0 (c ∷ s)))
unfolding big_int
big_int-digits c s h =
    rw (trim_start-digits (c ∷ s) h, trim_end-hex (c ∷ s) (all_hex (c ∷ s) h))
      (literal-digits c s h)

-- A text of digits, and the number that it stands for after what was read before.
record Numeral (n : ℕ) (acc s : Text) : Type 0 where
  pub first : ℕ
  pub rest : Text
  pub same : s ≡ first ∷ rest
  pub digits : all is_digit s ≡ true
  pub value : number_in 10 0 s ≡ number_in 10 n acc

decimal_loop-Numeral :
    (fuel n : ℕ) (acc : Text)
    → n < fuel
    → all is_digit acc ≡ true
    → Numeral n acc (decimal_loop fuel n acc)
unfolding decimal_loop number_in
decimal_loop-Numeral zero n acc h d = absurd (omega arith)
decimal_loop-Numeral (suc fuel) n acc h d = elim (Bool-cases (ltb n 10)) [
  | inl short ↦ rw short (record {
    first = 48 + n;
    rest = acc;
    same = refl;
    digits = ground arith;
    value = ap (λ m. number_in 10 m acc) (omega arith);
  })
  | inr long ↦
      let digit : all is_digit ((48 + n % 10) ∷ acc) ≡ true = ground arith in
      let ih = decimal_loop-Numeral fuel (n / 10) ((48 + n % 10) ∷ acc) (ground arith) digit in
      rw long (record {
        first = ih.first;
        rest = ih.rest;
        same = ih.same;
        digits = ih.digits;
        value = ih.value ∙ ap (λ m. number_in 10 m acc) (omega arith);
      })
]

-- What `toString` prints of a bigint that is not negative is read back.
pub big_int-to_decimal : (n : ℕ) → big_int (to_decimal n) ≡ some (pos n)
unfolding to_decimal
big_int-to_decimal n =
    let t = decimal_loop-Numeral (suc n) n [] (omega arith) refl in
    subst (λ s. big_int s ≡ some (pos n)) (sym t.same)
      (big_int-digits t.first t.rest (rw t.same at t.digits)
        ∙ ap (λ m. some (pos m)) (ap (number_in 10 0) (sym t.same) ∙ (t.value ∙ number_in-nil n)))
