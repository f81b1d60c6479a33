-- ===== src/Endian/RoundTrip.antt =====
-- Writing a number and reading it back, in both directions.
use native.Mathlib.Nat.{pow-suc, pow-zero, div-div-eq-div-mul, mul_comm}
use mathlib.Core.Path.{ap₂}
use flare_hack.Prelude.{
  ℕ, zero, suc, ◌+◌, ◌*◌, ◌/◌, ◌%◌, ◌^◌, ◌<◌, ◌≡◌, refl, ap, ◌∙◌, [], ◌∷◌, ◌++◌, append-nil, ◌≤◌,
  All, length, Bytes, arith,
}
use flare_hack.Hex.{IsByte, hex_chars, hex_number}
use flare_hack.Hex.RoundTrip.{hex_number-hex_chars}
use flare_hack.Endian.{be_loop, be_bytes, be_number}

div-lt_pow : (w n : ℕ) → n < 256 ^ suc w → n / 256 < 256 ^ w
div-lt_pow w n h = omega (arith, pow-suc 256 w)

be_number-be_loop :
    (w n : ℕ) (acc : Bytes) → n < 256 ^ w → be_number 0 (be_loop w n acc) ≡ be_number n acc
unfolding be_loop be_number
be_number-be_loop zero n acc h = ap (λ m. be_number m acc) (omega (arith, pow-zero 256))
be_number-be_loop (suc w) n acc h =
    be_number-be_loop w (n / 256) ((n % 256) ∷ acc) (div-lt_pow w n h)
    ∙ ap (λ m. be_number m acc) (omega arith)

-- A number that fits is read back.
pub be_number-be_bytes : (w n : ℕ) → n < 256 ^ w → be_number 0 (be_bytes w n) ≡ n
unfolding be_number
be_number-be_bytes w n h = be_number-be_loop w n [] h

length-be_loop : (w n : ℕ) (acc : Bytes) → length (be_loop w n acc) ≡ w + length acc
unfolding be_loop
length-be_loop zero n acc = omega arith
length-be_loop (suc w) n acc = omega (arith, length-be_loop w (n / 256) ((n % 256) ∷ acc))

pub length-be_bytes : (w n : ℕ) → length (be_bytes w n) ≡ w
length-be_bytes w n = omega (arith, length-be_loop w n [])

be_loop-IsByte : (w n : ℕ) (acc : Bytes) → All IsByte acc → All IsByte (be_loop w n acc)
unfolding be_loop
be_loop-IsByte zero n acc h = h
be_loop-IsByte (suc w) n acc h = be_loop-IsByte w (n / 256) ((n % 256) ∷ acc) (omega arith, h)

pub be_bytes-IsByte : (w n : ℕ) → All IsByte (be_bytes w n)
be_bytes-IsByte w n = be_loop-IsByte w n [] tt

-- The number in the hex digits of bytes is the number in the bytes.
pub hex_number-eq-be_number :
    (n : ℕ) (bs : Bytes) → All IsByte bs → hex_number n (hex_chars bs) ≡ be_number n bs
unfolding hex_chars be_number hex_number
hex_number-eq-be_number n [] h = refl
hex_number-eq-be_number n (b ∷ bs) (p, h) =
    hex_number-hex_chars n b (hex_chars bs) p ∙ hex_number-eq-be_number (n * 256 + b) bs h

-- A loop of one more round writes one more byte in front.
be_loop-suc :
    (w n : ℕ) (acc : Bytes) → be_loop (suc w) n acc ≡ (n / 256 ^ w % 256) ∷ be_loop w n acc
unfolding be_loop
be_loop-suc zero n acc = ap (λ m. (m % 256) ∷ acc) (omega arith)
be_loop-suc (suc w) n acc =
    rw (div-div-eq-div-mul n 256 (256 ^ w), mul_comm 256 (256 ^ w), ← pow-suc 256 w) at
      (be_loop-suc w (n / 256) ((n % 256) ∷ acc))

-- What was read before stands above the bytes.
be_number-shift : (n : ℕ) (bs : Bytes) → be_number n bs ≡ n * 256 ^ length bs + be_number 0 bs
unfolding be_number
be_number-shift n [] = omega (arith, pow-zero 256)
be_number-shift n (b ∷ bs) = omega (
  arith,
  be_number-shift (n * 256 + b) bs,
  be_number-shift (0 + b) bs,
  ap (λ (t : ℕ). n * t) (pow-suc 256 (length bs)),
)

mul_byte : (b p : ℕ) → b < 256 → b * p + p ≤ 256 * p
mul_byte b p h = grind arith

pub be_number-lt : (bs : Bytes) → All IsByte bs → be_number 0 bs < 256 ^ length bs
unfolding be_number
be_number-lt [] h = omega (arith, pow-zero 256)
be_number-lt (b ∷ bs) (p, h) = omega (
  arith,
  be_number-shift (0 + b) bs,
  be_number-lt bs h,
  pow-suc 256 (length bs),
  mul_byte b (256 ^ length bs) p,
)

div-shift : (q p v : ℕ) → v < p → (q * p + v) / p ≡ q
div-shift q p v h = grind arith

-- Bytes are written back as they were read, whatever was read before them.
be_loop-be_number :
    (n : ℕ) (bs acc : Bytes) → All IsByte bs → be_loop (length bs) (be_number n bs) acc ≡ bs ++ acc
unfolding be_number
be_loop-be_number n [] acc h = unfold be_loop in refl
be_loop-be_number n (b ∷ bs) acc (p, h) =
    be_loop-suc (length bs) (be_number (n * 256 + b) bs) acc
    ∙ ap₂ ◌∷◌
        (rw
          (
            be_number-shift (n * 256 + b) bs,
            div-shift (n * 256 + b) (256 ^ length bs) (be_number 0 bs) (be_number-lt bs h),
          )
          (omega arith))
        (be_loop-be_number (n * 256 + b) bs acc h)

pub be_bytes-be_number : (bs : Bytes) → All IsByte bs → be_bytes (length bs) (be_number 0 bs) ≡ bs
be_bytes-be_number bs h = be_loop-be_number 0 bs [] h ∙ append-nil bs
