-- ===== src/Endian.antt =====
-- Unsigned integers as big-endian bytes: `DataView.setBigUint64(offset, n, false)`,
-- `getBigUint64(offset, false)`, and the loop that fills the 32 bytes of a nonce.
pub mod RoundTrip
use flare_hack.Prelude.{ℕ, zero, suc, ◌+◌, ◌*◌, ◌/◌, ◌%◌, [], ◌∷◌, Bytes}

-- `for (let i = w - 1; i >= 0; i--) { out[i] = n & 0xff; n >>= 8 }`, in front of `acc`.
unfoldable pub be_loop : ℕ → ℕ → Bytes → Bytes
be_loop zero n acc = acc
be_loop (suc w) n acc = be_loop w (n / 256) ((n % 256) ∷ acc)

abbrev pub be_bytes : ℕ → ℕ → Bytes
be_bytes w n = be_loop w n []

-- The number that big-endian bytes stand for, after what was read before.
unfoldable pub be_number : ℕ → Bytes → ℕ
be_number n [] = n
be_number n (b ∷ bs) = be_number (n * 256 + b) bs
