-- ===== src/Memo/Layout.antt =====
-- packages/sdk/src/memo.ts: the byte layout of a memo, [opcode][walletId][fee:8][payload].
use flare_hack.Prelude.{
  ℕ, ◌^◌, ◌≤◌, ◌<◌, ◌≡◌, refl, true, false, Option, none, some, [], ◌∷◌, ◌++◌, ltb, length,
  length-append, drop, take-append, all, All, ℤ, pos, negsuc, to_ℕ, ok, ◌>>=◌, Text, Bytes,
  to_lower_case, arith, ◌%◌,
}
use flare_hack.Hex.{IsByte, IsHexText, is_hex_digit, hex_chars, parse_pairs}
use flare_hack.Hex.RoundTrip.{hex_chars-parse_pairs, parse_pairs-IsByte}
use flare_hack.Endian.{be_bytes}
use flare_hack.Endian.RoundTrip.{be_number-be_bytes, length-be_bytes}
use flare_hack.Viem.{Viem}
use flare_hack.Memo.{
  Opcode, execute_inline, opcode_byte, MemoError, Number, integer, fraction, MemoHeader,
  wallet_id_or_zero, check_wallet_id, check_uint, encode_header, hex_to_bytes, check_byte_count,
}
use flare_hack.Memo.Decode.{decode_payload, decode_memo, opcode_of}

-- The number that a wallet id stands for.
abbrev pub wallet_value : Number → ℕ
wallet_value (integer z) = to_ℕ z
wallet_value fraction = 0

abbrev pub header_wallet : MemoHeader → ℕ
header_wallet h = wallet_value (wallet_id_or_zero h.wallet_id)

abbrev pub header_fee : MemoHeader → ℕ
header_fee h = to_ℕ h.executor_fee_uba

abbrev pub memo_of : Opcode → ℕ → ℕ → Bytes → Bytes
memo_of opcode w fee p = (opcode_byte opcode ∷ w ∷ be_bytes 8 fee) ++ p

pub check_wallet_id-eq-ok :
    (n : Number) {w : ℕ} → check_wallet_id n ≡ ok w → (w ≡ wallet_value n) × (w < 256)
unfolding check_wallet_id
check_wallet_id-eq-ok (integer (pos n)) h = ground arith
check_wallet_id-eq-ok (integer (negsuc n)) h = cc
check_wallet_id-eq-ok fraction h = cc

pub check_uint-eq-ok :
    (top : ℕ) (e : MemoError) (z : ℤ) {n : ℕ} → check_uint top e z ≡ ok n → (n ≡ to_ℕ z) × (n ≤ top)
unfolding check_uint
check_uint-eq-ok top e (pos n) h = ground arith
check_uint-eq-ok top e (negsuc n) h = cc

pub encode_header-eq-ok :
    (opcode : Opcode) (h : MemoHeader) {head : Bytes}
    → encode_header opcode h ≡ ok head
    → (head ≡ opcode_byte opcode ∷ header_wallet h ∷ be_bytes 8 (header_fee h))
      × (header_wallet h < 256)
      × (header_fee h < 256 ^ 8)
unfolding encode_header
encode_header-eq-ok opcode h e = ground arith

pub IsHexText-digits : (s : Text) → IsHexText s → all is_hex_digit (drop 2 s) ≡ true
IsHexText-digits (c ∷ d ∷ s) h = h.2
IsHexText-digits [] h = absurd h
IsHexText-digits (c ∷ []) h = absurd h

check_byte_count-eq-ok :
    (n : Option ℕ) (a : Bytes) {bs : Bytes} → check_byte_count n a ≡ ok bs → a ≡ bs
check_byte_count-eq-ok none a h = cc
check_byte_count-eq-ok (some n) a h = ground arith

-- The tests that a string has passed when its bytes are returned.
hex_to_bytes-tests :
    (viem : Viem) (s : Text) (n : Option ℕ) {bs : Bytes}
    → hex_to_bytes viem s n ≡ ok bs
    → (viem.is_hex s ≡ true)
      × (length (drop 2 s) % 2 ≡ 0)
      × (check_byte_count n (parse_pairs (drop 2 s)) ≡ ok bs)
unfolding hex_to_bytes
hex_to_bytes-tests viem s n h = (ground arith, ground arith, ground arith)

pub hex_to_bytes-eq-ok :
    (viem : Viem) (s : Text) (n : Option ℕ) {bs : Bytes}
    → hex_to_bytes viem s n ≡ ok bs
    → All IsByte bs × (hex_chars bs ≡ to_lower_case (drop 2 s)) × (check_byte_count n bs ≡ ok bs)
hex_to_bytes-eq-ok viem s n h =
    let (hex, even, counted) = hex_to_bytes-tests viem s n h in
    let digits = IsHexText-digits s ((viem.is_hex_iff s).0 hex) in
    let e = check_byte_count-eq-ok n (parse_pairs (drop 2 s)) counted in
    (
      rw e at (parse_pairs-IsByte (drop 2 s) digits),
      rw e at (hex_chars-parse_pairs (drop 2 s) digits even),
      rw e at counted,
    )

opcode_of-opcode_byte : (opcode : Opcode) → opcode_of (opcode_byte opcode) ≡ some opcode
opcode_of-opcode_byte execute_inline = refl
opcode_of-opcode_byte _ = refl

-- What the decoder reads of a memo with this layout.
pub decode_memo-memo_of :
    (opcode : Opcode) (w fee : ℕ) (p : Bytes)
    → fee < 256 ^ 8
    → decode_memo (memo_of opcode w fee p) ≡ (
        decode_payload opcode (memo_of opcode w fee p) >>= λ payload.
        ok (record { wallet_id = w; executor_fee_uba = fee; payload = payload }))
unfolding decode_memo
decode_memo-memo_of opcode w fee p h =
    let long : ltb (length (memo_of opcode w fee p)) 10 ≡ false =
      ground (arith, length-append (be_bytes 8 fee) p, length-be_bytes 8 fee) in
    rw (
      long,
      opcode_of-opcode_byte opcode,
      take-append (be_bytes 8 fee) p (length-be_bytes 8 fee),
      be_number-be_bytes 8 fee h,
    )
