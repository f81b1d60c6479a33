-- ===== src/Memo/Invert.antt =====
-- packages/sdk/src/memo.ts: what holds after each step of an encoder that succeeds.
use flare_hack.Prelude.{
  ℕ, ◌^◌, ◌≤◌, ◌<◌, ◌≡◌, ap, true, false, Option, some, [], ◌∷◌, ◌++◌, append-nil, arith, ltb,
  if◌then◌else◌, length, All, Except, ok, err, ◌>>=◌, >>=-eq-ok, Text, Bytes,
}
use flare_hack.Hex.{IsByte, with_prefix}
use flare_hack.Endian.{be_bytes}
use flare_hack.Viem.{Viem}
use flare_hack.Memo.{
  Opcode, execute_inline, set_executor, opcode_byte, MemoError, MemoHeader, encode_header,
  hex_to_bytes, concat, assert_length, check_byte_count, over_memo_cap, xrpl_memo_max_bytes,
}
use flare_hack.Memo.Encode.{encode_set_executor_memo, is_zero_address}
use flare_hack.Memo.Decode.{to_hex}
use flare_hack.Memo.Layout.{header_wallet, header_fee, encode_header-eq-ok, hex_to_bytes-eq-ok}
use flare_hack.Memo.Instruction.{canonical}

abbrev pub header_of : Opcode → MemoHeader → Bytes
header_of opcode h = opcode_byte opcode ∷ header_wallet h ∷ be_bytes 8 (header_fee h)

-- The steps of an encoder, inverted.
module _ {A : Type 0} {a : A} where
  pub header_then :
      (opcode : Opcode) (h : MemoHeader) (k : Bytes → Except MemoError A)
      → (encode_header opcode h >>= k) ≡ ok a
      → (header_wallet h < 256) × (header_fee h < 256 ^ 8) × (k (header_of opcode h) ≡ ok a)
  header_then opcode h k e =
      let (head, built, e') = >>=-eq-ok (encode_header opcode h) k e in
      let (same, byte, fits) = encode_header-eq-ok opcode h built in (byte, fits, rw same at e')

  pub hex_then :
      (viem : Viem) (s : Text) (n : Option ℕ) (k : Bytes → Except MemoError A)
      → (hex_to_bytes viem s n >>= k) ≡ ok a
      → (p : Bytes) × All IsByte p
        × (to_hex p ≡ canonical s)
        × (check_byte_count n p ≡ ok p)
        × (k p ≡ ok a)
  hex_then viem s n k e =
      let (p, read, e') = >>=-eq-ok (hex_to_bytes viem s n) k e in
      let (bytes, digits, counted) = hex_to_bytes-eq-ok viem s n read in
      (p, bytes, ap with_prefix digits, counted, e')

pub count_of : (n : ℕ) (p : Bytes) → check_byte_count (some n) p ≡ ok p → length p ≡ n
count_of n p h = ground arith

pub assert_length-eq-ok :
    (opcode : Opcode) (m : Bytes) {memo : Bytes} → assert_length opcode m ≡ ok memo → m ≡ memo
unfolding assert_length
assert_length-eq-ok execute_inline m h = ground arith
assert_length-eq-ok _ m h = ground arith

pub concat_two : (a b : Bytes) → concat (a ∷ b ∷ []) ≡ a ++ b
unfolding concat
concat_two a b = rw (append-nil b)

pub concat_three : (a b c : Bytes) → concat (a ∷ b ∷ c ∷ []) ≡ a ++ (b ++ c)
unfolding concat
concat_three a b c = rw (append-nil c)

pub under_cap-eq-ok :
    (m : Bytes) {memo : Bytes}
    → (if ltb xrpl_memo_max_bytes (length m) then err (over_memo_cap (length m)) else ok m)
      ≡ ok memo
    → (m ≡ memo) × (length m ≤ 1024)
under_cap-eq-ok m h = (ground arith, ground arith)

pub pin_tests :
    (viem : Viem) (h : MemoHeader) (s : Text) {memo : Bytes}
    → encode_set_executor_memo viem h s ≡ ok memo
    → (viem.is_address s ≡ true)
      × (is_zero_address s ≡ false)
      × ((encode_header set_executor h >>= λ head. hex_to_bytes viem s (some 20) >>= λ address.
            assert_length set_executor (concat (head ∷ address ∷ [])))
          ≡ ok memo)
unfolding encode_set_executor_memo
pin_tests viem h s e = (ground arith, ground arith, ground arith)
