-- ===== src/Memo/Reads.antt =====
-- packages/sdk/src/memo.ts: how `decodeMemo` reads the payload of each opcode.
use flare_hack.Prelude.{
  ℕ, ◌+◌, ◌^◌, ◌<◌, ◌≡◌, refl, some, [], ◌∷◌, ◌++◌, append_assoc, arith, length, drop, All,
  length-append, take-append, take-length_le, drop-append, ok, Bytes,
}
use flare_hack.Hex.{IsByte}
use flare_hack.Endian.{be_bytes, be_number}
use flare_hack.Endian.RoundTrip.{be_number-be_bytes, length-be_bytes, hex_number-eq-be_number}
use flare_hack.Memo.{
  Opcode, execute_inline, execute_committed, ignore_memo, set_nonce, set_replacement_fee,
  set_executor, remove_executor, opcode_byte, memo_length, assert_length,
}
use flare_hack.Memo.Decode.{
  user_op_data, user_op_hash, ignored_tx_id, new_nonce, replacement_fee, executor, no_executor,
  to_hex, slice, decode_payload,
}
use flare_hack.Memo.Layout.{memo_of}

module _ (opcode : Opcode) (w fee : ℕ) (p : Bytes) where
  drop-memo_of : drop 10 (memo_of opcode w fee p) ≡ p
  drop-memo_of = drop-append (be_bytes 8 fee) p (length-be_bytes 8 fee)

  pub length-memo_of : length (memo_of opcode w fee p) ≡ 10 + length p
  length-memo_of = omega (arith, length-append (be_bytes 8 fee) p, length-be_bytes 8 fee)

  slice-memo_of : (n : ℕ) → length p ≡ n → slice 10 n (memo_of opcode w fee p) ≡ p
  slice-memo_of n h = rw drop-memo_of (take-length_le n p (omega arith))

-- What follows a payload of 32 bytes.
drop-payload :
    (opcode : Opcode) (w fee : ℕ) (p tail : Bytes)
    → length p ≡ 32
    → drop 42 (memo_of opcode w fee (p ++ tail)) ≡ tail
drop-payload opcode w fee p tail h =
    rw (← append_assoc (opcode_byte opcode ∷ w ∷ be_bytes 8 fee) p tail) (
      drop-append {n = 42} (memo_of opcode w fee p) tail
        (omega (arith, length-memo_of opcode w fee p)))

-- The payload of each opcode, read from a memo of the right length.
module _ (w fee : ℕ) (p : Bytes) where
  assert_length-memo_of :
      (opcode : Opcode) (n : ℕ)
      → memo_length opcode ≡ some (10 + n)
      → length p ≡ n
      → assert_length opcode (memo_of opcode w fee p) ≡ ok (memo_of opcode w fee p)
  unfolding assert_length
  assert_length-memo_of opcode n e h = rw e (ground (arith, length-memo_of opcode w fee p))

  pub read_inline :
      decode_payload execute_inline (memo_of execute_inline w fee p) ≡ ok (user_op_data (to_hex p))
  unfolding decode_payload
  read_inline = rw (drop-memo_of execute_inline w fee p)

  pub read_committed :
      length p ≡ 32
      → decode_payload execute_committed (memo_of execute_committed w fee p)
        ≡ ok (user_op_hash (to_hex p))
  unfolding decode_payload
  read_committed h = rw (
    assert_length-memo_of execute_committed 32 refl h,
    slice-memo_of execute_committed w fee p 32 h,
  )

  pub read_ignore :
      length p ≡ 32
      → decode_payload ignore_memo (memo_of ignore_memo w fee p) ≡ ok (ignored_tx_id (to_hex p))
  unfolding decode_payload
  read_ignore h =
      rw (assert_length-memo_of ignore_memo 32 refl h, slice-memo_of ignore_memo w fee p 32 h)

  pub read_executor :
      length p ≡ 20
      → decode_payload set_executor (memo_of set_executor w fee p) ≡ ok (executor (to_hex p))
  unfolding decode_payload
  read_executor h =
      rw (assert_length-memo_of set_executor 20 refl h, slice-memo_of set_executor w fee p 20 h)

  pub read_nonce :
      length p ≡ 32
      → All IsByte p
      → decode_payload set_nonce (memo_of set_nonce w fee p) ≡ ok (new_nonce (be_number 0 p))
  unfolding decode_payload
  read_nonce h bytes = rw (
    assert_length-memo_of set_nonce 32 refl h,
    slice-memo_of set_nonce w fee p 32 h,
    hex_number-eq-be_number 0 p bytes,
  )

pub read_removed :
    (w fee : ℕ) → decode_payload remove_executor (memo_of remove_executor w fee []) ≡ ok no_executor
unfolding decode_payload
read_removed w fee = rw (assert_length-memo_of w fee [] remove_executor 0 refl refl)

pub read_bump :
    (w fee new_fee : ℕ) (p : Bytes)
    → length p ≡ 32
    → new_fee < 256 ^ 8
    → decode_payload set_replacement_fee
        (memo_of set_replacement_fee w fee (p ++ be_bytes 8 new_fee))
      ≡ ok (replacement_fee (to_hex p) new_fee)
unfolding decode_payload
read_bump w fee new_fee p h fits =
    let tail : Bytes = be_bytes 8 new_fee in
    let n : length (p ++ tail) ≡ 40 =
      ground (arith, length-append p tail, length-be_bytes 8 new_fee) in
    rw (
      assert_length-memo_of w fee (p ++ tail) set_replacement_fee 40 refl n,
      drop-memo_of set_replacement_fee w fee (p ++ tail),
      take-append p tail h,
      drop-payload set_replacement_fee w fee p tail h,
      take-length_le 8 tail (omega (arith, length-be_bytes 8 new_fee)),
      be_number-be_bytes 8 new_fee fits,
    )
