-- ===== src/Memo/Decode.antt =====
-- packages/sdk/src/memo.ts: `decodeMemo`.
use flare_hack.Prelude.{
  ℕ, Option, none, some, ◌==◌, ltb, if◌then◌else◌, length, get_or, take, drop, Except, ok, err,
  ◌>>=◌, ◌>>◌, Text, Bytes,
}
use flare_hack.Hex.{hex_chars, hex_number, with_prefix}
use flare_hack.Endian.{be_number}
use flare_hack.Memo.{
  Opcode, execute_inline, execute_committed, ignore_memo, set_nonce, set_replacement_fee,
  set_executor, remove_executor, header_bytes, MemoError, header_missing, unknown_instruction,
  assert_length,
}

-- What the union `DecodedMemo` holds beside the header's fields.
pub data Payload : Type 0 where
  user_op_data : Text → Payload
  user_op_hash : Text → Payload
  ignored_tx_id : Text → Payload
  new_nonce : ℕ → Payload
  replacement_fee : Text → ℕ → Payload
  executor : Text → Payload
  no_executor : Payload

pub record DecodedMemo : Type 0 where
  pub wallet_id : ℕ
  pub executor_fee_uba : ℕ
  pub payload : Payload

-- `toHex`
abbrev pub to_hex : Bytes → Text
to_hex b = with_prefix (hex_chars b)

-- `memo.slice(from, to)`
abbrev pub slice : ℕ → ℕ → Bytes → Bytes
slice from count memo = take count (drop from memo)

-- The cases of the `switch`.
abbrev pub opcode_of : ℕ → Option Opcode
opcode_of b =
    if b == 0xff
    then some execute_inline
    else if b == 0xfe
    then some execute_committed
    else if b == 0xe0
    then some ignore_memo
    else if b == 0xe1
    then some set_nonce
    else if b == 0xe2
    then some set_replacement_fee
    else if b == 0xd0
    then some set_executor
    else if b == 0xd1
    then some remove_executor
    else none

unfoldable pub decode_payload : Opcode → Bytes → Except MemoError Payload
decode_payload execute_inline memo = ok (user_op_data (to_hex (drop 10 memo)))
decode_payload execute_committed memo =
    assert_length execute_committed memo >> ok (user_op_hash (to_hex (slice 10 32 memo)))
decode_payload ignore_memo memo =
    assert_length ignore_memo memo >> ok (ignored_tx_id (to_hex (slice 10 32 memo)))
decode_payload set_nonce memo =
    assert_length set_nonce memo >> ok (new_nonce (hex_number 0 (hex_chars (slice 10 32 memo))))
decode_payload set_replacement_fee memo =
    assert_length set_replacement_fee memo
    >> ok (replacement_fee (to_hex (slice 10 32 memo)) (be_number 0 (slice 42 8 memo)))
decode_payload set_executor memo =
    assert_length set_executor memo >> ok (executor (to_hex (slice 10 20 memo)))
decode_payload remove_executor memo = assert_length remove_executor memo >> ok no_executor

abbrev pub with_header : Bytes → Payload → DecodedMemo
with_header memo p = record {
  wallet_id = get_or memo 1 0;
  executor_fee_uba = be_number 0 (slice 2 8 memo);
  payload = p;
}

abbrev pub decode_opcode : Option Opcode → Bytes → Except MemoError DecodedMemo
decode_opcode none memo = err (unknown_instruction (get_or memo 0 0))
decode_opcode (some opcode) memo = do p ← decode_payload opcode memo; ok (with_header memo p)

unfoldable pub decode_memo : Bytes → Except MemoError DecodedMemo
unfolding decode_payload
decode_memo memo =
    if ltb (length memo) header_bytes
    then err header_missing
    else decode_opcode (opcode_of (get_or memo 0 0)) memo
