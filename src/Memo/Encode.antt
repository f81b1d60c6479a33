-- ===== src/Memo/Encode.antt =====
-- packages/sdk/src/memo.ts: one encoder for each opcode, and the XRPL wire format.
use flare_hack.Prelude.{
  ℕ, ◌-◌, ◌^◌, Bool, none, some, [], ◌∷◌, ltb, if◌then◌else◌, length, drop, ℤ, Except, ok, err,
  ◌>>=◌, Text, Bytes, codes, ◌===◌, starts_with, to_lower_case, to_upper_case,
}
use flare_hack.Hex.{hex_chars, with_prefix}
use flare_hack.Endian.{be_bytes}
use flare_hack.Viem.{Viem}
use flare_hack.Memo.{
  execute_inline, execute_committed, ignore_memo, set_nonce, set_replacement_fee, set_executor,
  remove_executor, xrpl_memo_max_bytes, MemoError, invalid_executor, zero_executor,
  nonce_not_uint256, new_fee_not_uint64, over_memo_cap, MemoHeader, check_uint, max_uint64,
  encode_header, hex_to_bytes, concat, assert_length,
}

-- `/^0x0{40}$/i`
abbrev pub is_zero_address : Text → Bool
is_zero_address s = to_lower_case s === codes "0x0000000000000000000000000000000000000000"

abbrev pub max_uint256 : ℕ
max_uint256 = 2 ^ 256 - 1

module _ (viem : Viem) where
  unfoldable pub encode_execute_committed_memo : MemoHeader → Text → Except MemoError Bytes
  encode_execute_committed_memo header user_op_hash = do
    head ← encode_header execute_committed header
    hash ← hex_to_bytes viem user_op_hash (some 32)
    assert_length execute_committed (concat (head ∷ hash ∷ []))

  unfoldable pub encode_execute_inline_memo : MemoHeader → Text → Except MemoError Bytes
  encode_execute_inline_memo header user_op_data = do
    head ← encode_header execute_inline header
    op ← hex_to_bytes viem user_op_data none
    let memo = concat (head ∷ op ∷ [])
    if ltb xrpl_memo_max_bytes (length memo) then err (over_memo_cap (length memo)) else ok memo

  unfoldable pub encode_set_executor_memo : MemoHeader → Text → Except MemoError Bytes
  encode_set_executor_memo header executor =
      if viem.is_address executor
      then if is_zero_address executor then err zero_executor else (do
        head ← encode_header set_executor header
        address ← hex_to_bytes viem executor (some 20)
        assert_length set_executor (concat (head ∷ address ∷ [])))
      else err invalid_executor

  unfoldable pub encode_remove_executor_memo : MemoHeader → Except MemoError Bytes
  encode_remove_executor_memo header = do
    memo ← encode_header remove_executor header
    assert_length remove_executor memo

  unfoldable pub encode_ignore_memo : MemoHeader → Text → Except MemoError Bytes
  encode_ignore_memo header target_tx_id = do
    head ← encode_header ignore_memo header
    target ← hex_to_bytes viem target_tx_id (some 32)
    assert_length ignore_memo (concat (head ∷ target ∷ []))

  unfoldable pub encode_set_nonce_memo : MemoHeader → ℤ → Except MemoError Bytes
  encode_set_nonce_memo header new_nonce = do
    nonce ← check_uint max_uint256 nonce_not_uint256 new_nonce
    head ← encode_header set_nonce header
    assert_length set_nonce (concat (head ∷ be_bytes 32 nonce ∷ []))

  unfoldable pub encode_replacement_fee_memo : MemoHeader → Text → ℤ → Except MemoError Bytes
  encode_replacement_fee_memo header target_tx_id new_fee_uba = do
    fee ← check_uint max_uint64 new_fee_not_uint64 new_fee_uba
    head ← encode_header set_replacement_fee header
    target ← hex_to_bytes viem target_tx_id (some 32)
    assert_length set_replacement_fee (concat (head ∷ target ∷ be_bytes 8 fee ∷ []))

  -- `fromXrplMemoHex`
  unfoldable pub from_xrpl_memo_hex : Text → Except MemoError Bytes
  from_xrpl_memo_hex hex =
      hex_to_bytes viem (with_prefix (if starts_with hex (codes "0x") then drop 2 hex else hex))
        none

-- `toXrplMemoHex`
unfoldable pub to_xrpl_memo_hex : Bytes → Text
unfolding hex_chars
to_xrpl_memo_hex memo = to_upper_case (hex_chars memo)
