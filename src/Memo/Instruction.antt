-- ===== src/Memo/Instruction.antt =====
-- packages/sdk/src/memo.ts: what an encoder is asked to encode.
use flare_hack.Prelude.{drop, ℤ, to_ℕ, Except, Text, Bytes, to_lower_case}
use flare_hack.Hex.{with_prefix}
use flare_hack.Viem.{Viem}
use flare_hack.Memo.{MemoError, MemoHeader}
use flare_hack.Memo.Encode.{
  encode_execute_committed_memo, encode_execute_inline_memo, encode_set_executor_memo,
  encode_remove_executor_memo, encode_ignore_memo, encode_set_nonce_memo,
  encode_replacement_fee_memo,
}
use flare_hack.Memo.Decode.{
  Payload, DecodedMemo, user_op_data, user_op_hash, ignored_tx_id, new_nonce, replacement_fee,
  executor, no_executor,
}
use flare_hack.Memo.Layout.{header_wallet, header_fee}

-- The instructions that the encoders are called with.
pub data Instruction : Type 0 where
  commit execute pin ignore : Text → Instruction
  unpin : Instruction
  nonce : ℤ → Instruction
  bump : Text → ℤ → Instruction

-- One encoder for each instruction.
unfoldable pub encode : Viem → MemoHeader → Instruction → Except MemoError Bytes
encode viem h (commit hash) = encode_execute_committed_memo viem h hash
encode viem h (execute op) = encode_execute_inline_memo viem h op
encode viem h (pin address) = encode_set_executor_memo viem h address
encode viem h (ignore tx) = encode_ignore_memo viem h tx
encode viem h unpin = encode_remove_executor_memo viem h
encode viem h (nonce n) = encode_set_nonce_memo viem h n
encode viem h (bump tx fee) = encode_replacement_fee_memo viem h tx fee

-- A hex string as `toHex` prints its bytes again.
abbrev pub canonical : Text → Text
canonical s = with_prefix (to_lower_case (drop 2 s))

-- What an instruction means, independently of any byte.
abbrev pub meaning : Instruction → Payload
meaning (commit hash) = user_op_hash (canonical hash)
meaning (execute op) = user_op_data (canonical op)
meaning (pin address) = executor (canonical address)
meaning (ignore tx) = ignored_tx_id (canonical tx)
meaning unpin = no_executor
meaning (nonce n) = new_nonce (to_ℕ n)
meaning (bump tx fee) = replacement_fee (canonical tx) (to_ℕ fee)

abbrev pub message : MemoHeader → Instruction → DecodedMemo
message h i = record {
  wallet_id = header_wallet h;
  executor_fee_uba = header_fee h;
  payload = meaning i;
}
