-- ===== src/Memo.antt =====
-- packages/sdk/src/memo.ts: the parts that the encoders and the decoder share.
pub mod Encode
pub mod Decode
pub mod Layout
pub mod Instruction
pub mod Reads
pub mod Invert
pub mod Built
pub mod Shape
pub mod RoundTrip
pub mod Wire
use flare_hack.Prelude.{
  ℕ, ◌%◌, Option, none, some, List, [], ◌∷◌, ◌++◌, ltb, ◌==◌, if◌then◌else◌, length, drop, ℤ, pos,
  negsuc, Except, ok, err, ◌>>=◌, Text, Bytes,
}
use flare_hack.Hex.{parse_pairs}
use flare_hack.Endian.{be_bytes}
use flare_hack.Viem.{Viem}

-- OPCODE
pub data Opcode : Type 0 where
  execute_inline execute_committed ignore_memo set_nonce set_replacement_fee : Opcode
  set_executor remove_executor : Opcode

abbrev pub opcode_byte : Opcode → ℕ
opcode_byte execute_inline = 0xff
opcode_byte execute_committed = 0xfe
opcode_byte ignore_memo = 0xe0
opcode_byte set_nonce = 0xe1
opcode_byte set_replacement_fee = 0xe2
opcode_byte set_executor = 0xd0
opcode_byte remove_executor = 0xd1

-- MEMO_LENGTH, which has no entry for an inline operation
abbrev pub memo_length : Opcode → Option ℕ
memo_length execute_inline = none
memo_length execute_committed = some 42
memo_length ignore_memo = some 42
memo_length set_nonce = some 42
memo_length set_replacement_fee = some 50
memo_length set_executor = some 30
memo_length remove_executor = some 10

abbrev pub header_bytes : ℕ
header_bytes = 10

abbrev pub xrpl_memo_max_bytes : ℕ
xrpl_memo_max_bytes = 1024

-- The errors that the module throws, with the values that their messages show.
pub data MemoError : Type 0 where
  wallet_id_not_uint8 fee_not_uint64 not_hex odd_hex invalid_executor zero_executor : MemoError
  nonce_not_uint256 new_fee_not_uint64 header_missing : MemoError
  wrong_byte_count : ℕ → ℕ → MemoError
  wrong_memo_length : Opcode → ℕ → ℕ → MemoError
  over_memo_cap : ℕ → MemoError
  unknown_instruction : ℕ → MemoError

-- A `number`: `fraction` stands for one that `Number.isInteger` refuses.
pub data Number : Type 0 where
  integer : ℤ → Number
  fraction : Number

pub record MemoHeader : Type 0 where
  pub wallet_id : Option Number
  pub executor_fee_uba : ℤ

-- `{ walletId = 0 }`
abbrev pub wallet_id_or_zero : Option Number → Number
wallet_id_or_zero none = integer (pos 0)
wallet_id_or_zero (some n) = n

unfoldable pub check_wallet_id : Number → Except MemoError ℕ
check_wallet_id (integer (pos n)) = if ltb 0xff n then err wallet_id_not_uint8 else ok n
check_wallet_id (integer (negsuc n)) = err wallet_id_not_uint8
check_wallet_id fraction = err wallet_id_not_uint8

-- `if (x < 0n || x > top) throw e`
unfoldable pub check_uint : ℕ → MemoError → ℤ → Except MemoError ℕ
check_uint top e (pos n) = if ltb top n then err e else ok n
check_uint top e (negsuc n) = err e

abbrev pub max_uint64 : ℕ
max_uint64 = 0xffff_ffff_ffff_ffff

unfoldable pub encode_header : Opcode → MemoHeader → Except MemoError Bytes
unfolding check_wallet_id check_uint
encode_header opcode h = do
  wallet_id ← check_wallet_id (wallet_id_or_zero h.wallet_id)
  fee ← check_uint max_uint64 fee_not_uint64 h.executor_fee_uba
  ok (opcode_byte opcode ∷ wallet_id ∷ be_bytes 8 fee)

abbrev check_byte_count : Option ℕ → Bytes → Except MemoError Bytes
check_byte_count none bytes = ok bytes
check_byte_count (some n) bytes =
    if length bytes == n then ok bytes else err (wrong_byte_count n (length bytes))

unfoldable pub hex_to_bytes : Viem → Text → Option ℕ → Except MemoError Bytes
hex_to_bytes viem hex expected =
    if viem.is_hex hex
    then if length (drop 2 hex) % 2 == 0
      then check_byte_count expected (parse_pairs (drop 2 hex))
      else err odd_hex
    else err not_hex

unfoldable pub concat : List Bytes → Bytes
concat [] = []
concat (p ∷ parts) = p ++ concat parts

abbrev assert_length_of : Option ℕ → Opcode → Bytes → Except MemoError Bytes
assert_length_of none opcode memo = ok memo
assert_length_of (some n) opcode memo =
    if length memo == n then ok memo else err (wrong_memo_length opcode n (length memo))

unfoldable pub assert_length : Opcode → Bytes → Except MemoError Bytes
assert_length opcode memo = assert_length_of (memo_length opcode) opcode memo
