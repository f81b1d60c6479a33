-- ===== src/UserOp.antt =====
-- packages/sdk/src/userop.ts: the user operation that a payment commits to.
use flare_hack.Prelude.{
  ℕ, ◌≡◌, Option, none, some, List, [], ◌∷◌, Except, ok, err, ◌>>=◌, Text, codes,
}
use flare_hack.Hex.{IsHexText}
use flare_hack.Viem.{Viem}

-- IPersonalAccount.Call, with a value that is not negative
pub record Call : Type 0 where
  pub target : Text
  pub value : ℕ
  pub calldata : Text

pub record PackedUserOperation : Type 0 where
  pub sender : Text
  pub nonce : ℕ
  pub init_code : Text
  pub calldata : Text
  pub account_gas_limits : Text
  pub pre_verification_gas : ℕ
  pub gas_fees : Text
  pub paymaster_and_data : Text
  pub signature : Text

-- The ABI encoder of viem, `none` where it throws, and what is relied on: it returns hex text.
pub record Abi : Type 0 where
  pub encode_function_data : List Call → Option Text
  pub encode_abi_parameters : PackedUserOperation → Option Text
  pub encode_abi_parameters-IsHexText :
      (op : PackedUserOperation) (s : Text) → encode_abi_parameters op ≡ some s → IsHexText s

pub data UserOpError : Type 0 where
  empty_batch abi_failed hash_failed : UserOpError

-- A call of viem that throws `e`.
abbrev pub or_throw {ℓ} : {E A : Type ℓ} → E → Option A → Except E A
or_throw e none = err e
or_throw e (some a) = ok a

abbrev pub zero_bytes32 : Text
zero_bytes32 = codes "0x0000000000000000000000000000000000000000000000000000000000000000"

unfoldable pub encode_call_batch : Abi → List Call → Except UserOpError Text
encode_call_batch abi [] = err empty_batch
encode_call_batch abi (c ∷ calls) = or_throw abi_failed (abi.encode_function_data (c ∷ calls))

abbrev pub user_op_of : Text → ℕ → Text → PackedUserOperation
user_op_of sender nonce calldata = record {
  sender = sender;
  nonce = nonce;
  init_code = codes "0x";
  calldata = calldata;
  account_gas_limits = zero_bytes32;
  pre_verification_gas = 0;
  gas_fees = zero_bytes32;
  paymaster_and_data = codes "0x";
  signature = codes "0x";
}

unfoldable pub build_user_op : Abi → Text → ℕ → List Call → Except UserOpError PackedUserOperation
build_user_op abi sender nonce calls = do
  calldata ← encode_call_batch abi calls
  ok (user_op_of sender nonce calldata)

unfoldable pub encode_user_op : Abi → PackedUserOperation → Except UserOpError Text
encode_user_op abi op = or_throw abi_failed (abi.encode_abi_parameters op)

unfoldable pub hash_user_op : Viem → Abi → PackedUserOperation → Except UserOpError Text
hash_user_op viem abi op = do
  user_op_data ← encode_user_op abi op
  or_throw hash_failed (viem.keccak256 user_op_data)

pub record PreparedUserOp : Type 0 where
  pub user_op : PackedUserOperation
  pub user_op_data : Text
  pub user_op_hash : Text

unfoldable pub prepare_user_op :
    Viem → Abi → Text → ℕ → List Call → Except UserOpError PreparedUserOp
prepare_user_op viem abi sender nonce calls = do
  op ← build_user_op abi sender nonce calls
  user_op_data ← encode_user_op abi op
  user_op_hash ← or_throw hash_failed (viem.keccak256 user_op_data)
  ok (record { user_op = op; user_op_data = user_op_data; user_op_hash = user_op_hash })
