-- ===== src/Relay.antt =====
-- scripts/run-executor.ts: `prepare`, which the service is wired with; and the sign request that
-- packages/executor/src/service.ts makes of what it returns.
pub mod Laws
pub mod Held
pub mod Observed
pub mod Delivery
use flare_hack.Prelude.{none, some, List, [], ◌∷◌, pos, Except, ok, ◌>>=◌, ◌>>◌, Text, Bytes, codes}
use flare_hack.Viem.{Viem}
use flare_hack.Decimal.{to_decimal}
use flare_hack.Memo.{MemoHeader}
use flare_hack.Memo.Encode.{encode_execute_committed_memo, to_xrpl_memo_hex}
use flare_hack.UserOp.{Call, Abi}
use flare_hack.Prepare.{
  Chain, OneSigClient, PrepareError, PrepareParams, PreparedRequest, prepare, map_error,
  memo_failed,
}
use flare_hack.Service.{PreparedForWeb}
use flare_hack.Xaman.{SignRequestInput}

-- The calldata that viem encodes for the two calls, and the addresses of the contracts.
pub record Demo : Type 0 where
  pub mock_fxrp : Text
  pub mock_vault : Text
  pub approve : Text
  pub deposit : Text

abbrev pub demo_calls : Demo → List Call
demo_calls demo =
    (record { target = demo.mock_fxrp; value = 0; calldata = demo.approve })
    ∷ (record { target = demo.mock_vault; value = 0; calldata = demo.deposit })
    ∷ []

abbrev pub demo_params : Demo → Text → PrepareParams
demo_params demo xrpl_address = record {
  xrpl_address = xrpl_address;
  calls = demo_calls demo;
  label = codes "Deposit 10 mFXRP into MockVault";
  net_mint_uba = 1000000;
  fee_uba = none;
  wallet_id = none;
}

-- `{ executorFeeUBA: 0n }`
abbrev pub web_header : MemoHeader
web_header = record { wallet_id = none; executor_fee_uba = pos 0 }

abbrev pub web_of : PreparedRequest → Bytes → PreparedForWeb
web_of req memo = record {
  personal_account = req.personal_account;
  nonce = to_decimal req.nonce;
  label = req.label;
  user_op_data = req.user_op_data;
  user_op_hash = req.user_op_hash;
  total_call_value = to_decimal req.total_call_value;
  memo_hex = to_xrpl_memo_hex memo;
  destination = req.xrpl_payment.destination;
  amount_drops = to_decimal req.xrpl_payment.amount;
}

-- The memo is encoded a second time.
unfoldable pub encode_again : Viem → PreparedRequest → Except PrepareError PreparedForWeb
encode_again viem req = do
  memo ← map_error memo_failed (encode_execute_committed_memo viem web_header req.user_op_hash)
  ok (web_of req memo)

-- `prepare`
unfoldable pub prepare_for_web :
    Viem
    → Abi
    → Chain
    → Demo
    → Text
    → OneSigClient
    → Except PrepareError PreparedForWeb × OneSigClient
prepare_for_web viem abi chain demo xrpl_address c =
    let r = prepare viem abi chain (demo_params demo xrpl_address) c in
    (r.0 >>= encode_again viem, r.1)

-- The argument of `createSignRequest` in `POST /prepare`
abbrev pub sign_input : Text → PreparedForWeb → SignRequestInput
sign_input xrpl_address prepared = record {
  account = some xrpl_address;
  destination = prepared.destination;
  amount = prepared.amount_drops;
  memo_data = prepared.memo_hex;
  instruction = prepared.label;
  identifier = some prepared.user_op_hash;
  signers = some (xrpl_address ∷ []);
  expire_minutes = some 15;
}
