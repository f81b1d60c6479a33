-- ===== src/Tests/PrepareRuns.antt =====
-- Runs of the client, of the scripts and of the codec.
use flare_hack.Prelude.{
  ◌≡◌, refl, Option, none, some, [], ◌∷◌, pos, ok, Text, Bytes, codes, starts_with,
}
use flare_hack.Memo.Encode.{encode_ignore_memo, to_xrpl_memo_hex}
use flare_hack.Memo.Decode.{decode_memo, ignored_tx_id}
use flare_hack.Memo.Instruction.{unpin, encode, canonical}
use flare_hack.Memo.Built.{opcode_for}
use flare_hack.Memo.Shape.{IsWellSized, encode-IsWellSized}
use mathlib.Core.Path.{subst}
use flare_hack.Hex.{IsHexText}
use flare_hack.Endian.{be_bytes}
use flare_hack.UserOp.{user_op_of, Abi}
use flare_hack.Prepare.{
  Chain, OneSigClient, PrepareParams, PreparedRequest, Reads, request_of, prepare,
}
use flare_hack.Relay.{web_of, Demo, demo_params, prepare_for_web, sign_input}
use flare_hack.Relay.Laws.{IsBound, prepare_for_web-IsBound}
use flare_hack.Xaman.{payload_of}
use flare_hack.Service.{PreparedForWeb, Body, body_of, entry_of, entry_of_prepared}
use flare_hack.Scripts.Demo.{register_body, demo_sign_input}
use flare_hack.Scripts.Agrees.{register_body-prepare_for_web}
use flare_hack.Pipeline.{normalize_xrpl_tx_id}
use flare_hack.Watcher.{buffer_from_hex}
use flare_hack.Scripts.Preflight.{gate1_params, preflight}
use flare_hack.Scripts.Passes.{preflight-prepare}
use flare_hack.Scripts.Recover.{recovery_header}
use flare_hack.Scripts.Released.{recovery-ignores}
use flare_hack.Tests.Fixtures.{sample_viem, zero_digest}

some_text : {a b : Text} → ◌≡◌ {A = Option Text} (some a) (some b) → a ≡ b
some_text h = cc

pub sample_encodes : (s : Text) → ◌≡◌ {A = Option Text} (some (codes "0x00")) (some s) → IsHexText s
sample_encodes s e = subst IsHexText (some_text e) (refl, refl, refl)

abbrev pub sample_abi : Abi
sample_abi = record {
  encode_function_data = λ calls. some (codes "0x1234");
  encode_abi_parameters = λ op. some (codes "0x00");
  encode_abi_parameters-IsHexText = λ op s e. sample_encodes s e;
}

abbrev pub sample_chain : Chain
sample_chain = record {
  get_contract_address_by_name = λ name. some (codes "0xaa");
  get_personal_account = λ mac address. some (codes "0x11");
  get_nonce = λ mac account. some 12;
  get_executor = λ mac account. some (codes "0x22");
  get_xrpl_provider_wallets = λ mac. some [];
  direct_minting_payment_address = λ manager. some (codes "rVault");
  read_direct_minting_fees =
      λ manager. some (record { executor_fee_uba = 100; fee_bips = 25; minimum_fee_uba = 1000 });
}

abbrev pub fresh : OneSigClient
fresh = record { mac = none; asset_manager = none }

abbrev pub sample_demo : Demo
sample_demo = record {
  mock_fxrp = codes "0x33";
  mock_vault = codes "0x44";
  approve = codes "0x095ea7b3";
  deposit = codes "0xb6b55f25";
}

abbrev read : Reads
read = record {
  personal_account = codes "0x11";
  asset_manager = codes "0xaa";
  destination = codes "rVault";
  fees = record { executor_fee_uba = 100; fee_bips = 25; minimum_fee_uba = 1000 };
  nonce = 12;
  executor = codes "0x22";
}

abbrev memo : Bytes
memo = 0xfe ∷ 0 ∷ 0 ∷ 0 ∷ 0 ∷ 0 ∷ 0 ∷ 0 ∷ 0 ∷ 0 ∷ be_bytes 32 0

-- What `prepare` returns for these parameters.
abbrev pub request : PrepareParams → PreparedRequest
request p =
    request_of p read
      (record {
        user_op = user_op_of (codes "0x11") 12 (codes "0x1234");
        user_op_data = codes "0x00";
        user_op_hash = zero_digest;
      })
      memo

pub prepares :
    (prepare sample_viem sample_abi sample_chain (demo_params sample_demo (codes "rA")) fresh).0
    ≡ ok (request (demo_params sample_demo (codes "rA")))
unfolding prepare flare_hack.Prepare.read_inputs flare_hack.Prepare.get_personal_account
    flare_hack.Prepare.master_account_controller flare_hack.Prepare.asset_manager_fxrp
    flare_hack.Prepare.direct_minting_payment_address flare_hack.Prepare.get_nonce
    flare_hack.Prepare.get_executor flare_hack.Prepare.assemble flare_hack.UserOp.prepare_user_op
    flare_hack.UserOp.build_user_op flare_hack.UserOp.encode_call_batch
    flare_hack.UserOp.encode_user_op flare_hack.Memo.Encode.encode_execute_committed_memo
    flare_hack.Memo.encode_header flare_hack.Memo.hex_to_bytes flare_hack.Hex.parse_pairs
    flare_hack.Memo.assert_length flare_hack.Endian.be_loop flare_hack.Memo.check_uint
    flare_hack.Memo.check_wallet_id flare_hack.Memo.concat
prepares = refl

prepares_counter :
    (prepare sample_viem sample_abi sample_chain
      (gate1_params (codes "0x55") (codes "0x66") (codes "rA"))
      fresh).0
    ≡ ok (request (gate1_params (codes "0x55") (codes "0x66") (codes "rA")))
unfolding prepare flare_hack.Prepare.read_inputs flare_hack.Prepare.get_personal_account
    flare_hack.Prepare.master_account_controller flare_hack.Prepare.asset_manager_fxrp
    flare_hack.Prepare.direct_minting_payment_address flare_hack.Prepare.get_nonce
    flare_hack.Prepare.get_executor flare_hack.Prepare.assemble flare_hack.UserOp.prepare_user_op
    flare_hack.UserOp.build_user_op flare_hack.UserOp.encode_call_batch
    flare_hack.UserOp.encode_user_op flare_hack.Memo.Encode.encode_execute_committed_memo
    flare_hack.Memo.encode_header flare_hack.Memo.hex_to_bytes flare_hack.Hex.parse_pairs
    flare_hack.Memo.assert_length flare_hack.Endian.be_loop flare_hack.Memo.check_uint
    flare_hack.Memo.check_wallet_id flare_hack.Memo.concat
prepares_counter = refl

preflight-prepare_example :
    preflight sample_chain
      (prepare sample_viem sample_abi sample_chain
        (gate1_params (codes "0x55") (codes "0x66") (codes "rA"))
        fresh).1
      (request (gate1_params (codes "0x55") (codes "0x66") (codes "rA")))
    ≡ some 0
preflight-prepare_example =
    preflight-prepare sample_viem sample_abi (codes "0x55") (codes "0x66") (codes "rA") sample_chain
      fresh prepares_counter

-- What the service's `prepare` returns.
abbrev pub web : PreparedForWeb
web = web_of (request (demo_params sample_demo (codes "rA"))) memo

pub prepares_web :
    (prepare_for_web sample_viem sample_abi sample_chain sample_demo (codes "rA") fresh).0 ≡ ok web
unfolding prepare flare_hack.Prepare.read_inputs flare_hack.Prepare.get_personal_account
    flare_hack.Prepare.master_account_controller flare_hack.Prepare.asset_manager_fxrp
    flare_hack.Prepare.direct_minting_payment_address flare_hack.Prepare.get_nonce
    flare_hack.Prepare.get_executor flare_hack.Prepare.assemble flare_hack.UserOp.prepare_user_op
    flare_hack.UserOp.build_user_op flare_hack.UserOp.encode_call_batch
    flare_hack.UserOp.encode_user_op flare_hack.Memo.Encode.encode_execute_committed_memo
    flare_hack.Memo.encode_header flare_hack.Memo.hex_to_bytes flare_hack.Hex.parse_pairs
    flare_hack.Memo.assert_length flare_hack.Endian.be_loop flare_hack.Memo.check_uint
    flare_hack.Memo.check_wallet_id flare_hack.Memo.concat prepare_for_web
    flare_hack.Relay.encode_again
prepares_web = refl

prepare_for_web-IsBound_example :
    IsBound sample_viem sample_abi sample_chain sample_demo
      (codes "rA")
      web
      (payload_of (sign_input (codes "rA") web))
prepare_for_web-IsBound_example =
    prepare_for_web-IsBound sample_viem sample_abi sample_chain sample_demo b'r' (codes "A") fresh
      prepares_web

unpins :
    encode sample_viem (record { wallet_id = none; executor_fee_uba = pos 5 }) unpin
    ≡ ok (0xd1 ∷ 0 ∷ 0 ∷ 0 ∷ 0 ∷ 0 ∷ 0 ∷ 0 ∷ 0 ∷ 5 ∷ [])
unfolding encode flare_hack.Memo.Encode.encode_remove_executor_memo flare_hack.Memo.encode_header
    flare_hack.Memo.check_uint flare_hack.Memo.check_wallet_id flare_hack.Endian.be_loop
    flare_hack.Memo.assert_length
unpins = refl

encode-IsWellSized_example :
    IsWellSized (opcode_for unpin) (0xd1 ∷ 0 ∷ 0 ∷ 0 ∷ 0 ∷ 0 ∷ 0 ∷ 0 ∷ 0 ∷ 5 ∷ [])
encode-IsWellSized_example =
    encode-IsWellSized sample_viem (record { wallet_id = none; executor_fee_uba = pos 5 }) unpin
      unpins

abbrev stuck_hash : Text
stuck_hash = codes "00000000000000000000000000000000000000000000000000000000000000ab"

abbrev stuck_id : Text
stuck_id = codes "0x00000000000000000000000000000000000000000000000000000000000000AB"

normalizes : normalize_xrpl_tx_id stuck_hash ≡ some stuck_id
unfolding normalize_xrpl_tx_id flare_hack.Prelude.starts_with
normalizes = refl

recovery-ignores_example :
    (m : Bytes) × (encode_ignore_memo sample_viem recovery_header stuck_id ≡ ok m)
    × (decode_memo (buffer_from_hex (to_xrpl_memo_hex m))
        ≡ ok (record {
          wallet_id = 0;
          executor_fee_uba = 0;
          payload = ignored_tx_id (canonical stuck_id);
        }))
recovery-ignores_example = recovery-ignores sample_viem stuck_hash normalizes

register_body-prepare_for_web_example :
    ((b : Body) × (body_of (register_body (request (demo_params sample_demo (codes "rA"))))
        ≡ some b)
      × (entry_of b ≡ entry_of_prepared web))
    × (demo_sign_input (codes "rA") (request (demo_params sample_demo (codes "rA")))
        ≡ sign_input (codes "rA") web)
register_body-prepare_for_web_example =
    register_body-prepare_for_web sample_viem sample_abi sample_chain sample_demo (codes "rA") fresh
      prepares prepares_web
