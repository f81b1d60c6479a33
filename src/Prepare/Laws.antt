-- ===== src/Prepare/Laws.antt =====
-- packages/sdk/src/prepare.ts: what a prepared request promises.
use flare_hack.Prelude.{◌≤◌, ◌≡◌, some, Text}
use flare_hack.Json.{object}
use flare_hack.Viem.{Viem}
use flare_hack.UserOp.{Abi, user_op_of}
use flare_hack.Watcher.{commitment_from_memos}
use flare_hack.Prepare.{Chain, OneSigClient, PrepareParams, PreparedRequest, Reads, read_inputs}
use flare_hack.Prepare.Payment.{payment_json}

pub record IsCommitted (viem : Viem) (abi : Abi) (chain : Chain) (p : PrepareParams)
    (c : OneSigClient) (q : PreparedRequest) : Type 0 where
  pub reads : Reads
  pub were_read : (read_inputs chain p.xrpl_address c).0 ≡ some reads
  pub calldata : Text
  pub performs : abi.encode_function_data p.calls ≡ some calldata
  pub operation : q.user_op ≡ user_op_of reads.personal_account reads.nonce calldata
  pub encoded : abi.encode_abi_parameters q.user_op ≡ some q.user_op_data
  pub hashed : viem.keccak256 q.user_op_data ≡ some q.user_op_hash
  pub observed : commitment_from_memos (object (payment_json q.xrpl_payment)) ≡ some q.user_op_hash
  pub account : q.xrpl_payment.account ≡ p.xrpl_address
  pub destination : q.xrpl_payment.destination ≡ reads.destination
  pub covers : p.net_mint_uba ≤ q.xrpl_payment.amount
