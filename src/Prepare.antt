-- ===== src/Prepare.antt =====
-- packages/sdk/src/prepare.ts: turning a batch of calls into a payment that can be signed.
pub mod Reading
pub mod Operation
pub mod Payment
pub mod Laws
use flare_hack.Prelude.{
  ℕ, ◌+◌, Option, none, some, List, [], ◌∷◌, if◌then◌else◌, ℤ, pos, Except, ok, err, ◌>>=◌, ◌>>◌,
  Text, Bytes, codes, ◌===◌,
}
use flare_hack.Viem.{Viem}
use flare_hack.Memo.{MemoError, MemoHeader, Number}
use flare_hack.Memo.Encode.{encode_execute_committed_memo, to_xrpl_memo_hex}
use flare_hack.Fees.{DirectMintingFees, PaymentBreakdown, compute_payment_amount}
use flare_hack.UserOp.{Call, PackedUserOperation, Abi, UserOpError, PreparedUserOp, prepare_user_op}

-- The contract reads of the client; `none` where a read throws. The first argument of most is the
-- address of the contract.
pub record Chain : Type 0 where
  pub get_contract_address_by_name : Text → Option Text
  pub get_personal_account : Text → Text → Option Text
  pub get_nonce : Text → Text → Option ℕ
  pub get_executor : Text → Text → Option Text
  pub get_xrpl_provider_wallets : Text → Option (List Text)
  pub direct_minting_payment_address : Text → Option Text
  pub read_direct_minting_fees : Text → Option DirectMintingFees

-- `#mac` and `#assetManager`
pub record OneSigClient : Type 0 where
  pub mac : Option Text
  pub asset_manager : Option Text

-- The constructor, with `masterAccountController`
abbrev pub one_sig_client : Option Text → OneSigClient
one_sig_client given = record { mac = given; asset_manager = none }

pub data PrepareError : Type 0 where
  read_failed : PrepareError
  user_op_failed : UserOpError → PrepareError
  memo_failed : MemoError → PrepareError

abbrev mac_or : OneSigClient → Option Text → Option Text × OneSigClient
mac_or c none = (none, c)
mac_or c (some a) = (some a, record c { mac = some a })

unfoldable pub master_account_controller : Chain → OneSigClient → Option Text × OneSigClient
master_account_controller chain c = elim c.mac [
  | some a ↦ (some a, c)
  | none ↦ mac_or c (chain.get_contract_address_by_name (codes "MasterAccountController"))
]

abbrev asset_manager_or : OneSigClient → Option Text → Option Text × OneSigClient
asset_manager_or c none = (none, c)
asset_manager_or c (some a) = (some a, record c { asset_manager = some a })

unfoldable pub asset_manager_fxrp : Chain → OneSigClient → Option Text × OneSigClient
asset_manager_fxrp chain c = elim c.asset_manager [
  | some a ↦ (some a, c)
  | none ↦ asset_manager_or c (chain.get_contract_address_by_name (codes "AssetManagerFXRP"))
]

-- `assetManager ?? (await this.assetManagerFXRP())`
abbrev asset_manager_given : Chain → Option Text → OneSigClient → Option Text × OneSigClient
asset_manager_given chain none c = asset_manager_fxrp chain c
asset_manager_given chain (some a) c = (some a, c)

unfoldable pub direct_minting_payment_address :
    Chain → Option Text → OneSigClient → Option Text × OneSigClient
direct_minting_payment_address chain given c =
    let m = asset_manager_given chain given c in
    (elim m.0 [ none ↦ none | some a ↦ chain.direct_minting_payment_address a ], m.1)

-- A read of the MasterAccountController.
abbrev pub read_mac :
    {A : Type 0} → Chain → (Text → Option A) → OneSigClient → Option A × OneSigClient
read_mac chain read c =
    let m = master_account_controller chain c in
    (elim m.0 [ none ↦ none | some mac ↦ read mac ], m.1)

unfoldable pub get_personal_account : Chain → Text → OneSigClient → Option Text × OneSigClient
get_personal_account chain xrpl_address c =
    read_mac chain (λ mac. chain.get_personal_account mac xrpl_address) c

unfoldable pub get_nonce : Chain → Text → OneSigClient → Option ℕ × OneSigClient
get_nonce chain personal_account c = read_mac chain (λ mac. chain.get_nonce mac personal_account) c

unfoldable pub get_executor : Chain → Text → OneSigClient → Option Text × OneSigClient
get_executor chain personal_account c =
    read_mac chain (λ mac. chain.get_executor mac personal_account) c

unfoldable pub get_operator_xrpl_addresses :
    Chain → OneSigClient → Option (List Text) × OneSigClient
get_operator_xrpl_addresses chain c = read_mac chain chain.get_xrpl_provider_wallets c

pub record PrepareParams : Type 0 where
  pub xrpl_address : Text
  pub calls : List Call
  pub label : Text
  pub net_mint_uba : ℕ
  pub fee_uba : Option ℤ
  pub wallet_id : Option Number

-- `xrplPayment`, which has no DestinationTag
pub record XrplPayment : Type 0 where
  pub account : Text
  pub destination : Text
  pub amount : ℕ
  pub memo_data : Text

-- The amount and the nonce are the numbers that the program prints in decimal.
pub record PreparedRequest : Type 0 where
  pub personal_account : Text
  pub nonce : ℕ
  pub user_op : PackedUserOperation
  pub user_op_data : Text
  pub user_op_hash : Text
  pub label : Text
  pub pinned_executor : Option Text
  pub payment : PaymentBreakdown
  pub total_call_value : ℕ
  pub xrpl_payment : XrplPayment

-- `calls.reduce((acc, c) => acc + c.value, 0n)`
unfoldable pub sum_values : ℕ → List Call → ℕ
sum_values acc [] = acc
sum_values acc (c ∷ calls) = sum_values (acc + c.value) calls

abbrev zero_address : Text
zero_address = codes "0x0000000000000000000000000000000000000000"

abbrev pub pinned : Text → Option Text
pinned executor = if executor === zero_address then none else some executor

abbrev pub fee_or_zero : Option ℤ → ℤ
fee_or_zero none = pos 0
fee_or_zero (some fee) = fee

-- What the reads of `prepare` gave.
pub record Reads : Type 0 where
  pub personal_account : Text
  pub asset_manager : Text
  pub destination : Text
  pub fees : DirectMintingFees
  pub nonce : ℕ
  pub executor : Text

abbrev pub reads_of :
    Text → Text → Option Text → Option DirectMintingFees → Option ℕ → Option Text → Option Reads
reads_of pa am (some destination) (some fees) (some nonce) (some executor) = some (record {
  personal_account = pa;
  asset_manager = am;
  destination = destination;
  fees = fees;
  nonce = nonce;
  executor = executor;
})
reads_of pa am _ _ _ _ = none

-- The first `Promise.all`, and the second, which reads at the addresses of the first; every read of
-- a `Promise.all` is started, whichever fails.
abbrev pub second_reads :
    Chain → Option Text → Option Text → OneSigClient → Option Reads × OneSigClient
second_reads chain (some pa) (some am) c =
    let nonce = get_nonce chain pa c in
    let executor = get_executor chain pa nonce.1 in
    (
      reads_of pa am (direct_minting_payment_address chain (some am) c).0
          (chain.read_direct_minting_fees am) nonce.0 executor.0,
      executor.1,
    )
second_reads chain _ _ c = (none, c)

unfoldable pub read_inputs : Chain → Text → OneSigClient → Option Reads × OneSigClient
read_inputs chain xrpl_address c =
    let pa = get_personal_account chain xrpl_address c in
    let am = asset_manager_fxrp chain pa.1 in second_reads chain pa.0 am.0 am.1

abbrev pub map_error {ℓ} : {E F A : Type ℓ} → (E → F) → Except E A → Except F A
map_error f (ok a) = ok a
map_error f (err e) = err (f e)

-- `0` where it is not given
abbrev pub memo_header_of : PrepareParams → MemoHeader
memo_header_of p = record { wallet_id = p.wallet_id; executor_fee_uba = fee_or_zero p.fee_uba }

-- What `prepare` returns once everything is read and encoded.
abbrev pub request_of : PrepareParams → Reads → PreparedUserOp → Bytes → PreparedRequest
request_of p r op memo = record {
  personal_account = r.personal_account;
  nonce = r.nonce;
  user_op = op.user_op;
  user_op_data = op.user_op_data;
  user_op_hash = op.user_op_hash;
  label = p.label;
  pinned_executor = pinned r.executor;
  payment = compute_payment_amount p.net_mint_uba r.fees;
  total_call_value = sum_values 0 p.calls;
  xrpl_payment = record {
    account = p.xrpl_address;
    destination = r.destination;
    amount = (compute_payment_amount p.net_mint_uba r.fees).total_uba;
    memo_data = to_xrpl_memo_hex memo;
  };
}

unfoldable pub assemble : Viem → Abi → PrepareParams → Reads → Except PrepareError PreparedRequest
assemble viem abi p r = do
  op ← map_error user_op_failed (prepare_user_op viem abi r.personal_account r.nonce p.calls)
  memo ←
      map_error memo_failed (encode_execute_committed_memo viem (memo_header_of p) op.user_op_hash)
  ok (request_of p r op memo)

abbrev pub assemble_read :
    Viem → Abi → PrepareParams → Option Reads → Except PrepareError PreparedRequest
assemble_read viem abi p none = err read_failed
assemble_read viem abi p (some r) = assemble viem abi p r

-- `prepare`
unfoldable pub prepare :
    Viem
    → Abi
    → Chain
    → PrepareParams
    → OneSigClient
    → Except PrepareError PreparedRequest × OneSigClient
prepare viem abi chain p c =
    let r = read_inputs chain p.xrpl_address c in (assemble_read viem abi p r.0, r.1)
