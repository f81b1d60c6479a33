-- ===== src/Fdc/Client.antt =====
-- packages/executor/src/fdc.ts: the client, with its registry cache and its calls of the contracts.
use flare_hack.Prelude.{
  ℕ, Bool, Option, none, some, [], ◌++◌, Except, err, Text, codes, drop_last_slash,
}
use flare_hack.Dict.{Dict}
use flare_hack.Fdc.{FdcError, other_error, Answer, prepare_request, fetch_proof, round_of, resolve}

abbrev pub verifier_base_testnet : Text
verifier_base_testnet = codes "https://fdc-verifiers-testnet.flare.network"

abbrev pub da_layer_coston2 : Text
da_layer_coston2 = codes "https://ctn2-data-availability.flare.network"

abbrev pub verifier_api_key_placeholder : Text
verifier_api_key_placeholder = codes "00000000-0000-0000-0000-000000000000"

pub record FdcOptions : Type 0 where
  pub account : Text
  pub verifier_base_url : Option Text
  pub da_layer_url : Option Text
  pub api_key : Option Text
  pub source_id : Option Text

pub record FdcClient : Type 0 where
  pub account : Text
  pub verifier_base : Text
  pub da_layer : Text
  pub api_key : Text
  pub source_id : Text
  pub registry_cache : Dict Text

-- `a ?? b`
abbrev pub or_else : Option Text → Text → Text
or_else none b = b
or_else (some a) b = a

-- The constructor.
unfoldable pub fdc_client : FdcOptions → FdcClient
unfolding drop_last_slash
fdc_client opts = record {
  account = opts.account;
  verifier_base = drop_last_slash (or_else opts.verifier_base_url verifier_base_testnet);
  da_layer = drop_last_slash (or_else opts.da_layer_url da_layer_coston2);
  api_key = or_else opts.api_key verifier_api_key_placeholder;
  source_id = or_else opts.source_id (codes "testXRP");
  registry_cache = [];
}

-- The body of `prepareRequest`.
pub record VerifierBody : Type 0 where
  pub attestation_type : Text
  pub source_id : Text
  pub transaction_id : Text
  pub proof_owner : Text

-- The contract calls and the two services; `none` where a call throws. `to_hex32` is viem's `toHex`
-- of a string with the size 32, `decode` its `decodeAbiParameters` on the response type.
pub record Network : Type 0 where
  pub registry : Text → Option Text
  pub fee_configurations : Text → Option Text
  pub request_fee : Text → Text → Option ℕ
  pub request_attestation : Text → Text → ℕ → Option Text
  pub receipt_block : Text → Option ℕ
  pub block_timestamp : ℕ → Option ℕ
  pub first_voting_round_start_ts : Text → Option ℕ
  pub voting_epoch_duration_seconds : Text → Option ℕ
  pub protocol_id : Text → Option ℕ
  pub is_finalized : Text → ℕ → ℕ → Option Bool
  pub to_hex32 : Text → Option Text
  pub post_verifier : Text → Text → VerifierBody → Option Answer
  pub post_da_layer : Text → Text → ℕ → Option Answer
  pub decode : Text → Option Text

-- `prepareRequest`
abbrev pub answered : Option Answer → Except FdcError Text
answered none = err other_error
answered (some answer) = prepare_request answer

abbrev pub body_with :
    FdcClient → Text → Option Text → Option Text → Option Text → Option VerifierBody
body_with c tx owner (some kind) (some source) = some (record {
  attestation_type = kind;
  source_id = source;
  transaction_id = tx;
  proof_owner = or_else owner c.account;
})
body_with c tx owner _ _ = none

abbrev pub verifier_url : FdcClient → Text
verifier_url c = c.verifier_base ++ codes "/verifier/xrp/XRPPayment/prepareRequest"

unfoldable pub client_prepare_request :
    Network → FdcClient → Text → Option Text → Except FdcError Text
client_prepare_request net c tx owner =
    elim (body_with c tx owner (net.to_hex32 (codes "XRPPayment")) (net.to_hex32 c.source_id)) [
      | none ↦ err other_error
      | some body ↦ answered (net.post_verifier (verifier_url c) c.api_key body)
    ]

-- `fetchProof`
abbrev pub proof_answered : Network → Option Answer → Except FdcError Text
proof_answered net none = err other_error
proof_answered net (some answer) = fetch_proof net.decode answer

unfoldable pub client_fetch_proof : Network → FdcClient → Text → ℕ → Except FdcError Text
client_fetch_proof net c request round =
    proof_answered net (
      net.post_da_layer (c.da_layer ++ codes "/api/v1/fdc/proof-by-request-round-raw") request
        round)

-- The attestation fee that has been spent on a request.
pub record Spent : Type 0 where
  pub hub : Text
  pub request : Text
  pub fee : ℕ

-- What a call of `submitRequest` leaves: its result, `none` where it throws, the cache, and what
-- has been spent.
pub record SubmitResult : Type 0 where
  pub result : Option (ℕ × Text)
  pub cache : Dict Text
  pub spent : Option Spent

abbrev pub thrown : Dict Text → Option Spent → SubmitResult
thrown cache spent = record { result = none; cache = cache; spent = spent }

-- `getBlock` of the receipt's block
abbrev pub timestamp_of : Network → Text → Option ℕ
timestamp_of net tx_hash = elim (net.receipt_block tx_hash) [
  | none ↦ none
  | some number ↦ net.block_timestamp number
]

abbrev pub round_with : Option ℕ → Option ℕ → ℕ → Option ℕ
round_with (some first) (some duration) timestamp = round_of timestamp first duration
round_with _ _ timestamp = none

abbrev pub submitted_in : Text → Option ℕ → Option (ℕ × Text)
submitted_in tx_hash none = none
submitted_in tx_hash (some round) = some (round, tx_hash)

-- The rest of `submitRequest` once the block is known.
abbrev pub derive_round : Network → Dict Text → Option Spent → Text → Option ℕ → SubmitResult
derive_round net cache spent tx_hash none = thrown cache spent
derive_round net cache spent tx_hash (some timestamp) =
    let fsm = resolve net.registry (codes "FlareSystemsManager") cache in
    elim fsm.0 [
      | none ↦ thrown fsm.1 spent
      | some a ↦ record {
        result = submitted_in tx_hash (
            round_with (net.first_voting_round_start_ts a) (net.voting_epoch_duration_seconds a)
              timestamp);
        cache = fsm.1;
        spent = spent;
      }
    ]

-- The payment, and what follows it.
abbrev pub pay : Network → Dict Text → Text → Text → Option ℕ → SubmitResult
pay net cache hub request none = thrown cache none
pay net cache hub request (some fee) = elim (net.request_attestation hub request fee) [
  | none ↦ thrown cache none
  | some tx_hash ↦
      derive_round net cache (some (record { hub = hub; request = request; fee = fee })) tx_hash
        (timestamp_of net tx_hash)
]

-- `getRequestFee` at the address that `fdcRequestFeeConfigurations` names
abbrev pub fee_of : Network → Text → Text → Option ℕ
fee_of net hub request = elim (net.fee_configurations hub) [
  | none ↦ none
  | some config ↦ net.request_fee config request
]

unfoldable pub client_submit_request : Network → Dict Text → Text → SubmitResult
client_submit_request net cache request =
    let hub = resolve net.registry (codes "FdcHub") cache in
    elim hub.0 [
      | none ↦ thrown hub.1 none
      | some a ↦ pay net hub.1 a request (fee_of net a request)
    ]

abbrev pub finalized_with : Network → Option Text → Option Text → ℕ → Option Bool
finalized_with net (some relay) (some verification) round = elim (net.protocol_id verification) [
  | none ↦ none
  | some protocol ↦ net.is_finalized relay protocol round
]
finalized_with net _ _ round = none

-- `isRoundFinalized`; both names are resolved, whichever fails
unfoldable pub client_is_round_finalized : Network → Dict Text → ℕ → Option Bool × Dict Text
client_is_round_finalized net cache round =
    let relay = resolve net.registry (codes "Relay") cache in
    let verification = resolve net.registry (codes "FdcVerification") relay.1 in
    (finalized_with net relay.0 verification.0 round, verification.1)
