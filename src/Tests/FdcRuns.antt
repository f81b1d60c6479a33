-- ===== src/Tests/FdcRuns.antt =====
-- Runs of the attestation client.
use flare_hack.Prelude.{◌≡◌, refl, true, none, some, [], Text, codes, starts_with}
use flare_hack.Json.{Json, string, object, end, field}
use flare_hack.Fdc.{FdcError, Answer}
use flare_hack.Fdc.Client.{FdcClient, Network, client_submit_request}
use flare_hack.Fdc.Paid.{IsPaid, client_submit_request-IsPaid}
use flare_hack.Fdc.Wired.{NotReady, with_fdc, step-NotReady}
use flare_hack.Pipeline.{observed, save, step}
use flare_hack.Tests.PipelineRuns.{well, sample_job}

abbrev indexing : Answer
indexing = record {
  ok_status = true;
  body =
      some (
        object (field (codes "status") (string (codes "INVALID: TRANSACTION DOES NOT EXIST")) end));
}

abbrev sample_network : Network
sample_network = record {
  registry = λ name. some (codes "0xhub");
  fee_configurations = λ hub. some (codes "0xfee");
  request_fee = λ config request. some 10;
  request_attestation = λ hub request fee. some (codes "0xtx");
  receipt_block = λ tx. some 3;
  block_timestamp = λ n. some 1000;
  first_voting_round_start_ts = λ fsm. some 100;
  voting_epoch_duration_seconds = λ fsm. some 90;
  protocol_id = λ v. some 200;
  is_finalized = λ relay protocol round. some true;
  to_hex32 = λ s. some s;
  post_verifier = λ url key body. some indexing;
  post_da_layer = λ url request round. none;
  decode = λ s. some s;
}

abbrev client : FdcClient
client = record {
  account = codes "0xme";
  verifier_base = codes "https://verifier";
  da_layer = codes "https://da";
  api_key = codes "key";
  source_id = codes "testXRP";
  registry_cache = [];
}

submits : (client_submit_request sample_network [] (codes "0x01")).result ≡ some (10, codes "0xtx")
unfolding client_submit_request flare_hack.Fdc.resolve flare_hack.Dict.get flare_hack.Dict.set
    flare_hack.Prelude.◌===◌ flare_hack.Fdc.round_of
submits = refl

client_submit_request-IsPaid_example :
    IsPaid sample_network []
      (codes "0x01")
      (client_submit_request sample_network [] (codes "0x01"))
      10
      (codes "0xtx")
client_submit_request-IsPaid_example =
    client_submit_request-IsPaid sample_network [] (codes "0x01") 10 (codes "0xtx") submits

indexing-NotReady : NotReady indexing (codes "INVALID: TRANSACTION DOES NOT EXIST")
unfolding flare_hack.Json.get_field flare_hack.Prelude.◌===◌ flare_hack.Prelude.starts_with
indexing-NotReady = record {
  served = refl;
  fields = field (codes "status") (string (codes "INVALID: TRANSACTION DOES NOT EXIST")) end;
  body = refl;
  says = refl;
  not_ok = refl;
  not_valid = refl;
}

abbrev shows : FdcError → Text
shows e = codes "not ready"

step-NotReady_example :
    step (with_fdc shows sample_network client (codes "0xme") (well 9)) (sample_job observed 99) []
    ≡ save
        (with_fdc shows sample_network client (codes "0xme") (well 9))
        (record (sample_job observed 99) { attempts = 100; last_error = some (codes "not ready") })
        []
step-NotReady_example =
    step-NotReady shows sample_network client (codes "0xme") (well 9) (sample_job observed 99) []
      (record {
        attestation_type = codes "XRPPayment";
        source_id = codes "testXRP";
        transaction_id = codes "0xAA";
        proof_owner = codes "0xme";
      })
      indexing b'I' (codes "NVALID: TRANSACTION DOES NOT EXIST") refl refl refl indexing-NotReady
