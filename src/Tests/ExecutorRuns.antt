-- ===== src/Tests/ExecutorRuns.antt =====
-- Runs of the executor's service, of its clients and of the fee computation.
use flare_hack.Prelude.{◌≡◌, refl, Option, none, some, [], Text, codes}
use flare_hack.Disk.{written}
use flare_hack.Fees.{DirectMintingFees}
use flare_hack.Fdc.{round_of, resolve}
use flare_hack.Watcher.{ObservedPayment, initial}
use flare_hack.Dict.{get}
use flare_hack.Pending.{PendingUserOp}
use flare_hack.Service.{ExecutorService, Wiring, Request}
use flare_hack.Service.Routes.{handle_service}
use flare_hack.Service.Honest.{IsHonest, handle_service-IsHonest}
use flare_hack.Tests.Fixtures.{sample_viem, zero_digest}

abbrev fees : DirectMintingFees
fees = record { executor_fee_uba = 100; fee_bips = 25; minimum_fee_uba = 30 }

in_round : round_of 1000 100 90 ≡ some 10
unfolding round_of
in_round = refl

abbrev registry : Text → Option Text
registry name = some (codes "0x22")

resolved : (resolve registry (codes "Relay") []).0 ≡ some (codes "0x22")
unfolding resolve flare_hack.Dict.get
resolved = refl

abbrev no_service : ExecutorService
no_service = record {
  watcher = initial (record { memory = []; files = [] });
  live = [];
  files = [];
}

abbrev pub wiring : Wiring
wiring = record {
  viem = sample_viem;
  now = 9;
  writing = written;
  prepare = none;
  read_vault_balance = none;
  create_sign_in_request = none;
  get_sign_request = none;
  create_sign_request = none;
  core_vault_address = codes "rVault";
  index_html = none;
}

abbrev registration : Request
registration = record {
  method = codes "POST";
  pathname = codes "/register";
  query = λ name. none;
  body = some (record {
    user_op_data = some (codes "0x00");
    commitment = none;
    personal_account = some (codes "0x11");
    nonce = some (codes "n");
    total_call_value = none;
    label = none;
    xrpl_address = none;
  });
}

no_service-IsHonest : IsHonest wiring no_service
no_service-IsHonest = (tt, tt)

handle_service-IsHonest_example : IsHonest wiring (handle_service wiring registration no_service).1
handle_service-IsHonest_example =
    handle_service-IsHonest wiring registration no_service no_service-IsHonest

abbrev with_bad_nonce : ExecutorService
with_bad_nonce = (handle_service wiring registration no_service).1

abbrev observed_payment : Text → ObservedPayment
observed_payment hash = record {
  xrpl_tx_id = hash;
  commitment = zero_digest;
  amount = none;
  sender = none;
  ledger_index = 12;
}

abbrev bad_pending : PendingUserOp
bad_pending = record {
  commitment = zero_digest;
  user_op_data = codes "0x00";
  personal_account = codes "0x11";
  nonce = codes "n";
  total_call_value = codes "0";
  label = codes "(unlabelled)";
  registered_at = 9;
}
