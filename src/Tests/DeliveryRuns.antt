-- ===== src/Tests/DeliveryRuns.antt =====
-- A run from the preparation of an operation to its job.
use flare_hack.Prelude.{true, Option, none, some, List, [], ◌∷◌, ℤ, Text, codes}
use flare_hack.Json.{string, object, Fields, end, field}
use flare_hack.Watcher.{AccountTxEntry, initial}
use flare_hack.Service.{PreparedForWeb, ExecutorService, Body}
use flare_hack.Prepare.Payment.{memos_json}
use flare_hack.Tests.PrepareRuns.{web}

abbrev idle : ExecutorService
idle = record { watcher = initial (record { memory = []; files = [] }); live = []; files = [] }

abbrev asks : Body
asks = record {
  user_op_data = none;
  commitment = none;
  personal_account = none;
  nonce = none;
  total_call_value = none;
  label = none;
  xrpl_address = some (codes "rA");
}

abbrev digits : Text
digits = codes "B000000000000000000000000000000000000000000000000000000000000AB"

abbrev tx_id : Text
tx_id = b'A' ∷ digits

abbrev prep : Text → Option PreparedForWeb
prep address = some web

abbrev transaction : Fields
transaction =
    field (codes "TransactionType") (string (codes "Payment"))
      (field (codes "Memos") (memos_json web.memo_hex) end)

abbrev entry : AccountTxEntry
entry = record {
  hash = some tx_id;
  ledger_index = some 70;
  validated = some true;
  tx_json = some (object transaction);
  tx = none;
}

abbrev account_tx : ℤ → Option (Option (List AccountTxEntry))
account_tx from = some (some (entry ∷ []))
