-- ===== src/Tests/LedgerRuns.antt =====
-- Runs of the XRPL client over a node that is asked in JSON.
use flare_hack.Prelude.{
  ℕ, ◌*◌, ◌^◌, ◌==◌, ◌≡◌, refl, true, false, Bool, Option, some, if◌then◌else◌, pos, Text, codes,
  ◌===◌, starts_with,
}
use flare_hack.Json.{Json, number, boolean, string, object, finite, Fields, end, field, get_field}
use flare_hack.Server.{member}
use flare_hack.Xrpl.{PaymentInput, SubmittedPayment, Payment, submit_payment}
use flare_hack.Xrpl.Client.{HttpAnswer, Fetch, call, ledger_of}
use flare_hack.Xrpl.Validated.{Validated, submit_payment-Validated}

abbrev whole : ℕ → Json
whole n = number (finite (pos (n * 2 ^ 1074)))

abbrev with_result : Fields → Option HttpAnswer
with_result r =
    some (record { is_ok = true; body = some (object (field (codes "result") (object r) end)) })

abbrev asks : Text → Option Json → Bool
asks method (some (string m)) = m === method
asks method _ = false

-- The first question for the transaction is answered by an error, the second by the ledger.
abbrev node : Fetch
node i body =
    let method = member (codes "method") body in
    if asks (codes "account_info") method
    then with_result
        (field (codes "account_data") (object (field (codes "Sequence") (whole 4) end)) end)
    else if asks (codes "ledger_current") method
    then with_result (field (codes "ledger_current_index") (whole 50) end)
    else if asks (codes "submit") method
    then with_result (field (codes "engine_result") (string (codes "tesSUCCESS")) end)
    else if i == 0
    then with_result (field (codes "error") (string (codes "txnNotFound")) end)
    else with_result
        (field (codes "validated") (boolean true) (field (codes "ledger_index") (whole 52) end))

abbrev sign : Payment → Text × Text
sign p = (codes "blob", codes "AA")

abbrev input : PaymentInput
input = record {
  account = codes "r1";
  destination = codes "r2";
  amount = codes "20150";
  memo_data = codes "FE";
}

abbrev paid : SubmittedPayment
paid = record {
  hash = codes "AA";
  engine_result = codes "tesSUCCESS";
  validated = true;
  ledger_index = some 52;
}

pays : submit_payment (ledger_of node (codes "ED") sign) 3 input ≡ some paid
unfolding submit_payment starts_with flare_hack.Xrpl.Client.account_info call get_field ◌===◌
    flare_hack.Server.is_truthy flare_hack.Xrpl.Client.current_ledger
    flare_hack.Xrpl.Client.submit_blob flare_hack.Xrpl.poll_ledger flare_hack.Xrpl.Client.ask_tx
pays = refl

submit_payment-Validated_example : Validated node 3 paid
submit_payment-Validated_example = submit_payment-Validated node (codes "ED") sign 3 input pays refl
