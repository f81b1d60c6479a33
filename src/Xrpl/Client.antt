-- ===== src/Xrpl/Client.antt =====
-- packages/executor/src/xrpl.ts: `XrplHttpClient.call`, the calls made through it, and the client
-- as what `submitPayment` asks.
use flare_hack.Prelude.{
  ℕ, ◌/◌, ◌%◌, ◌^◌, ◌==◌, Bool, false, Option, none, some, if◌then◌else◌, pos, Text, codes,
}
use flare_hack.Json.{
  Json, boolean, number, string, array, object, finite, Fields, end, field, nil, cons,
}
use flare_hack.Server.{is_truthy, member, truthy}
use flare_hack.Xrpl.{Payment, TxAnswer, Ledger}

abbrev pub xrpl_testnet_jsonrpc : Text
xrpl_testnet_jsonrpc = codes "https://s.altnet.rippletest.net:51234/"

-- A response: `res.ok`, and its body, `none` if that is no JSON.
pub record HttpAnswer : Type 0 where
  pub is_ok : Bool
  pub body : Option Json

-- `fetch` to the node, by the number of polls done before; `none` where it rejects.
abbrev pub Fetch : Type 0
Fetch = ℕ → Json → Option HttpAnswer

-- `{ method, params: [params] }`
abbrev pub rpc_body : Text → Fields → Json
rpc_body method params = object (
    field (codes "method") (string method)
      (field (codes "params") (array (cons (object params) nil)) end))

-- `if (result.error) throw`, on a result that is there
abbrev pub without_error : Option Json → Option Json
without_error none = none
without_error (some result) = elim (truthy (member (codes "error") result)) [
  | none ↦ some result
  | some e ↦ none
]

-- The body `null` has no member to read.
abbrev pub result_in : Option Json → Option Json
result_in none = none
result_in (some body) = without_error (truthy (member (codes "result") body))

abbrev pub result_of_answer : Option HttpAnswer → Option Json
result_of_answer none = none
result_of_answer (some a) = if a.is_ok then result_in a.body else none

-- `call`; `none` where it throws
unfoldable pub call : (Json → Option HttpAnswer) → Text → Fields → Option Json
call fetch method params = result_of_answer (fetch (rpc_body method params))

-- A member that the code takes for a natural number; a `number` counts units of 2^-1074.
abbrev pub natural : Option Json → Option ℕ
natural (some (number (finite (pos n)))) = if n % 2 ^ 1074 == 0 then some (n / 2 ^ 1074) else none
natural _ = none

abbrev pub text_of : Option Json → Option Text
text_of (some (string s)) = some s
text_of _ = none

-- `r.account_data.Sequence`
abbrev pub sequence_of : Option Json → Option ℕ
sequence_of none = none
sequence_of (some r) = elim (member (codes "account_data") r) [
  | none ↦ none
  | some account ↦ natural (member (codes "Sequence") account)
]

-- `accountInfo`, of which `submitPayment` uses the sequence
unfoldable pub account_info : (Json → Option HttpAnswer) → Text → Option ℕ
account_info fetch address = sequence_of (
    call fetch (codes "account_info") (
      field (codes "account") (string address)
        (field (codes "ledger_index") (string (codes "validated")) end)))

abbrev pub ledger_index_of : Option Json → Option ℕ
ledger_index_of none = none
ledger_index_of (some r) = natural (member (codes "ledger_current_index") r)

unfoldable pub current_ledger : (Json → Option HttpAnswer) → Option ℕ
current_ledger fetch = ledger_index_of (call fetch (codes "ledger_current") end)

abbrev pub engine_result_of : Option Json → Option Text
engine_result_of none = none
engine_result_of (some r) = text_of (member (codes "engine_result") r)

-- `call("submit", { tx_blob })`
unfoldable pub submit_blob : (Json → Option HttpAnswer) → Text → Option Text
submit_blob fetch blob =
    engine_result_of (call fetch (codes "submit") (field (codes "tx_blob") (string blob) end))

abbrev pub is_true : Option Json → Bool
is_true none = false
is_true (some j) = is_truthy j

-- `r.meta?.TransactionResult`
abbrev pub transaction_result_of : Option Json → Option Text
transaction_result_of none = none
transaction_result_of (some meta) = text_of (member (codes "TransactionResult") meta)

abbrev pub tx_answer_of : Option Json → Option TxAnswer
tx_answer_of none = none
tx_answer_of (some r) = some (record {
  validated = is_true (member (codes "validated") r);
  transaction_result = transaction_result_of (member (codes "meta") r);
  ledger_index = natural (member (codes "ledger_index") r);
})

abbrev pub tx_question : Text → Fields
tx_question hash =
    field (codes "transaction") (string hash) (field (codes "binary") (boolean false) end)

-- `call("tx", { transaction: hash, binary: false })`
unfoldable pub ask_tx : (Json → Option HttpAnswer) → Text → Option TxAnswer
ask_tx fetch hash = tx_answer_of (call fetch (codes "tx") (tx_question hash))

-- The client and the wallet, as `submitPayment` uses them.
abbrev pub ledger_of : Fetch → Text → (Payment → Text × Text) → Ledger
ledger_of fetch public_key sign = record {
  sequence = account_info (fetch 0);
  current_ledger = current_ledger (fetch 0);
  public_key = public_key;
  sign = sign;
  submit = submit_blob (fetch 0);
  tx = λ i. ask_tx (fetch i);
}
