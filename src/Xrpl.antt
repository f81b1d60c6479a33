-- ===== src/Xrpl.antt =====
-- packages/executor/src/xrpl.ts: submitting a payment and waiting until the ledger validates it.
pub mod Laws
pub mod Client
pub mod Validated
use flare_hack.Prelude.{
  ℕ, zero, suc, ◌+◌, Bool, true, false, ◌||◌, Option, none, some, if◌then◌else◌, Text, codes,
  starts_with,
}

pub record PaymentInput : Type 0 where
  pub account : Text
  pub destination : Text
  pub amount : Text
  pub memo_data : Text

-- The fields of the transaction that is signed; there is no DestinationTag.
pub record Payment : Type 0 where
  pub account : Text
  pub destination : Text
  pub amount : Text
  pub memo_data : Text
  pub fee : Text
  pub sequence : ℕ
  pub last_ledger_sequence : ℕ
  pub signing_pub_key : Text

pub record SubmittedPayment : Type 0 where
  pub hash : Text
  pub engine_result : Text
  pub validated : Bool
  pub ledger_index : Option ℕ

-- The node's answer to `tx`.
pub record TxAnswer : Type 0 where
  pub validated : Bool
  pub transaction_result : Option Text
  pub ledger_index : Option ℕ

-- The node and the wallet; `none` where a call throws. `tx` is asked in each round of polling.
pub record Ledger : Type 0 where
  pub sequence : Text → Option ℕ
  pub current_ledger : Option ℕ
  pub public_key : Text
  pub sign : Payment → Text × Text
  pub submit : Text → Option Text
  pub tx : ℕ → Text → Option TxAnswer

unfoldable pub payment_of : PaymentInput → Text → ℕ → ℕ → Payment
payment_of input key sequence current_ledger = record {
  account = input.account;
  destination = input.destination;
  amount = input.amount;
  memo_data = input.memo_data;
  fee = codes "12";
  sequence = sequence;
  last_ledger_sequence = current_ledger + 20;
  signing_pub_key = key;
}

-- `engine_result.startsWith("tes") || engine_result.startsWith("ter")`
abbrev pub may_succeed : Text → Bool
may_succeed r = starts_with r (codes "tes") || starts_with r (codes "ter")

abbrev pub result_or : Text → Option Text → Text
result_or r none = r
result_or r (some s) = s

abbrev pub not_validated : Text → Text → SubmittedPayment
not_validated hash r = record {
  hash = hash;
  engine_result = r;
  validated = false;
  ledger_index = none;
}

abbrev pub answered : Text → Text → Option TxAnswer → SubmittedPayment → SubmittedPayment
answered hash r none later = later
answered hash r (some a) later =
    if a.validated
    then record {
      hash = hash;
      engine_result = result_or r a.transaction_result;
      validated = true;
      ledger_index = a.ledger_index;
    }
    else later

-- The loop, with the number of rounds left and of rounds done.
unfoldable pub poll_ledger : (ℕ → Text → Option TxAnswer) → Text → Text → ℕ → ℕ → SubmittedPayment
poll_ledger tx hash r zero i = not_validated hash r
poll_ledger tx hash r (suc n) i = answered hash r (tx i hash) (poll_ledger tx hash r n (i + 1))

abbrev pub submitted : Ledger → ℕ → Text → Option Text → Option SubmittedPayment
submitted ledger max_polls hash none = none
submitted ledger max_polls hash (some r) =
    if may_succeed r
    then some (poll_ledger ledger.tx hash r max_polls 0)
    else some (not_validated hash r)

abbrev pub submit_signed : Ledger → ℕ → Text × Text → Option SubmittedPayment
submit_signed ledger max_polls (blob, hash) = submitted ledger max_polls hash (ledger.submit blob)

abbrev pub submit_with : Ledger → ℕ → PaymentInput → Option ℕ → Option ℕ → Option SubmittedPayment
submit_with ledger max_polls input (some sequence) (some current) =
    submit_signed ledger max_polls
      (ledger.sign (payment_of input ledger.public_key sequence current))
submit_with ledger max_polls input _ _ = none

-- `submitPayment`; `none` where it throws
unfoldable pub submit_payment : Ledger → ℕ → PaymentInput → Option SubmittedPayment
submit_payment ledger max_polls input =
    submit_with ledger max_polls input (ledger.sequence input.account) ledger.current_ledger
