-- ===== src/Xrpl/Validated.antt =====
-- packages/executor/src/xrpl.ts: what the node must have said of a payment reported as validated.
use mathlib.Core.Path.{subst}
use flare_hack.Prelude.{
  ℕ, ◌∙◌, Bool, ◌≡◌, refl, ap, sym, true, false, inl, inr, Option, none, some, Bool-cases,
  Option-cases, ◌<◌, Text, codes,
}
use flare_hack.Json.{Json, Fields}
use flare_hack.Server.{is_truthy, member, truthy}
use flare_hack.Xrpl.{Payment, TxAnswer, PaymentInput, SubmittedPayment, submit_payment}
use flare_hack.Xrpl.Laws.{Seen, submit_payment-Seen}
use flare_hack.Xrpl.Client.{
  HttpAnswer, Fetch, rpc_body, call, natural, without_error, result_in, result_of_answer, is_true,
  tx_answer_of, tx_question, ask_tx, ledger_of,
}

-- The response is a 2xx with a JSON result that names no error.
pub record Answered (fetch : Json → Option HttpAnswer) (method : Text) (params : Fields) (r : Json)
    : Type 0 where
  pub answer : HttpAnswer
  pub body : Json
  pub came : fetch (rpc_body method params) ≡ some answer
  pub is_fine : answer.is_ok ≡ true
  pub parsed : answer.body ≡ some body
  pub held : member (codes "result") body ≡ some r
  pub no_error : truthy (member (codes "error") r) ≡ none

none-not_some {ℓ κ} : {A : Type ℓ} {B : Type κ} {x : A} → ◌≡◌ {A = Option A} none (some x) → B
none-not_some e = cc

-- The error that a result names.
abbrev reported : Option Json → Option Json
reported none = none
reported (some r) = truthy (member (codes "error") r)

truthy-some : (o : Option Json) {j : Json} → truthy o ≡ some j → o ≡ some j
truthy-some none e = cc
truthy-some (some i) {j} e = elim (Bool-cases (is_truthy i)) [
  | inl yes_truthy ↦ rw yes_truthy at e
  | inr falsy ↦ none-not_some (rw falsy at e)
]

without_error-some :
    (o : Option Json) {r : Json}
    → without_error o ≡ some r
    → (o ≡ some r) × (truthy (member (codes "error") r) ≡ none)
without_error-some none e = cc
without_error-some (some i) {r} e = elim (Option-cases (truthy (member (codes "error") i))) [
  | inl fine ↦
      let same : some i ≡ some r = rw (fine, without_error) at e in
      (same, subst (λ o. reported o ≡ none) same fine)
  | inr (x, bad) ↦ none-not_some (rw (bad, without_error) at e)
]

result_in-some :
    (b : Option Json) {r : Json}
    → result_in b ≡ some r
    → (body : Json) × (b ≡ some body)
      × (member (codes "result") body ≡ some r)
      × (truthy (member (codes "error") r) ≡ none)
result_in-some none e = cc
result_in-some (some body) e =
    let (there, fine) = without_error-some (truthy (member (codes "result") body)) e in
    (body, refl, truthy-some (member (codes "result") body) there, fine)

result_of_answer-Answered :
    (fetch : Json → Option HttpAnswer) (method : Text) (params : Fields) (o : Option HttpAnswer)
    {r : Json}
    → fetch (rpc_body method params) ≡ o
    → result_of_answer o ≡ some r
    → Answered fetch method params r
result_of_answer-Answered fetch method params none came e = cc
result_of_answer-Answered fetch method params (some a) came e = elim (Bool-cases a.is_ok) [
  | inl fine ↦
      let (body, parsed, held, no_error) = result_in-some a.body (rw fine at e) in
      record {
        answer = a;
        body = body;
        came = came;
        is_fine = fine;
        parsed = parsed;
        held = held;
        no_error = no_error;
      }
  | inr refused ↦ none-not_some (rw refused at e)
]

call-Answered :
    (fetch : Json → Option HttpAnswer) (method : Text) (params : Fields) {r : Json}
    → call fetch method params ≡ some r
    → Answered fetch method params r
unfolding call
call-Answered fetch method params e =
    result_of_answer-Answered fetch method params (fetch (rpc_body method params)) refl e

-- The ledger that `p` names has the transaction: one of the first `n` questions for its hash was answered by a result without an error that is validated and has this ledger's index.
pub record Validated (fetch : Fetch) (n : ℕ) (p : SubmittedPayment) : Type 0 where
  pub round : ℕ
  pub result : Json
  pub in_time : round < n
  pub answered : Answered (fetch round) (codes "tx") (tx_question p.hash) result
  pub final : Json
  pub said : member (codes "validated") result ≡ some final
  pub is_final : is_truthy final ≡ true
  pub same_ledger : p.ledger_index ≡ natural (member (codes "ledger_index") result)

-- The two fields of an answer that count here, with anything in place of a missing answer.
abbrev flag : Option TxAnswer → Bool
flag none = false
flag (some a) = a.validated

abbrev index : Option TxAnswer → Option ℕ
index none = none
index (some a) = a.ledger_index

tx_answer_of-some :
    (o : Option Json) {a : TxAnswer}
    → tx_answer_of o ≡ some a
    → (r : Json) × (o ≡ some r)
      × (is_true (member (codes "validated") r) ≡ a.validated)
      × (natural (member (codes "ledger_index") r) ≡ a.ledger_index)
tx_answer_of-some none e = cc
tx_answer_of-some (some r) {a} e = (r, refl, ap (λ o. flag o) e, ap (λ o. index o) e)

is_true-some :
    (o : Option Json) → is_true o ≡ true → (j : Json) × (o ≡ some j) × (is_truthy j ≡ true)
is_true-some none h = cc
is_true-some (some j) h = (j, refl, h)

Seen-Validated :
    (fetch : Fetch) (n : ℕ) (p : SubmittedPayment)
    → Seen (λ i. ask_tx (fetch i)) n p
    → Validated fetch n p
unfolding ask_tx
Seen-Validated fetch n p seen =
    let (r, got, flagged, indexed) =
      tx_answer_of-some (call (fetch seen.round) (codes "tx") (tx_question p.hash))
        seen.answered_so in
    let (j, said, holds) = is_true-some (member (codes "validated") r) (flagged ∙ seen.is_final) in
    record {
      round = seen.round;
      result = r;
      in_time = seen.in_time;
      answered = call-Answered (fetch seen.round) (codes "tx") (tx_question p.hash) got;
      final = j;
      said = said;
      is_final = holds;
      same_ledger = seen.same_ledger ∙ sym indexed;
    }

-- A payment that `submitPayment` returns as validated is in the ledger that it names, as the node says: one of at most `max_polls` calls of `tx` for its hash was answered over HTTP by a result without an error, whose `validated` holds and whose ledger is the one returned. What the node said when the payment was submitted is not enough, and neither are a call that fails and an answer with an error.
pub submit_payment-Validated :
    (fetch : Fetch) (public_key : Text) (sign : Payment → Text × Text) (max_polls : ℕ)
    (input : PaymentInput) {p : SubmittedPayment}
    → submit_payment (ledger_of fetch public_key sign) max_polls input ≡ some p
    → p.validated ≡ true
    → Validated fetch max_polls p
submit_payment-Validated fetch public_key sign max_polls input {p} e h =
    Seen-Validated fetch max_polls p
      (submit_payment-Seen (ledger_of fetch public_key sign) max_polls input e h)
