-- ===== src/Xrpl/Laws.antt =====
-- packages/executor/src/xrpl.ts: a payment is reported as validated only when the ledger said so.
use mathlib.Core.Path.{subst}
use flare_hack.Prelude.{
  ℕ, zero, suc, ◌+◌, ◌≤◌, ◌<◌, ◌≡◌, refl, ap, ◌∙◌, inl, inr, true, Option, none, some, arith,
  Bool-cases, Option-cases, Text,
}
use flare_hack.Xrpl.{
  TxAnswer, SubmittedPayment, Ledger, PaymentInput, payment_of, may_succeed, poll_ledger, submitted,
  submit_with, submit_payment,
}

-- A round below `bound` was answered by a transaction that is validated in the ledger shown.
pub record Seen (tx : ℕ → Text → Option TxAnswer) (bound : ℕ) (p : SubmittedPayment) : Type 0 where
  pub round : ℕ
  pub answer : TxAnswer
  pub in_time : round < bound
  pub answered_so : tx round p.hash ≡ some answer
  pub is_final : answer.validated ≡ true
  pub same_ledger : p.ledger_index ≡ answer.ledger_index

poll_ledger-Seen :
    (tx : ℕ → Text → Option TxAnswer) (hash r : Text) (n i bound : ℕ)
    → i + n ≤ bound
    → (poll_ledger tx hash r n i).validated ≡ true
    → Seen tx bound (poll_ledger tx hash r n i)
unfolding poll_ledger
poll_ledger-Seen tx hash r zero i bound le h = cc
poll_ledger-Seen tx hash r (suc n) i bound le h = elim (Option-cases (tx i hash)) [
  | inl absent ↦
      rw absent (poll_ledger-Seen tx hash r n (i + 1) bound (omega arith) (rw absent at h))
  | inr (a, found) ↦ elim (Bool-cases a.validated) [
    | inl final ↦
        rw (found, final)
          (record {
            round = i;
            answer = a;
            in_time = omega arith;
            answered_so = found;
            is_final = final;
            same_ledger = refl;
          })
    | inr pending ↦
        rw (found, pending)
          (poll_ledger-Seen tx hash r n (i + 1) bound (omega arith) (rw (found, pending) at h))
  ]
]

submitted-Seen :
    (ledger : Ledger) (max_polls : ℕ) (hash : Text) (r : Option Text) {p : SubmittedPayment}
    → submitted ledger max_polls hash r ≡ some p
    → p.validated ≡ true
    → Seen ledger.tx max_polls p
submitted-Seen ledger max_polls hash none e h = cc
submitted-Seen ledger max_polls hash (some r) {p} e h = elim (Bool-cases (may_succeed r)) [
  | inl yes_maybe ↦
      let same : poll_ledger ledger.tx hash r max_polls 0 ≡ p = ground arith in
      subst (Seen ledger.tx max_polls) same (
        poll_ledger-Seen ledger.tx hash r max_polls 0 max_polls (omega arith)
          (ap (λ x. x.validated) same ∙ h))
  | inr refused ↦ absurd (ground arith)
]

submit_with-Seen :
    (ledger : Ledger) (max_polls : ℕ) (input : PaymentInput) (s c : Option ℕ) {p : SubmittedPayment}
    → submit_with ledger max_polls input s c ≡ some p
    → p.validated ≡ true
    → Seen ledger.tx max_polls p
submit_with-Seen ledger max_polls input (some s) (some c) e h =
    let signed = ledger.sign (payment_of input ledger.public_key s c) in
    submitted-Seen ledger max_polls signed.1 (ledger.submit signed.0) e h
submit_with-Seen ledger max_polls input none c e h = cc
submit_with-Seen ledger max_polls input (some s) none e h = cc

-- A payment is returned as validated only when one of at most `max_polls` questions for its hash
-- was answered by a validated transaction, whose ledger is returned with it; what the node said
-- when the payment was submitted is not enough.
pub submit_payment-Seen :
    (ledger : Ledger) (max_polls : ℕ) (input : PaymentInput) {p : SubmittedPayment}
    → submit_payment ledger max_polls input ≡ some p
    → p.validated ≡ true
    → Seen ledger.tx max_polls p
unfolding submit_payment
submit_payment-Seen ledger max_polls input e h =
    submit_with-Seen ledger max_polls input (ledger.sequence input.account) ledger.current_ledger e
      h
