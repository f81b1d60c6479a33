-- ===== src/Relay/Observed.antt =====
-- packages/executor/src/watcher.ts: a payment that carries a registered commitment is reported.
use flare_hack.Prelude.{
  ℕ, max, ◌≡◌, refl, true, false, Option, some, List, [], ◌∷◌, ℤ, Text, codes, ===_refl,
  to_lower_case,
}
use flare_hack.Json.{string, object, Fields, get_field}
use flare_hack.Dict.{get}
use flare_hack.Pending.{PendingUserOp}
use flare_hack.Prepare.Payment.{memos_json}
use flare_hack.Service.{PreparedForWeb}
use flare_hack.Watcher.{
  AccountTxEntry, ObservedPayment, Watcher, has, is_payment, poll, observe, observe_all, is_false,
  ledger_index_min, commitment_from_memos, or_zero, property,
}
use flare_hack.Relay.Held.{fetch-held}

-- A transaction on the vault's account that carries the memo.
pub record Carries (web : PreparedForWeb) (e : AccountTxEntry) (tx_id : Text) : Type 0 where
  pub tx : Fields
  pub body : e.tx_json ≡ some (object tx)
  pub kind : get_field (codes "TransactionType") tx ≡ some (string (codes "Payment"))
  pub memos : get_field (codes "Memos") tx ≡ some (memos_json web.memo_hex)
  pub hash : e.hash ≡ some tx_id
  pub validated : is_false e.validated ≡ false

abbrev pub observed_of : Fields → AccountTxEntry → Text → Text → ObservedPayment
observed_of tx e tx_id commitment = record {
  xrpl_tx_id = tx_id;
  commitment = commitment;
  amount = property (codes "Amount") (some (object tx));
  sender = property (codes "Account") (some (object tx));
  ledger_index = or_zero e.ledger_index;
}

-- The watcher once it has seen the payment.
abbrev pub saw : AccountTxEntry → Text → Watcher → Watcher
saw e tx_id w = record w {
  last_ledger = max (or_zero e.ledger_index) w.last_ledger;
  seen = tx_id ∷ w.seen;
}

is_payment-kind :
    (tx : Fields)
    → get_field (codes "TransactionType") tx ≡ some (string (codes "Payment"))
    → is_payment (some (object tx)) ≡ true
unfolding property
is_payment-kind tx kind = rw (kind, is_payment) (===_refl (codes "Payment"))

pub observe-Carries :
    (web : PreparedForWeb) (e : AccountTxEntry) (x : ℕ) (id c : Text) (w : Watcher)
    {r : PendingUserOp}
    → (t : Carries web e (x ∷ id)) → commitment_from_memos (object t.tx) ≡ some c
    → get (to_lower_case c) w.store.memory ≡ some r
    → has (x ∷ id) w.seen ≡ false
    → observe e w ≡ (some (observed_of t.tx e (x ∷ id) c), saw e (x ∷ id) w)
unfolding observe
observe-Carries web e x id c w t commits held new =
    rw
      (
        t.body,
        t.validated,
        is_payment-kind t.tx t.kind,
        t.hash,
        new,
        commits,
        fetch-held c (record w { last_ledger = max (or_zero e.ledger_index) w.last_ledger }).store
            held,
      )
      refl

observe_all-one :
    (e : AccountTxEntry) (w : Watcher) {p : ObservedPayment} {v : Watcher}
    → observe e w ≡ (some p, v)
    → observe_all (e ∷ []) w ≡ (p ∷ [], v)
unfolding observe_all
observe_all-one e w found = rw found refl

pub poll-one :
    (account_tx : ℤ → Option (Option (List AccountTxEntry))) (w : Watcher) (e : AccountTxEntry)
    {p : ObservedPayment} {v : Watcher}
    → account_tx (ledger_index_min w) ≡ some (some (e ∷ []))
    → observe e w ≡ (some p, v)
    → poll account_tx w ≡ (some (p ∷ []), v)
unfolding poll
poll-one account_tx w e answer found = rw (answer, observe_all-one e w found, poll) refl
