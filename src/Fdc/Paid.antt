-- ===== src/Fdc/Paid.antt =====
-- packages/executor/src/fdc.ts: what a submitted request has cost, and the client as the pipeline
-- of packages/executor/src/pipeline.ts uses it.
use flare_hack.Prelude.{
  ℕ, ◌≡◌, refl, sym, ap, ◌∙◌, inl, inr, Option, none, some, Option-cases, Text, codes,
}
use flare_hack.Dict.{Dict}
use flare_hack.Fdc.{round_of, resolve}
use flare_hack.Fdc.Client.{
  Network, Spent, SubmitResult, timestamp_of, round_with, submitted_in, derive_round, pay, fee_of,
  client_submit_request, thrown,
}

-- The request was paid for, at the fee that the hub's configuration asks, and the round is that of
-- the block that took it.
pub record IsPaid (net : Network) (cache : Dict Text) (request : Text) (s : SubmitResult)
    (round : ℕ) (tx_hash : Text) : Type 0 where
  pub hub : Text
  pub named : (resolve net.registry (codes "FdcHub") cache).0 ≡ some hub
  pub fee : ℕ
  pub asked : fee_of net hub request ≡ some fee
  pub sent : net.request_attestation hub request fee ≡ some tx_hash
  pub spent : s.spent ≡ some (record { hub = hub; request = request; fee = fee })
  pub timestamp : ℕ
  pub mined : timestamp_of net tx_hash ≡ some timestamp
  pub manager : Text
  pub manager_named :
      (resolve net.registry
        (codes "FlareSystemsManager")
        (resolve net.registry (codes "FdcHub") cache).1).0
      ≡ some manager
  pub first : ℕ
  pub starts : net.first_voting_round_start_ts manager ≡ some first
  pub duration : ℕ
  pub lasts : net.voting_epoch_duration_seconds manager ≡ some duration
  pub round_is : round_of timestamp first duration ≡ some round

round_with-some :
    (first duration : Option ℕ) (timestamp : ℕ) {round : ℕ}
    → round_with first duration timestamp ≡ some round
    → (f : ℕ) × (d : ℕ) × (first ≡ some f)
      × (duration ≡ some d)
      × (round_of timestamp f d ≡ some round)
round_with-some (some f) (some d) timestamp e = (f, d, refl, refl, e)
round_with-some (some f) none timestamp e = cc
round_with-some none d timestamp e = cc

submitted_in-some :
    (tx : Text) (round : Option ℕ) {r : ℕ} {h : Text}
    → submitted_in tx round ≡ some (r, h)
    → (round ≡ some r) × (h ≡ tx)
submitted_in-some tx none e = cc
submitted_in-some tx (some n) e = (
  ap (λ o. elim o [ none ↦ none | some p ↦ some p.0 ]) e,
  sym (ap (λ o. elim o [ none ↦ tx | some p ↦ p.1 ]) e),
)

module _ (net : Network) (cache : Dict Text) (request : Text) where
  -- Every result of the call is paid for.
  abbrev Paid : SubmitResult → Type 0
  Paid s =
      (round : ℕ) (tx_hash : Text)
      → s.result ≡ some (round, tx_hash)
      → IsPaid net cache request s round tx_hash

  thrown-Paid : (c : Dict Text) (spent : Option Spent) → Paid (thrown c spent)
  thrown-Paid c spent round h e = cc

  module _ (hub : Text) (fee : ℕ) (hash : Text)
      (named : (resolve net.registry (codes "FdcHub") cache).0 ≡ some hub)
      (asked : fee_of net hub request ≡ some fee)
      (sent : net.request_attestation hub request fee ≡ some hash) where
    derive_round-Paid :
        (c : Dict Text) (t : Option ℕ)
        → (resolve net.registry (codes "FdcHub") cache).1 ≡ c
        → timestamp_of net hash ≡ t
        → Paid
            (derive_round net c (some (record { hub = hub; request = request; fee = fee })) hash t)
    derive_round-Paid c none cached mined = thrown-Paid c _
    derive_round-Paid c (some t) cached mined =
        elim (Option-cases (resolve net.registry (codes "FlareSystemsManager") c).0) [
          | inl absent ↦ rw (absent, derive_round) (thrown-Paid _ _)
          | inr (fsm, found) ↦
              rw (found, derive_round)
                (λ round tx_hash e.
                  let (same, hash_same) =
                    submitted_in-some hash
                      (round_with (net.first_voting_round_start_ts fsm)
                        (net.voting_epoch_duration_seconds fsm) t)
                      e in
                  let (f, d, starts, lasts, is_round) =
                    round_with-some (net.first_voting_round_start_ts fsm)
                      (net.voting_epoch_duration_seconds fsm) t same in
                  record {
                    hub = hub;
                    named = named;
                    fee = fee;
                    asked = asked;
                    sent = sent ∙ ap some (sym hash_same);
                    spent = refl;
                    timestamp = t;
                    mined = ap (timestamp_of net) hash_same ∙ mined;
                    manager = fsm;
                    manager_named = rw cached found;
                    first = f;
                    starts = starts;
                    duration = d;
                    lasts = lasts;
                    round_is = is_round;
                  })
        ]

  pay-Paid :
      (c : Dict Text) (hub : Text) (fee : Option ℕ)
      → (resolve net.registry (codes "FdcHub") cache).0 ≡ some hub
      → (resolve net.registry (codes "FdcHub") cache).1 ≡ c
      → fee_of net hub request ≡ fee
      → Paid (pay net c hub request fee)
  pay-Paid c hub none named cached asked = thrown-Paid c none
  pay-Paid c hub (some fee) named cached asked =
      elim (Option-cases (net.request_attestation hub request fee)) [
        | inl failed ↦ rw (failed, pay) (thrown-Paid c none)
        | inr (hash, sent) ↦
            rw (sent, pay)
              (derive_round-Paid hub fee hash named asked sent c (timestamp_of net hash) cached
                refl)
      ]

  client_submit_request-Paid : Paid (client_submit_request net cache request)
  unfolding client_submit_request
  client_submit_request-Paid = elim (Option-cases (resolve net.registry (codes "FdcHub") cache).0) [
    | inl absent ↦
        rw (absent, client_submit_request)
          (thrown-Paid (resolve net.registry (codes "FdcHub") cache).1 none)
    | inr (hub, named) ↦
        rw (named, client_submit_request)
          (pay-Paid (resolve net.registry (codes "FdcHub") cache).1 hub (fee_of net hub request)
            named refl refl)
  ]

  -- When `submitRequest` returns a round, the request has been sent to the FdcHub with exactly the fee that the hub's configuration asks for it, the hash is that of the transaction that carried it, and the round is the one in which the block that mined this transaction lies: the seconds from the start of the first round to the block's timestamp, divided by the duration of a round, with the start and the duration that the FlareSystemsManager named by the registry gives.
  pub client_submit_request-IsPaid :
      (round : ℕ) (tx_hash : Text)
      → (client_submit_request net cache request).result ≡ some (round, tx_hash)
      → IsPaid net cache request (client_submit_request net cache request) round tx_hash
  client_submit_request-IsPaid round tx_hash e = client_submit_request-Paid round tx_hash e
