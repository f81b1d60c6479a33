-- ===== src/Pipeline/Outcome.antt =====
-- packages/executor/src/pipeline.ts: every way that the `switch` of `step` can end.
use flare_hack.Prelude.{
  ℕ, ◌≡◌, refl, ◌≢◌, inl, inr, true, false, some, Bool-cases, Except, ok, err, Except-cases, Text,
}
use flare_hack.Pipeline.{
  JobState, observed, request_prepared, request_submitted, round_finalized, proof_fetched, delayed,
  executed, failed, Failure, Job, Receipt, Services, Progress, moved, returned, threw, advance,
  still_delayed, find_delayed_event, settle_receipt, settle,
}

-- The transaction `hash` was mined and did not revert.
pub record Mined (sv : Services) (job : Job) (hash : Text) (receipt : Receipt) : Type 0 where
  pub proof : Text
  pub fetched : sv.fetch_proof job.abi_encoded_request job.round_id ≡ ok proof
  pub written : sv.write_contract proof job.user_op_data job.total_call_value ≡ ok hash
  pub received : sv.wait_for_receipt hash ≡ ok receipt
  pub succeeded : receipt.reverted ≡ false

pub data Outcome (sv : Services) (job : Job) : Progress → Type 0 where
  prepared :
      {r : Text}
      → job.state ≡ observed
      → Outcome sv job
          (moved (record job { abi_encoded_request = some r; state = request_prepared }))
  submitted :
      {r : ℕ}
      → job.state ≡ request_prepared
      → Outcome sv job (moved (record job { round_id = some r; state = request_submitted }))
  finalized :
      job.state ≡ request_submitted
      → Outcome sv job (moved (record job { state = round_finalized }))
  proven :
      job.state ≡ round_finalized → Outcome sv job (moved (record job { state = proof_fetched }))
  retried : job.state ≡ delayed → Outcome sv job (moved (record job { state = proof_fetched }))
  mined :
      {hash : Text} {receipt : Receipt}
      → job.state ≡ proof_fetched
      → Mined sv job hash receipt
      → Outcome sv job (
          moved (
            settle
              (record job { flare_tx_hash = some hash })
              (find_delayed_event sv.decode_event_log receipt.logs)))
  waited : Outcome sv job (returned job)
  stopped : {e : Failure} → job.state ≢ executed → job.state ≢ failed → Outcome sv job (threw job e)
  lost :
      {hash : Text} {e : Failure}
      → job.state ≡ proof_fetched
      → Outcome sv job (threw (record job { flare_tx_hash = some hash }) e)

settle_receipt-Outcome :
    (sv : Services) (job : Job) (proof hash : Text) (r : Except Failure Receipt)
    → job.state ≡ proof_fetched
    → sv.fetch_proof job.abi_encoded_request job.round_id ≡ ok proof
    → sv.write_contract proof job.user_op_data job.total_call_value ≡ ok hash
    → sv.wait_for_receipt hash ≡ r
    → Outcome sv job (settle_receipt sv (record job { flare_tx_hash = some hash }) hash r)
settle_receipt-Outcome sv job proof hash (err e) at f w g = lost at
settle_receipt-Outcome sv job proof hash (ok r) at f w g = elim (Bool-cases r.reverted) [
  | inl bad ↦ rw bad (lost at)
  | inr good ↦ rw good (
      mined at (record { proof = proof; fetched = f; written = w; received = g; succeeded = good }))
]

advance-Outcome_at :
    (s : JobState) (sv : Services) (job : Job) → job.state ≡ s → Outcome sv job (advance s sv job)
unfolding advance
advance-Outcome_at observed sv job at = elim (Except-cases (sv.prepare_request job.xrpl_tx_id)) [
  | inl (r, e) ↦ rw (e, advance) (prepared at)
  | inr (x, e) ↦ rw (e, advance) (stopped (λ x. cc) (λ x. cc))
]
advance-Outcome_at request_prepared sv job at =
    elim (Except-cases (sv.submit_request job.abi_encoded_request)) [
      | inl (r, e) ↦ rw (e, advance) (submitted at)
      | inr (x, e) ↦ rw (e, advance) (stopped (λ x. cc) (λ x. cc))
    ]
advance-Outcome_at request_submitted sv job at =
    elim (Except-cases (sv.is_round_finalized job.round_id)) [
      | inl (true, e) ↦ rw (e, advance) (finalized at)
      | inl (false, e) ↦ rw (e, advance) waited
      | inr (x, e) ↦ rw (e, advance) (stopped (λ x. cc) (λ x. cc))
    ]
advance-Outcome_at round_finalized sv job at =
    elim (Except-cases (sv.fetch_proof job.abi_encoded_request job.round_id)) [
      | inl (r, e) ↦ rw (e, advance) (proven at)
      | inr (x, e) ↦ rw (e, advance) (stopped (λ x. cc) (λ x. cc))
    ]
advance-Outcome_at delayed sv job at =
    elim (Bool-cases (still_delayed sv.now job.execution_allowed_at)) [
      | inl early ↦ rw (early, advance) waited
      | inr due ↦ rw (due, advance) (retried at)
    ]
advance-Outcome_at proof_fetched sv job at =
    elim (Except-cases (sv.fetch_proof job.abi_encoded_request job.round_id)) [
      | inr (x, e) ↦ rw (e, advance) (stopped (λ x. cc) (λ x. cc))
      | inl (proof, e) ↦
          rw (e, advance)
            (elim (Except-cases (sv.write_contract proof job.user_op_data job.total_call_value)) [
              | inr (x, w) ↦ rw (w, advance) (stopped (λ x. cc) (λ x. cc))
              | inl (hash, w) ↦
                  rw (w, advance)
                    (settle_receipt-Outcome sv job proof hash (sv.wait_for_receipt hash) at e w
                      refl)
            ])
    ]
advance-Outcome_at executed sv job at = waited
advance-Outcome_at failed sv job at = waited

pub advance-Outcome : (sv : Services) (job : Job) → Outcome sv job (advance job.state sv job)
advance-Outcome sv job = advance-Outcome_at job.state sv job refl
