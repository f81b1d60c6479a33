-- ===== src/Pipeline/Failures.antt =====
-- packages/executor/src/pipeline.ts: what it takes for `step` to end a job.
use flare_hack.Prelude.{
  ℕ, ◌+◌, ◌≤◌, ◌≡◌, refl, sym, ap, ◌∙◌, ◌≢◌, inl, inr, Bool, true, false, not, ◌&&◌, Option, none,
  some, arith, leb, Bool-cases, Text,
}
use flare_hack.Dict.{Dict}
use flare_hack.Pipeline.{
  executed, failed, Failure, Job, Receipt, Services, Progress, moved, returned, threw, advance,
  lost_race, or_false, is_already_confirmed, recover, finish_step, step, find_delayed_event, settle,
}
use flare_hack.Pipeline.Outcome.{
  Outcome, Mined, prepared, submitted, finalized, proven, retried, mined, waited, stopped, lost,
  advance-Outcome,
}
use flare_hack.Pipeline.Persistence.{settled}
use flare_hack.Pipeline.Transitions.{save-job}

finish_step-state :
    (sv : Services) (files : Dict Job) (p : Progress)
    → (finish_step sv files p).job.state ≡ (settled sv p).state
finish_step-state sv files (moved j) =
    ap (λ x. x.state) (save-job sv (record j { attempts = 0; last_error = none }) files)
finish_step-state sv files (returned j) = refl
finish_step-state sv files (threw j e) = ap (λ x. x.state) (save-job sv (recover sv j e) files)

-- The outcome `p` is an exception, not a retryable one, that uses up the last of five attempts.
pub record GivesUp (job : Job) (p : Progress) : Type 0 where
  pub job_then : Job
  pub error : Failure
  pub thrown : p ≡ threw job_then error
  pub not_retryable : error.retryable ≡ false
  pub fifth : 4 ≤ job.attempts

-- Two ways to finish a mint: this step's transaction was mined, did not revert, and logged no
-- delay; or it failed as already confirmed, and the chain says that the payment has been used.
pub data Finished (sv : Services) (job : Job) (p : Progress) : Type 0 where
  by_us :
      {hash : Text} {receipt : Receipt}
      → Mined sv job hash receipt
      → find_delayed_event sv.decode_event_log receipt.logs ≡ none
      → Finished sv job p
  by_another :
      (job_then : Job) (e : Failure)
      → p ≡ threw job_then e
      → is_already_confirmed e ≡ true
      → sv.is_transaction_id_used job.xrpl_tx_id ≡ some true
      → Finished sv job p

or_false-true : (b : Option Bool) → or_false b ≡ true → b ≡ some true
or_false-true none h = cc
or_false-true (some b) h = cc

recover-failed :
    (sv : Services) (job : Job) (e : Failure)
    → job.state ≢ failed
    → (recover sv job e).state ≡ failed
    → (e.retryable ≡ false) × (4 ≤ job.attempts)
unfolding recover
recover-failed sv job e going h = elim (Bool-cases (lost_race sv job e)) [
  | inl l ↦ cc
  | inr o ↦ elim (Bool-cases (not e.retryable && leb 5 (job.attempts + 1))) [
    | inl stop ↦ (ground arith, ground arith)
    | inr again ↦ elim (going (rw (o, again) at h)) [ ]
  ]
]

failed-not_executed {ℓ} : {A : Type ℓ} → failed ≡ executed → A
failed-not_executed h = cc

recover-executed :
    (sv : Services) (job : Job) (e : Failure)
    → job.state ≢ executed
    → (recover sv job e).state ≡ executed
    → lost_race sv job e ≡ true
unfolding recover
recover-executed sv job e live h = elim (Bool-cases (lost_race sv job e)) [
  | inl l ↦ l
  | inr o ↦ elim (Bool-cases (not e.retryable && leb 5 (job.attempts + 1))) [
    | inl stop ↦ failed-not_executed (rw (o, stop) at h)
    | inr again ↦ elim (live (rw (o, again) at h)) [ ]
  ]
]

settle-going : (job : Job) (d : Option ℕ) → (settle job d).state ≢ failed
settle-going job none h = cc
settle-going job (some at) h = cc

settle-executed : (job : Job) (d : Option ℕ) → (settle job d).state ≡ executed → d ≡ none
settle-executed job none h = refl
settle-executed job (some at) h = cc

settled-failed :
    (sv : Services) (job : Job) (p : Progress)
    → Outcome sv job p
    → job.state ≢ failed
    → (settled sv p).state ≡ failed
    → GivesUp job p
settled-failed sv job _ (prepared at) going h = cc
settled-failed sv job _ (submitted at) going h = cc
settled-failed sv job _ (finalized at) going h = cc
settled-failed sv job _ (proven at) going h = cc
settled-failed sv job _ (retried at) going h = cc
settled-failed sv job _ (mined {hash} {receipt} at m) going h =
    elim (settle-going (record job { flare_tx_hash = some hash })
      (find_delayed_event sv.decode_event_log receipt.logs) h) [ ]
settled-failed sv job _ waited going h = elim (going h) [ ]
settled-failed sv job _ (stopped {e} live active) going h =
    let g = recover-failed sv job e going h in
    record { job_then = job; error = e; thrown = refl; not_retryable = g.0; fifth = g.1 }
settled-failed sv job _ (lost {hash} {e} at) going h =
    let g = recover-failed sv (record job { flare_tx_hash = some hash }) e going h in
    record {
      job_then = record job { flare_tx_hash = some hash };
      error = e;
      thrown = refl;
      not_retryable = g.0;
      fifth = g.1;
    }

lost_race-Finished :
    (sv : Services) (job job_then : Job) (e : Failure)
    → job_then.xrpl_tx_id ≡ job.xrpl_tx_id
    → lost_race sv job_then e ≡ true
    → Finished sv job (threw job_then e)
lost_race-Finished sv job job_then e same h =
    by_another job_then e refl (ground arith)
      (or_false-true (sv.is_transaction_id_used job.xrpl_tx_id) (ground arith))

settled-executed :
    (sv : Services) (job : Job) (p : Progress)
    → Outcome sv job p
    → job.state ≢ executed
    → (settled sv p).state ≡ executed
    → Finished sv job p
settled-executed sv job _ (prepared at) live h = cc
settled-executed sv job _ (submitted at) live h = cc
settled-executed sv job _ (finalized at) live h = cc
settled-executed sv job _ (proven at) live h = cc
settled-executed sv job _ (retried at) live h = cc
settled-executed sv job _ (mined {hash} {receipt} at m) live h = by_us m (
    settle-executed (record job { flare_tx_hash = some hash })
      (find_delayed_event sv.decode_event_log receipt.logs) h)
settled-executed sv job _ waited live h = elim (live h) [ ]
settled-executed sv job _ (stopped {e} _ active) live h =
    lost_race-Finished sv job job e refl (recover-executed sv job e live h)
settled-executed sv job _ (lost {hash} {e} at) live h =
    lost_race-Finished sv job (record job { flare_tx_hash = some hash }) e refl
      (recover-executed sv (record job { flare_tx_hash = some hash }) e live h)

-- A step makes a job `failed` that was not only when its `switch` threw an error that is not a retryable
-- one and at least four failures were counted before.
pub step-failed :
    (sv : Services) (job : Job) (files : Dict Job)
    → job.state ≢ failed
    → (step sv job files).job.state ≡ failed
    → GivesUp job (advance job.state sv job)
unfolding step
step-failed sv job files going h =
    settled-failed sv job (advance job.state sv job) (advance-Outcome sv job) going
      (sym (finish_step-state sv files (advance job.state sv job)) ∙ h)

-- A step makes a job `executed` that was not only when the transaction it sent with the fetched
-- proof was mined, did not revert and logged no delayed minting, or when it failed with the
-- selector of an already confirmed payment and the chain answers that the payment has been used.
pub step-executed :
    (sv : Services) (job : Job) (files : Dict Job)
    → job.state ≢ executed
    → (step sv job files).job.state ≡ executed
    → Finished sv job (advance job.state sv job)
unfolding step
step-executed sv job files live h =
    settled-executed sv job (advance job.state sv job) (advance-Outcome sv job) live
      (sym (finish_step-state sv files (advance job.state sv job)) ∙ h)
