-- ===== src/Pipeline/Persistence.antt =====
-- packages/executor/src/pipeline.ts: what `step` keeps of a job, and what it leaves on disk.
use flare_hack.Prelude.{
  arith, ℤ, ℕ, ◌+◌, ◌≡◌, refl, ap, ◌∙◌, ◌≢◌, ◌⊎◌, inl, inr, true, false, not, ◌&&◌, Option, none,
  some, leb, Bool-cases, Text,
}
use flare_hack.Disk.{Write, written, refused, cut}
use flare_hack.Dict.{Dict, set, remove}
use flare_hack.Pipeline.{
  observed, request_prepared, Failure, Job, Services, Progress, moved, returned, threw, advance,
  lost_race, recover, save, finish_step, step, find_delayed_event, settle, Stepped,
}
use flare_hack.Pipeline.Outcome.{
  Outcome, prepared, submitted, finalized, proven, retried, mined, waited, stopped, lost,
  advance-Outcome,
}

-- The payment and the user operation that a job is about.
pub record Order : Type 0 where
  pub id : Text
  pub xrpl_tx_id : Text
  pub user_op_data : Text
  pub total_call_value : ℤ
  pub personal_account : Text
  pub nonce : ℤ

abbrev pub order_of : Job → Order
order_of job = record {
  id = job.id;
  xrpl_tx_id = job.xrpl_tx_id;
  user_op_data = job.user_op_data;
  total_call_value = job.total_call_value;
  personal_account = job.personal_account;
  nonce = job.nonce;
}

-- The attestation request that was paid for, and the round it was paid for in.
abbrev pub attestation_of : Job → Option Text × Option ℕ
attestation_of job = (job.abi_encoded_request, job.round_id)

-- The job that an outcome of the `switch` hands to `save`, or returns.
abbrev pub settled : Services → Progress → Job
settled sv (moved job) = record job { attempts = 0; last_error = none }
settled sv (returned job) = job
settled sv (threw job e) = recover sv job e

pub recover-keeps :
    (sv : Services) (job : Job) (e : Failure)
    → (order_of (recover sv job e) ≡ order_of job)
      × (attestation_of (recover sv job e) ≡ attestation_of job)
unfolding recover
recover-keeps sv job e = elim (Bool-cases (lost_race sv job e)) [
  | inl l ↦ rw l (refl, refl)
  | inr o ↦ elim (Bool-cases (not e.retryable && leb 5 (job.attempts + 1))) [
    | inl stop ↦ rw (o, stop) (refl, refl)
    | inr again ↦ rw (o, again) (refl, refl)
  ]
]

settle-keeps :
    (job : Job) (d : Option ℕ)
    → (order_of (settle job d) ≡ order_of job)
      × (attestation_of (settle job d) ≡ attestation_of job)
settle-keeps job none = (refl, refl)
settle-keeps job (some at) = (refl, refl)

settled-order :
    (sv : Services) (job : Job) (p : Progress)
    → Outcome sv job p
    → order_of (settled sv p) ≡ order_of job
settled-order sv job _ (prepared at) = refl
settled-order sv job _ (submitted at) = refl
settled-order sv job _ (finalized at) = refl
settled-order sv job _ (proven at) = refl
settled-order sv job _ (retried at) = refl
settled-order sv job _ (mined {hash} {receipt} at m) =
    (settle-keeps (record job { flare_tx_hash = some hash })
      (find_delayed_event sv.decode_event_log receipt.logs)).0
settled-order sv job _ waited = refl
settled-order sv job _ (stopped {e} live going) = (recover-keeps sv job e).0
settled-order sv job _ (lost {hash} {e} at) =
    (recover-keeps sv (record job { flare_tx_hash = some hash }) e).0

settled-attestation :
    (sv : Services) (job : Job) (p : Progress)
    → Outcome sv job p
    → job.state ≢ observed
    → job.state ≢ request_prepared
    → attestation_of (settled sv p) ≡ attestation_of job
settled-attestation sv job _ (prepared at) new ready = elim (new at) [ ]
settled-attestation sv job _ (submitted at) new ready = elim (ready at) [ ]
settled-attestation sv job _ (finalized at) new ready = refl
settled-attestation sv job _ (proven at) new ready = refl
settled-attestation sv job _ (retried at) new ready = refl
settled-attestation sv job _ (mined {hash} {receipt} at m) new ready =
    (settle-keeps (record job { flare_tx_hash = some hash })
      (find_delayed_event sv.decode_event_log receipt.logs)).1
settled-attestation sv job _ waited new ready = refl
settled-attestation sv job _ (stopped {e} live going) new ready = (recover-keeps sv job e).1
settled-attestation sv job _ (lost {hash} {e} at) new ready =
    (recover-keeps sv (record job { flare_tx_hash = some hash }) e).1

-- What a step leaves: nothing was touched; or the job it returns is on disk; or the write failed, and
-- the files are as they were; or it failed when it had emptied the job's own file.
pub data Left (sv : Services) (job : Job) (files : Dict Job) : Stepped → Type 0 where
  untouched : Left sv job files (record { job = job; files = files; thrown = false })
  stored :
      {j : Job}
      → sv.writing ≡ written
      → j.updated_at ≡ sv.now
      → j.id ≡ job.id
      → Left sv job files (record { job = j; files = set j.id j files; thrown = false })
  not_written :
      {j : Job}
      → sv.writing ≡ refused
      → Left sv job files (record { job = j; files = files; thrown = true })
  emptied :
      {j : Job}
      → sv.writing ≡ cut
      → Left sv job files (record { job = j; files = remove job.id files; thrown = true })

Write-cases : (w : Write) → (w ≡ written) ⊎ ((w ≡ refused) ⊎ (w ≡ cut))
Write-cases written = inl refl
Write-cases refused = inr (inl refl)
Write-cases cut = inr (inr refl)

save-Left :
    (sv : Services) (job j : Job) (files : Dict Job)
    → j.id ≡ job.id
    → Left sv job files (save sv j files)
unfolding save
save-Left sv job j files same = elim (Write-cases sv.writing) [
  | inl can ↦ simp can (stored can refl same)
  | inr (inl cannot) ↦ simp cannot (not_written cannot)
  | inr (inr broken) ↦ simp (broken, same) (emptied broken)
]

finish_step-Left :
    (sv : Services) (job : Job) (files : Dict Job) (p : Progress)
    → Outcome sv job p
    → Left sv job files (finish_step sv files p)
finish_step-Left sv job files (moved j) o =
    save-Left sv job (record j { attempts = 0; last_error = none }) files
      (ap (λ x. x.id) (settled-order sv job (moved j) o))
finish_step-Left sv job files (threw j e) o =
    save-Left sv job (recover sv j e) files (ap (λ x. x.id) (settled-order sv job (threw j e) o))
finish_step-Left sv job files _ waited = untouched

-- A step either returns the job as it was and touches no file, or has written the job that it returns, stamped with the clock, over the job's own file; or its write threw, and then the files are as they were, or the job's own file, which the write empties before it fills it, holds no job any more and the other files are as they were.
pub step-Left :
    (sv : Services) (job : Job) (files : Dict Job) → Left sv job files (step sv job files)
unfolding step
step-Left sv job files =
    finish_step-Left sv job files (advance job.state sv job) (advance-Outcome sv job)

finish_step-job :
    (sv : Services) (files : Dict Job) (p : Progress)
    → (order_of (finish_step sv files p).job ≡ order_of (settled sv p))
      × (attestation_of (finish_step sv files p).job ≡ attestation_of (settled sv p))
unfolding save
finish_step-job sv files (moved j) = ground arith
finish_step-job sv files (returned j) = (refl, refl)
finish_step-job sv files (threw j e) = ground arith

-- No step changes the payment, the user operation, its value, its account or its nonce.
pub step-order :
    (sv : Services) (job : Job) (files : Dict Job) → order_of (step sv job files).job ≡ order_of job
unfolding step
step-order sv job files =
    let p = advance job.state sv job in
    (finish_step-job sv files p).0 ∙ settled-order sv job p (advance-Outcome sv job)

-- From the state `request_submitted` on, which is every state but the first two, no step changes
-- the attestation request or the voting round that it was paid for in, whatever fails.
pub step-attestation :
    (sv : Services) (job : Job) (files : Dict Job)
    → job.state ≢ observed
    → job.state ≢ request_prepared
    → attestation_of (step sv job files).job ≡ attestation_of job
unfolding step
step-attestation sv job files new ready =
    let p = advance job.state sv job in
    (finish_step-job sv files p).1 ∙ settled-attestation sv job p (advance-Outcome sv job) new ready
