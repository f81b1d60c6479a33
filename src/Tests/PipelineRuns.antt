-- ===== src/Tests/PipelineRuns.antt =====
-- Runs of the pipeline's steps.
use flare_hack.Prelude.{
  pos, ℕ, ◌≡◌, refl, true, false, none, some, [], ◌∷◌, arith, ltb, drop, ok, err, Text, codes,
}
use flare_hack.Disk.{written}
use flare_hack.Dict.{Dict, get}
use flare_hack.Pipeline.{
  JobState, observed, proof_fetched, executed, failed, Job, Services, Stepped, advance, step,
  normalize_xrpl_tx_id,
}
use flare_hack.Pipeline.Run.{CreateParams, create, run}
use flare_hack.Pipeline.Transitions.{Moves, step-Moves}
use flare_hack.Pipeline.Persistence.{order_of, attestation_of, Left, step-attestation, step-Left}
use flare_hack.Pipeline.Failures.{GivesUp, Finished, step-failed, step-executed}
use flare_hack.Pipeline.Resume.{OnDisk, run-OnDisk, run-ends, is_running}
use flare_hack.Pipeline.Again.{Resumes, create-run}
use flare_hack.Pipeline.Frame.{files_of}

abbrev pub well : ℕ → Services
well now = record {
  now = now;
  prepare_request = λ tx. ok (codes "request");
  submit_request = λ r. ok 7;
  is_round_finalized = λ r. ok true;
  fetch_proof = λ r n. ok (codes "proof");
  write_contract = λ proof op value. ok (codes "hash");
  wait_for_receipt = λ hash. ok (record { reverted = false; logs = [] });
  decode_event_log = λ log. none;
  is_transaction_id_used = λ tx. none;
  writing = written;
}

abbrev ill : ℕ → Services
ill now = record (well now) {
  prepare_request = λ tx. err (record { retryable = false; message = codes "HTTP 500" });
}

abbrev pub sample_job : JobState → ℕ → Job
sample_job state attempts = record {
  id = codes "AA";
  state = state;
  xrpl_tx_id = codes "0xAA";
  user_op_data = codes "0x00";
  total_call_value = pos 5;
  personal_account = codes "0x11";
  nonce = pos 3;
  abi_encoded_request = some (codes "request");
  round_id = some 7;
  flare_tx_hash = none;
  execution_allowed_at = none;
  attempts = attempts;
  last_error = none;
  updated_at = 0;
}

abbrev sample_files : Dict Job
sample_files = (codes "AA", sample_job proof_fetched 0) ∷ []

step-Moves_example :
    Moves proof_fetched (step (well 9) (sample_job proof_fetched 0) sample_files).job.state
step-Moves_example = step-Moves (well 9) (sample_job proof_fetched 0) sample_files

step-attestation_example :
    attestation_of (step (well 9) (sample_job proof_fetched 0) sample_files).job
    ≡ (some (codes "request"), some 7)
step-attestation_example =
    step-attestation (well 9) (sample_job proof_fetched 0) sample_files (λ e. cc) (λ e. cc)

step-Left_example :
    Left
      (well 9)
      (sample_job proof_fetched 0)
      sample_files
      (step (well 9) (sample_job proof_fetched 0) sample_files)
step-Left_example = step-Left (well 9) (sample_job proof_fetched 0) sample_files

given_up : (step (ill 9) (sample_job observed 4) sample_files).job.state ≡ failed
unfolding step advance flare_hack.Pipeline.save flare_hack.Pipeline.recover
given_up = refl

step-failed_example :
    GivesUp (sample_job observed 4) (advance observed (ill 9) (sample_job observed 4))
step-failed_example = step-failed (ill 9) (sample_job observed 4) sample_files (λ e. cc) given_up

minted : (step (well 9) (sample_job proof_fetched 0) sample_files).job.state ≡ executed
unfolding step advance flare_hack.Pipeline.save flare_hack.Pipeline.find_delayed_event
minted = refl

step-executed_example :
    Finished
      (well 9)
      (sample_job proof_fetched 0)
      (advance proof_fetched (well 9) (sample_job proof_fetched 0))
step-executed_example =
    step-executed (well 9) (sample_job proof_fetched 0) sample_files (λ e. cc) minted

on_disk : get (codes "AA") sample_files ≡ some (sample_job proof_fetched 0)
unfolding get flare_hack.Prelude.◌===◌
on_disk = refl

run-OnDisk_example :
    OnDisk
      (well 9 ∷ well 10 ∷ [])
      (order_of (sample_job proof_fetched 0))
      (run 20 (well 9 ∷ well 10 ∷ []) (sample_job proof_fetched 0) sample_files)
run-OnDisk_example =
    run-OnDisk 20 (well 9 ∷ well 10 ∷ []) (sample_job proof_fetched 0) sample_files on_disk

late : ltb 20 21 ≡ true
late = ground arith

run-ends_example :
    (is_running (run 20 (ill 9 ∷ well 21 ∷ []) (sample_job observed 0) sample_files) ≡ false)
    × (run 20 (ill 9 ∷ well 21 ∷ []) (sample_job observed 0) sample_files
        ≡ run 20 (ill 9 ∷ well 21 ∷ []) (sample_job observed 0) sample_files)
run-ends_example = run-ends 20 (ill 9 ∷ []) [] (well 21) (sample_job observed 0) sample_files late

abbrev plain_hash : Text
plain_hash = codes "aaaaaaaaaaaaaaaaaaaaaaaaaaaaaaaaaaaaaaaaaaaaaaaaaaaaaaaaaaaaaaaa"

abbrev normal_hash : Text
normal_hash = codes "0xAAAAAAAAAAAAAAAAAAAAAAAAAAAAAAAAAAAAAAAAAAAAAAAAAAAAAAAAAAAAAAAA"

abbrev params : Text → ℕ → CreateParams
params tx nonce = record {
  xrpl_tx_id = tx;
  user_op_data = codes "0x00";
  total_call_value = pos 5;
  personal_account = codes "0x11";
  nonce = pos nonce;
}

abbrev first_job : Job
first_job = record (sample_job observed 0) {
  id = drop 2 normal_hash;
  xrpl_tx_id = normal_hash;
  abi_encoded_request = none;
  round_id = none;
  updated_at = 9;
}

abbrev created : Stepped
created = record { job = first_job; files = (drop 2 normal_hash, first_job) ∷ []; thrown = false }

create-first : create (well 9) (params plain_hash 3) [] ≡ some created
unfolding create normalize_xrpl_tx_id flare_hack.Prelude.starts_with get flare_hack.Pipeline.save
    flare_hack.Dict.set
create-first = refl

same_hash : normalize_xrpl_tx_id normal_hash ≡ normalize_xrpl_tx_id plain_hash
unfolding normalize_xrpl_tx_id flare_hack.Prelude.starts_with
same_hash = refl

create-run_example :
    let r = run 20 (well 10 ∷ well 11 ∷ []) created.job created.files in
    Resumes
      (well 10 ∷ well 11 ∷ [])
      (order_of created.job)
      (create (well 12) (params normal_hash 4) (files_of r))
      r
create-run_example =
    create-run (well 9) (well 12) (params plain_hash 3) (params normal_hash 4) [] created 20
      (well 10 ∷ well 11 ∷ []) tt create-first refl same_hash
