-- ===== src/Tests/LivenessRuns.antt =====
-- Runs of the pipeline that come to their end.
use flare_hack.Prelude.{
  ℕ, ◌≡◌, refl, true, false, Option, none, some, [], ◌∷◌, ◌++◌, arith, ok, err, Text, codes, ◌===◌,
  starts_with,
}
use flare_hack.Dict.{Dict, get}
use flare_hack.Pipeline.{delayed, failed, proof_fetched, Job, Services, normalize_xrpl_tx_id}
use flare_hack.Pipeline.Run.{run}
use flare_hack.Pipeline.Rounds.{Benign, Cooperates, IsDue}
use flare_hack.Pipeline.Liveness.{Enough, arrived, waits, helps, Executes, run-Executes}
use flare_hack.Pipeline.Frame.{files_of, run-others}
use flare_hack.Scripts.Resume.{Succeeds, resume, resume-Succeeds}
use flare_hack.Tests.PipelineRuns.{well, sample_job}

well-Cooperates : (at : Option ℕ) (now : ℕ) → IsDue at now → Cooperates at (well now)
unfolding flare_hack.Pipeline.find_delayed_event
well-Cooperates at now due = (
  record {
    prepares = λ x. tt;
    submits = λ x. tt;
    finalizes = λ x. refl;
    fetches = λ x r. tt;
    writes = λ p d v. tt;
    mints = λ h. (refl, refl);
    disk = refl;
  },
  due,
)

-- The round is not final, and the DA layer asks to be tried again.
abbrev slow : ℕ → Services
slow now = record (well now) {
  is_round_finalized = λ r. ok false;
  fetch_proof = λ x r. err (record { retryable = true; message = codes "DA layer not ready" });
}

slow-Benign : (now : ℕ) → Benign (slow now)
unfolding flare_hack.Pipeline.find_delayed_event
slow-Benign now = record {
  prepares = λ x. tt;
  submits = λ x. tt;
  finalizes = λ x. tt;
  fetches = λ x r. refl;
  writes = λ p d v. tt;
  mints = λ h. (refl, refl);
  disk = refl;
}

abbrev delayed_job : Job
delayed_job = record (sample_job delayed 0) { execution_allowed_at = some 12 }

two : Enough 20 (some 12) 2 (slow 9 ∷ well 12 ∷ slow 13 ∷ well 14 ∷ [])
two = waits (omega arith) (slow-Benign 9) (
    helps (omega arith) (well-Cooperates (some 12) 12 (omega arith)) (
      waits (omega arith) (slow-Benign 13)
        (helps (omega arith) (well-Cooperates (some 12) 14 (omega arith)) arrived)))

run-Executes_example : Executes (run 20 (slow 9 ∷ well 12 ∷ slow 13 ∷ well 14 ∷ []) delayed_job [])
run-Executes_example =
    run-Executes 20 (some 12) 2 (slow 9 ∷ well 12 ∷ slow 13 ∷ well 14 ∷ []) delayed_job []
      (omega arith) (omega arith) refl two

five : Enough 20 none 5 (well 9 ∷ well 10 ∷ well 11 ∷ well 12 ∷ well 13 ∷ [])
five = helps (omega arith) (well-Cooperates none 9 tt) (
    helps (omega arith) (well-Cooperates none 10 tt) (
      helps (omega arith) (well-Cooperates none 11 tt) (
        helps (omega arith) (well-Cooperates none 12 tt)
          (helps (omega arith) (well-Cooperates none 13 tt) arrived))))

abbrev stuck_hash : Text
stuck_hash = codes "00000000000000000000000000000000000000000000000000000000000000AB"

normalizes : normalize_xrpl_tx_id stuck_hash ≡ some (codes "0x" ++ stuck_hash)
unfolding normalize_xrpl_tx_id flare_hack.Prelude.starts_with
normalizes = refl

abbrev failed_files : Dict Job
failed_files = (stuck_hash, record (sample_job failed 5) { id = stuck_hash }) ∷ []

loads : get stuck_hash failed_files ≡ some (record (sample_job failed 5) { id = stuck_hash })
unfolding get flare_hack.Prelude.◌===◌
loads = refl

resume-Succeeds_example : Succeeds (
    resume
      (well 8)
      20
      (well 9 ∷ well 10 ∷ well 11 ∷ well 12 ∷ well 13 ∷ [])
      stuck_hash
      failed_files)
resume-Succeeds_example =
    resume-Succeeds (well 8) 20 (well 9 ∷ well 10 ∷ well 11 ∷ well 12 ∷ well 13 ∷ []) stuck_hash
      (codes "0x" ++ stuck_hash) failed_files normalizes loads refl five

apart : (codes "AA" === stuck_hash) ≡ false
unfolding ◌===◌
apart = refl

run-others_example :
    get stuck_hash
      (files_of (run 20 (well 9 ∷ well 10 ∷ []) (sample_job proof_fetched 0) failed_files))
    ≡ get stuck_hash failed_files
run-others_example =
    run-others 20 (well 9 ∷ well 10 ∷ []) (sample_job proof_fetched 0) failed_files stuck_hash apart
