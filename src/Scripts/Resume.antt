-- ===== src/Scripts/Resume.antt =====
-- scripts/resume-job.ts: driving a persisted job again.
use flare_hack.Prelude.{
  ℕ, ◌≤◌, ◌≡◌, refl, inl, inr, Bool, true, false, Option, none, some, List, arith, if◌then◌else◌,
  Bool-cases, drop, Text,
}
use flare_hack.Disk.{written}
use flare_hack.Dict.{Dict, get, set}
use flare_hack.Pipeline.{
  JobState, observed, failed, Job, Services, normalize_xrpl_tx_id, Stepped, save,
}
use flare_hack.Pipeline.Run.{RunResult, run}
use flare_hack.Pipeline.Rounds.{rank}
use flare_hack.Pipeline.Liveness.{Enough, Executes, run-Executes}

-- How the script ends before its report: by an exception, without a job, or with a run.
pub data Resumed : Type 0 where
  bad_hash no_job save_failed : Resumed
  ran : RunResult → Resumed

-- `job.state = "observed"; job.attempts = 0; delete job.lastError`
abbrev pub reset : Job → Job
reset job = record job { state = observed; attempts = 0; last_error = none }

abbrev pub is_failed : JobState → Bool
is_failed failed = true
is_failed _ = false

abbrev pub run_saved : ℕ → List Services → Stepped → Resumed
run_saved deadline rounds s =
    if s.thrown then save_failed else ran (run deadline rounds s.job s.files)

abbrev pub resume_job : Services → ℕ → List Services → Dict Job → Option Job → Resumed
resume_job sv deadline rounds files none = no_job
resume_job sv deadline rounds files (some job) =
    if is_failed job.state
    then run_saved deadline rounds (save sv (reset job) files)
    else ran (run deadline rounds job files)

unfoldable pub resume : Services → ℕ → List Services → Text → Dict Job → Resumed
resume sv deadline rounds arg files = elim (normalize_xrpl_tx_id arg) [
  | none ↦ bad_hash
  | some tx ↦ resume_job sv deadline rounds files (get (drop 2 tx) files)
]

abbrev pub Succeeds : Resumed → Type 0
Succeeds (ran r) = Executes r
Succeeds _ = ⊥

rank_alive : (s : JobState) → is_failed s ≡ false → rank s ≤ 5
rank_alive failed e = cc
rank_alive observed e = omega arith
rank_alive _ e = omega arith

pub run_saved-Succeeds :
    (sv : Services) (deadline : ℕ) (rounds : List Services) (files : Dict Job) (job : Job)
    → sv.writing ≡ written
    → Enough deadline job.execution_allowed_at 5 rounds
    → Succeeds (run_saved deadline rounds (save sv (reset job) files))
unfolding save
run_saved-Succeeds sv deadline rounds files job can enough =
    let saved = record (reset job) { updated_at = sv.now } in
    rw can (
      run-Executes deadline job.execution_allowed_at 5 rounds saved (set job.id saved files)
        (omega arith) (omega arith) refl enough)

resume_job-Succeeds :
    (sv : Services) (deadline : ℕ) (rounds : List Services) (files : Dict Job) (job : Job)
    → sv.writing ≡ written
    → Enough deadline job.execution_allowed_at 5 rounds
    → Succeeds (resume_job sv deadline rounds files (some job))
resume_job-Succeeds sv deadline rounds files job can enough =
    elim (Bool-cases (is_failed job.state)) [
      | inl over ↦ rw over (run_saved-Succeeds sv deadline rounds files job can enough)
      | inr alive ↦ rw alive (
          run-Executes deadline job.execution_allowed_at 5 rounds job files
            (rank_alive job.state alive) (omega arith) refl enough)
    ]

-- A job that is on disk is brought to its end by `resume-job`, whatever state it was left in, failed included: when five of the rounds before the deadline find everything ready and the others only ask to be tried again, the run ends with the job executed. The script's own write must succeed.
pub resume-Succeeds :
    (sv : Services) (deadline : ℕ) (rounds : List Services) (arg tx : Text) (files : Dict Job)
    {job : Job}
    → normalize_xrpl_tx_id arg ≡ some tx
    → get (drop 2 tx) files ≡ some job
    → sv.writing ≡ written
    → Enough deadline job.execution_allowed_at 5 rounds
    → Succeeds (resume sv deadline rounds arg files)
unfolding resume
resume-Succeeds sv deadline rounds arg tx files {job} named found can enough =
    rw (named, found, resume) (resume_job-Succeeds sv deadline rounds files job can enough)
