-- ===== src/Pipeline/Liveness.antt =====
-- packages/executor/src/pipeline.ts: a job ends executed when the outside comes round often enough.
use flare_hack.Prelude.{
  ℕ, zero, suc, ◌≤◌, ◌≡◌, refl, sym, ◌∙◌, inl, inr, true, false, Option, List, [], ◌∷◌, arith, ltb,
  Bool-cases,
}
use mathlib.Core.Path.{subst}
use flare_hack.Dict.{Dict}
use flare_hack.Pipeline.{
  JobState, observed, request_prepared, request_submitted, round_finalized, proof_fetched, delayed,
  executed, failed, Job, Services, step,
}
use flare_hack.Pipeline.Run.{RunResult, done, is_terminal, run}
use flare_hack.Pipeline.Rounds.{rank, Benign, Cooperates}
use flare_hack.Pipeline.Nearer.{step-Benign, step-Cooperates}

-- Rounds that start before the deadline, in `n` of which at least everything is ready; the others
-- are benign.
pub data Enough (deadline : ℕ) (at : Option ℕ) : ℕ → List Services → Type 0 where
  arrived : {rounds : List Services} → Enough deadline at zero rounds
  waits :
      {n : ℕ} {sv : Services} {rounds : List Services}
      → sv.now ≤ deadline
      → Benign sv
      → Enough deadline at n rounds
      → Enough deadline at n (sv ∷ rounds)
  helps :
      {n : ℕ} {sv : Services} {rounds : List Services}
      → sv.now ≤ deadline
      → Cooperates at sv
      → Enough deadline at n rounds
      → Enough deadline at (suc n) (sv ∷ rounds)

abbrev pub Executes : RunResult → Type 0
Executes (done job files) = job.state ≡ executed
Executes _ = ⊥

rank-zero : (s : JobState) → rank s ≤ 0 → s ≡ executed
rank-zero executed h = refl
rank-zero observed h = absurd (omega arith)
rank-zero request_prepared h = absurd (omega arith)
rank-zero request_submitted h = absurd (omega arith)
rank-zero round_finalized h = absurd (omega arith)
rank-zero delayed h = absurd (omega arith)
rank-zero proof_fetched h = absurd (omega arith)
rank-zero failed h = absurd (omega arith)

run-arrived :
    (deadline : ℕ) (rounds : List Services) (job : Job) (files : Dict Job)
    → job.state ≡ executed
    → Executes (run deadline rounds job files)
unfolding run
run-arrived deadline [] job files e =
    let over : is_terminal job.state ≡ true = rw e refl in rw over e
run-arrived deadline (sv ∷ rounds) job files e =
    let over : is_terminal job.state ≡ true = rw e refl in rw over e

terminal-executed : (s : JobState) → rank s ≤ 5 → is_terminal s ≡ true → s ≡ executed
terminal-executed executed h t = refl
terminal-executed failed h t = absurd (omega arith)
terminal-executed observed h t = cc
terminal-executed request_prepared h t = cc
terminal-executed request_submitted h t = cc
terminal-executed round_finalized h t = cc
terminal-executed delayed h t = cc
terminal-executed proof_fetched h t = cc

-- One round of the loop, before the deadline.
run-round :
    (deadline : ℕ) (sv : Services) (rounds : List Services) (job : Job) (files : Dict Job)
    → rank job.state ≤ 5
    → sv.now ≤ deadline
    → (step sv job files).thrown ≡ false
    → Executes (run deadline rounds (step sv job files).job (step sv job files).files)
    → Executes (run deadline (sv ∷ rounds) job files)
unfolding run
run-round deadline sv rounds job files alive early fine next =
    elim (Bool-cases (is_terminal job.state)) [
      | inl over ↦
          run-arrived deadline (sv ∷ rounds) job files (terminal-executed job.state alive over)
      | inr goes ↦ let now : ltb deadline sv.now ≡ false = ground arith in rw (goes, now, fine) next
    ]

-- A job that has not failed ends executed: a call of `run` returns it in that state when, of the rounds that start before the deadline, as many as the job has steps left (at most five) find everything ready, wherever they stand among rounds in which calls only ask to be tried again, the voting round is not final yet, or a delay is not over. Everything ready means that the attestation is prepared, submitted, final and proven, that the mint goes through without a new delay, and that the job's own delay is over; files can be written in every round.
pub run-Executes :
    (deadline : ℕ) (at : Option ℕ) (n : ℕ) (rounds : List Services) (job : Job) (files : Dict Job)
    → rank job.state ≤ n
    → n ≤ 5
    → job.execution_allowed_at ≡ at
    → Enough deadline at n rounds
    → Executes (run deadline rounds job files)
run-Executes deadline at n rounds job files h small same arrived =
    run-arrived deadline rounds job files (rank-zero job.state h)
run-Executes deadline at n (sv ∷ rounds) job files h small same (waits early b rest) =
    let s = step sv job files in
    let ((near, kept), fine) = step-Benign sv job files b in
    run-round deadline sv rounds job files (omega arith) early fine
      (run-Executes deadline at n rounds s.job s.files (omega arith) small (kept ∙ same) rest)
run-Executes deadline at (suc n) (sv ∷ rounds) job files h small same (helps early c rest) =
    let s = step sv job files in
    let ((near, kept), fine) =
      step-Cooperates sv job files n (subst (λ a. Cooperates a sv) (sym same) c) h (omega arith) in
    run-round deadline sv rounds job files (omega arith) early fine
      (run-Executes deadline at n rounds s.job s.files near (omega arith) (kept ∙ same) rest)
