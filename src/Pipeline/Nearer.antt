-- ===== src/Pipeline/Nearer.antt =====
-- packages/executor/src/pipeline.ts: a step brings a job nearer to its end, or leaves it there.
use flare_hack.Prelude.{ℕ, suc, ◌≤◌, ◌≡◌, refl, inl, inr, true, Option, arith}
use flare_hack.Dict.{Dict}
use flare_hack.Pipeline.{
  JobState, observed, request_prepared, request_submitted, round_finalized, proof_fetched, delayed,
  executed, failed, Job, Services, advance, Stepped, step,
}
use flare_hack.Pipeline.Rounds.{
  rank, still_delayed-IsDue, IsAny, IsRetryable, Never, Benign, Cooperates, Going, Went,
  finish_step-Went, observed-Going, prepared-Going, submitted-Going, finalized-Going, proof-Going,
  delayed-Going,
}

advance-Benign :
    (sv : Services) (state : JobState) (job : Job)
    → Benign sv
    → job.state ≡ state
    → Going (rank state) job.execution_allowed_at (advance state sv job)
unfolding advance
advance-Benign sv observed job b e =
    observed-Going IsRetryable IsAny sv b job 5 (omega arith)
      (λ f retry. ((rw e (omega arith), refl), retry))
advance-Benign sv request_prepared job b e =
    prepared-Going IsRetryable IsAny sv b job 4 (omega arith)
      (λ f retry. ((rw e (omega arith), refl), retry))
advance-Benign sv request_submitted job b e =
    submitted-Going IsRetryable IsAny sv b job 3 (omega arith)
      (λ f retry. ((rw e (omega arith), refl), retry)) (λ final _. inr (rw e (omega arith), refl))
advance-Benign sv round_finalized job b e =
    finalized-Going IsRetryable IsAny sv b job 2 (omega arith)
      (λ f retry. ((rw e (omega arith), refl), retry))
advance-Benign sv delayed job b e =
    delayed-Going IsRetryable IsAny sv b job 2 (omega arith) (inr (rw e (omega arith), refl))
advance-Benign sv proof_fetched job b e =
    proof-Going IsRetryable IsAny sv b job 1 (λ f retry. ((rw e (omega arith), refl), retry))
advance-Benign sv executed job b e = (rw e (omega arith), refl)
advance-Benign sv failed job b e = (rw e (omega arith), refl)

-- In a round in which everything is ready, the job comes one step nearer to its end.
advance-Cooperates :
    (sv : Services) (state : JobState) (job : Job) (n : ℕ)
    → Cooperates job.execution_allowed_at sv
    → job.state ≡ state
    → rank state ≤ suc n
    → n ≤ 4
    → Going n job.execution_allowed_at (advance state sv job)
unfolding advance
advance-Cooperates sv observed job n (b, due) e h small =
    observed-Going Never (λ f. f ≡ true) sv b job n (omega arith) (λ f never. absurd never)
advance-Cooperates sv request_prepared job n (b, due) e h small =
    prepared-Going Never (λ f. f ≡ true) sv b job n (omega arith) (λ f never. absurd never)
advance-Cooperates sv request_submitted job n (b, due) e h small =
    submitted-Going Never (λ f. f ≡ true) sv b job n (omega arith) (λ f never. absurd never)
      (λ final ready. inl ready)
advance-Cooperates sv round_finalized job n (b, due) e h small =
    finalized-Going Never (λ f. f ≡ true) sv b job n (omega arith) (λ f never. absurd never)
advance-Cooperates sv delayed job n (b, due) e h small =
    delayed-Going Never (λ f. f ≡ true) sv b job n (omega arith)
      (inl (still_delayed-IsDue job.execution_allowed_at sv.now due))
advance-Cooperates sv proof_fetched job n (b, due) e h small =
    proof-Going Never (λ f. f ≡ true) sv b job n (λ f never. absurd never)
advance-Cooperates sv executed job n (b, due) e h small = (rw e (omega arith), refl)
advance-Cooperates sv failed job n (b, due) e h small = absurd (omega arith)

weaken : (n m : ℕ) (at : Option ℕ) (s : Stepped) → n ≤ m → Went n at s → Went m at s
weaken n m at s h ((small, same), fine) = ((omega arith, same), fine)

pub step-Benign :
    (sv : Services) (job : Job) (files : Dict Job)
    → Benign sv
    → Went (rank job.state) job.execution_allowed_at (step sv job files)
unfolding step
step-Benign sv job files b =
    finish_step-Went sv files (rank job.state) job.execution_allowed_at (advance job.state sv job)
      b.disk (advance-Benign sv job.state job b refl)

pub step-Cooperates :
    (sv : Services) (job : Job) (files : Dict Job) (n : ℕ)
    → Cooperates job.execution_allowed_at sv
    → rank job.state ≤ suc n
    → n ≤ 4
    → Went n job.execution_allowed_at (step sv job files)
unfolding step
step-Cooperates sv job files n (b, due) h small =
    finish_step-Went sv files n job.execution_allowed_at (advance job.state sv job) b.disk
      (advance-Cooperates sv job.state job n (b, due) refl h small)
