-- ===== src/Pipeline/Resume.antt =====
-- packages/executor/src/pipeline.ts: `run` and `create` over several rounds and restarts.
use flare_hack.Prelude.{
  ℕ, ◌≡◌, refl, sym, ap, ◌∙◌, ◌⊎◌, inl, inr, Bool, true, false, none, some, List, [], ◌∷◌, ◌++◌,
  arith, ltb, Bool-cases, ===_refl, ===_iff,
}
use mathlib.Core.Path.{subst}
use flare_hack.Dict.{Dict, get, get-set, get-remove}
use flare_hack.Disk.{cut}
use flare_hack.Pipeline.{Job, Services, Stepped, step}
use flare_hack.Pipeline.Run.{RunResult, done, crashed, running, run, is_terminal}
use flare_hack.Pipeline.Persistence.{
  Order, order_of, Left, untouched, stored, not_written, emptied, step-Left, step-order,
}

-- One of the rounds has a write that empties the file and throws.
abbrev pub IsCut : List Services → Type 0
IsCut [] = ⊥
IsCut (sv ∷ rounds) = (sv.writing ≡ cut) ⊎ IsCut rounds

-- The job's file holds what the caller of `run` gets back. After a write that threw, it holds a job
-- for the same order, or the write has emptied it.
abbrev pub OnDisk : List Services → Order → RunResult → Type 0
OnDisk rounds o (done j files) = (order_of j ≡ o) × (get o.id files ≡ some j)
OnDisk rounds o (running j files) = (order_of j ≡ o) × (get o.id files ≡ some j)
OnDisk rounds o (crashed j files) =
    ((k : Job) × (order_of k ≡ o) × (get o.id files ≡ some k))
    ⊎ IsCut rounds × (get o.id files ≡ none)

OnDisk-round :
    (sv : Services) (rounds : List Services) (o : Order) (r : RunResult)
    → OnDisk rounds o r
    → OnDisk (sv ∷ rounds) o r
OnDisk-round sv rounds o (done j files) h = h
OnDisk-round sv rounds o (running j files) h = h
OnDisk-round sv rounds o (crashed j files) (inl h) = inl h
OnDisk-round sv rounds o (crashed j files) (inr (broken, gone)) = inr (inr broken, gone)

Left-get :
    (sv : Services) (job : Job) (files : Dict Job) (s : Stepped)
    → Left sv job files s
    → s.thrown ≡ false
    → get job.id files ≡ some job
    → get job.id s.files ≡ some s.job
Left-get sv job files _ untouched fine here = here
Left-get sv job files _ (stored {j} can stamp same) fine here =
    ground (arith, get-set j.id job.id j files, ===_iff j.id job.id)
Left-get sv job files _ (not_written cannot) fine here = cc
Left-get sv job files _ (emptied broken) fine here = cc

Left-crashed :
    (sv : Services) (rounds : List Services) (job : Job) (files : Dict Job) (s : Stepped)
    → Left sv job files s
    → s.thrown ≡ true
    → get job.id files ≡ some job
    → OnDisk (sv ∷ rounds) (order_of job) (crashed s.job s.files)
Left-crashed sv rounds job files _ untouched bad here = cc
Left-crashed sv rounds job files _ (stored can stamp same) bad here = cc
Left-crashed sv rounds job files _ (not_written cannot) bad here = inl (job, refl, here)
Left-crashed sv rounds job files _ (emptied broken) bad here =
    inr (inl broken, get-remove job.id job.id files ∙ rw (===_refl job.id) refl)

-- When a run starts with its job on disk, the run never changes what the job is about, and it leaves on disk the very job that it returns. If a write throws, a job with the same payment and the same user operation is still on disk, unless in one of the rounds a write threw after it had emptied the file: then the file holds no job.
pub run-OnDisk :
    (deadline : ℕ) (rounds : List Services) (job : Job) (files : Dict Job)
    → get job.id files ≡ some job
    → OnDisk rounds (order_of job) (run deadline rounds job files)
unfolding run
run-OnDisk deadline [] job files here = elim (Bool-cases (is_terminal job.state)) [
  | inl over ↦ rw over (refl, here)
  | inr active ↦ rw active (refl, here)
]
run-OnDisk deadline (sv ∷ rest) job files here = elim (Bool-cases (is_terminal job.state)) [
  | inl over ↦ rw over (refl, here)
  | inr active ↦ elim (Bool-cases (ltb deadline sv.now)) [
    | inl late ↦ rw (active, late) (refl, here)
    | inr early ↦
        let s = step sv job files in
        let left = step-Left sv job files in
        let same = step-order sv job files in
        elim (Bool-cases s.thrown) [
          | inl bad ↦ rw (active, early, bad) (Left-crashed sv rest job files s left bad here)
          | inr fine ↦
              rw (active, early, fine)
                (OnDisk-round sv rest (order_of job) (run deadline rest s.job s.files) (
                  subst (λ o. OnDisk rest o (run deadline rest s.job s.files)) same
                    (run-OnDisk deadline rest s.job s.files (
                      subst (λ k. get k s.files ≡ some s.job) (sym (ap (λ o. o.id) same))
                        (Left-get sv job files s left fine here)))))
        ]
  ]
]

abbrev pub is_running : RunResult → Bool
is_running (running j files) = true
is_running _ = false

-- A run comes to an end in the first round that starts after its deadline, if not before: from
-- then on nothing that follows changes its result, which is not that it is still running.
pub run-ends :
    (deadline : ℕ) (before after : List Services) (sv : Services) (job : Job) (files : Dict Job)
    → ltb deadline sv.now ≡ true
    → (is_running (run deadline (before ++ sv ∷ after) job files) ≡ false)
      × (run deadline (before ++ sv ∷ after) job files ≡ run deadline (before ++ sv ∷ []) job files)
unfolding run
run-ends deadline [] after sv job files late = ground arith
run-ends deadline (r ∷ before) after sv job files late =
    ground (
      arith,
      run-ends deadline before after sv (step r job files).job (step r job files).files late,
    )
