-- ===== src/Pipeline/Frame.antt =====
-- packages/executor/src/pipeline.ts: a run touches the file of its own job only.
use flare_hack.Prelude.{
  ℕ, ◌≡◌, refl, sym, ap, ◌∙◌, inl, inr, false, List, [], ◌∷◌, ltb, Bool-cases, Text, ◌===◌,
}
use mathlib.Core.Path.{subst}
use flare_hack.Dict.{Dict, get, get-set, get-remove}
use flare_hack.Pipeline.{Job, Services, Stepped, step}
use flare_hack.Pipeline.Run.{RunResult, done, crashed, running, run, is_terminal}
use flare_hack.Pipeline.Persistence.{
  Left, untouched, stored, not_written, emptied, step-Left, step-order,
}

abbrev pub files_of : RunResult → Dict Job
files_of (done job files) = files
files_of (crashed job files) = files
files_of (running job files) = files

Left-others :
    (sv : Services) (job : Job) (files : Dict Job) (s : Stepped) (other : Text)
    → Left sv job files s
    → (job.id === other) ≡ false
    → get other s.files ≡ get other files
Left-others sv job files _ other untouched apart = refl
Left-others sv job files _ other (stored {j} can stamp same) apart =
    get-set j.id other j files ∙ rw (same, apart) refl
Left-others sv job files _ other (not_written cannot) apart = refl
Left-others sv job files _ other (emptied broken) apart =
    get-remove job.id other files ∙ rw apart refl

-- Whatever a run does and however it ends, the files of all other jobs hold what they held before.
pub run-others :
    (deadline : ℕ) (rounds : List Services) (job : Job) (files : Dict Job) (other : Text)
    → (job.id === other) ≡ false
    → get other (files_of (run deadline rounds job files)) ≡ get other files
unfolding run
run-others deadline [] job files other apart = elim (Bool-cases (is_terminal job.state)) [
  | inl over ↦ rw over refl
  | inr active ↦ rw active refl
]
run-others deadline (sv ∷ rest) job files other apart =
    let s = step sv job files in
    let here = Left-others sv job files s other (step-Left sv job files) apart in
    let next =
      run-others deadline rest s.job s.files other (
        subst (λ i. (i === other) ≡ false) (sym (ap (λ o. o.id) (step-order sv job files)))
          apart) in
    elim (Bool-cases (is_terminal job.state)) [
      | inl over ↦ rw over refl
      | inr active ↦ elim (Bool-cases (ltb deadline sv.now)) [
        | inl late ↦ rw (active, late) refl
        | inr early ↦ elim (Bool-cases s.thrown) [
          | inl bad ↦ rw (active, early, bad) here
          | inr fine ↦ rw (active, early, fine) (next ∙ here)
        ]
      ]
    ]
