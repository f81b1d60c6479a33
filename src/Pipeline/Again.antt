-- ===== src/Pipeline/Again.antt =====
-- packages/executor/src/pipeline.ts: `create`, `run`, and `create` again.
use flare_hack.Prelude.{
  ℕ, ◌≡◌, ◌⊎◌, sym, ◌∙◌, inl, inr, false, some, Option, List, arith, All, Option-cases, drop, Text,
  ===_refl,
}
use mathlib.Core.Path.{subst}
use flare_hack.Dict.{Dict, get, get-set, All-get}
use flare_hack.Pipeline.{Job, Services, Stepped, save, normalize_xrpl_tx_id}
use flare_hack.Pipeline.Run.{RunResult, done, crashed, running, run, CreateParams, create, new_job}
use flare_hack.Pipeline.Persistence.{Order, order_of}
use flare_hack.Pipeline.Frame.{files_of}
use flare_hack.Pipeline.Resume.{IsCut, OnDisk, run-OnDisk}

-- A file holds the job that it is named for.
abbrev pub IsNamed : Text × Job → Type 0
IsNamed file = file.1.id ≡ file.0

-- The job as it was made or found on disk, under the name of its hash.
record Made (p : CreateParams) (s : Stepped) : Type 0 where
  pub tx : Text
  pub normal : normalize_xrpl_tx_id p.xrpl_tx_id ≡ some tx
  pub named : s.job.id ≡ drop 2 tx
  pub here : get (drop 2 tx) s.files ≡ some s.job

create-Made :
    (sv : Services) (p : CreateParams) (files : Dict Job) (s : Stepped)
    → All IsNamed files
    → create sv p files ≡ some s
    → s.thrown ≡ false
    → Made p s
unfolding create save
create-Made sv p files s names e fine = elim (Option-cases (normalize_xrpl_tx_id p.xrpl_tx_id)) [
  | inl bad ↦ cc
  | inr (tx, good) ↦ elim (Option-cases (get (drop 2 tx) files)) [
    | inl fresh ↦ record {
      tx = tx;
      normal = good;
      named = ground arith;
      here = ground (
        arith,
        get-set (drop 2 tx) (drop 2 tx) (record (new_job tx p) { updated_at = sv.now }) files,
        ===_refl (drop 2 tx),
      );
    }
    | inr (old, found) ↦ record {
      tx = tx;
      normal = good;
      named = ground (arith, All-get IsNamed (drop 2 tx) files names found);
      here = ground arith;
    }
  ]
]

abbrev loaded : Job → Dict Job → Option Stepped
loaded job files = some (record { job = job; files = files; thrown = false })

create-found :
    (sv : Services) (p : CreateParams) (files : Dict Job) {tx : Text} {job : Job}
    → normalize_xrpl_tx_id p.xrpl_tx_id ≡ some tx
    → get (drop 2 tx) files ≡ some job
    → create sv p files ≡ loaded job files
unfolding create
create-found sv p files {tx} {job} normal here = ground (arith, normal, here)

-- What a `create` after the run returns: the job as the run has left it. After a write that threw, it
-- is a job for the same order, unless the write has emptied its file.
abbrev pub Resumes : List Services → Order → Option Stepped → RunResult → Type 0
Resumes rounds o again (done j files) = again ≡ loaded j files
Resumes rounds o again (running j files) = again ≡ loaded j files
Resumes rounds o again (crashed j files) =
    ((k : Job) × (order_of k ≡ o) × (again ≡ loaded k files)) ⊎ IsCut rounds

Resumes-OnDisk :
    (sv : Services) (p : CreateParams) (rounds : List Services) (o : Order) (tx : Text)
    (r : RunResult)
    → normalize_xrpl_tx_id p.xrpl_tx_id ≡ some tx
    → o.id ≡ drop 2 tx
    → OnDisk rounds o r
    → Resumes rounds o (create sv p (files_of r)) r
Resumes-OnDisk sv p rounds o tx (done j files) normal named (same, here) =
    create-found sv p files normal (subst (λ id. get id files ≡ some j) named here)
Resumes-OnDisk sv p rounds o tx (running j files) normal named (same, here) =
    create-found sv p files normal (subst (λ id. get id files ≡ some j) named here)
Resumes-OnDisk sv p rounds o tx (crashed j files) normal named (inl (k, same, here)) =
    inl (k, same, create-found sv p files normal (subst (λ id. get id files ≡ some k) named here))
Resumes-OnDisk sv p rounds o tx (crashed j files) normal named (inr (broken, gone)) = inr broken

-- After a `create` that did not throw, and any number of rounds of `run` on its job, a `create` for the same normalised hash, whatever else it is given, returns the job as the run has left it, and writes nothing; after a write that threw, it returns a job for the same payment and the same user operation, unless in one of the rounds a write threw after it had emptied the file. Each file is taken to have held the job it is named for.
pub create-run :
    (sv sv' : Services) (p p' : CreateParams) (files : Dict Job) (s : Stepped) (deadline : ℕ)
    (rounds : List Services)
    → All IsNamed files
    → create sv p files ≡ some s
    → s.thrown ≡ false
    → normalize_xrpl_tx_id p'.xrpl_tx_id ≡ normalize_xrpl_tx_id p.xrpl_tx_id
    → let r = run deadline rounds s.job s.files in
      Resumes rounds (order_of s.job) (create sv' p' (files_of r)) r
create-run sv sv' p p' files s deadline rounds names e fine same =
    let m = create-Made sv p files s names e fine in
    Resumes-OnDisk sv' p' rounds (order_of s.job) m.tx (run deadline rounds s.job s.files)
      (same ∙ m.normal) m.named
      (run-OnDisk deadline rounds s.job s.files
        (subst (λ id. get id s.files ≡ some s.job) (sym m.named) m.here))
