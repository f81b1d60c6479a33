-- ===== src/Pipeline/Transitions.antt =====
-- packages/executor/src/pipeline.ts: the state machine that `step` moves through.
use mathlib.Core.Path.{subst}
use flare_hack.Prelude.{
  ◌+◌, ◌≡◌, refl, sym, ◌∙◌, ◌≢◌, inl, inr, true, false, not, ◌&&◌, none, some, arith, leb,
  Bool-cases, Option-cases, Except, ok, err, Except-cases, Text,
}
use flare_hack.Dict.{Dict}
use flare_hack.Pipeline.{
  lost_race, is_proof_fetched, count_failure, finish_step, JobState, observed, request_prepared,
  request_submitted, round_finalized, proof_fetched, delayed, executed, failed, Failure, Job,
  Receipt, Services, Progress, moved, returned, threw, advance, still_delayed, lost_race,
  count_failure, recover, save, finish_step, step, find_delayed_event, settle_receipt,
}

-- The edges that a step without an exception follows.
infix 40 ◌⟶◌
pub data ◌⟶◌ : JobState → JobState → Type 0 where
  prepare : observed ⟶ request_prepared
  submit : request_prepared ⟶ request_submitted
  finalize : request_submitted ⟶ round_finalized
  fetch : round_finalized ⟶ proof_fetched
  execute : proof_fetched ⟶ executed
  delay : proof_fetched ⟶ delayed
  retry : delayed ⟶ proof_fetched

-- How a step may change the state: not at all, along an edge, or into `failed` from any state that
-- is not terminal.
pub data Moves : JobState → JobState → Type 0 where
  stay : {s : JobState} → Moves s s
  along : {s t : JobState} → s ⟶ t → Moves s t
  give_up : {s : JobState} → s ≢ executed → s ≢ failed → Moves s failed

-- The state that each outcome of the `switch` leaves.
abbrev ProgressMoves : JobState → Progress → Type 0
ProgressMoves s (moved job) = s ⟶ job.state
ProgressMoves s (returned job) = job.state ≡ s
ProgressMoves s (threw job e) = (job.state ≡ s) × (s ≢ executed) × (s ≢ failed)

settle_receipt-moves :
    (sv : Services) (job : Job) (hash : Text) (r : Except Failure Receipt)
    → job.state ≡ proof_fetched
    → ProgressMoves proof_fetched (settle_receipt sv job hash r)
settle_receipt-moves sv job hash (err e) at = (at, λ x. cc, λ x. cc)
settle_receipt-moves sv job hash (ok r) at = elim (Bool-cases r.reverted) [
  | inl bad ↦ rw bad (at, λ x. cc, λ x. cc)
  | inr good ↦ rw good (elim (Option-cases (find_delayed_event sv.decode_event_log r.logs)) [
    | inl no_event ↦ rw no_event execute
    | inr (t, event) ↦ rw event delay
  ])
]

advance-moves :
    (s : JobState) (sv : Services) (job : Job) → job.state ≡ s → ProgressMoves s (advance s sv job)
unfolding advance
advance-moves observed sv job at = elim (Except-cases (sv.prepare_request job.xrpl_tx_id)) [
  | inl (r, e) ↦ rw (e, ProgressMoves) prepare
  | inr (x, e) ↦ rw (e, ProgressMoves) (at, λ x. cc, λ x. cc)
]
advance-moves request_prepared sv job at =
    elim (Except-cases (sv.submit_request job.abi_encoded_request)) [
      | inl (r, e) ↦ rw (e, ProgressMoves) submit
      | inr (x, e) ↦ rw (e, ProgressMoves) (at, λ x. cc, λ x. cc)
    ]
advance-moves request_submitted sv job at =
    elim (Except-cases (sv.is_round_finalized job.round_id)) [
      | inl (true, e) ↦ rw (e, ProgressMoves) finalize
      | inl (false, e) ↦ rw (e, ProgressMoves) at
      | inr (x, e) ↦ rw (e, ProgressMoves) (at, λ x. cc, λ x. cc)
    ]
advance-moves round_finalized sv job at =
    elim (Except-cases (sv.fetch_proof job.abi_encoded_request job.round_id)) [
      | inl (r, e) ↦ rw (e, ProgressMoves) fetch
      | inr (x, e) ↦ rw (e, ProgressMoves) (at, λ x. cc, λ x. cc)
    ]
advance-moves delayed sv job at =
    elim (Bool-cases (still_delayed sv.now job.execution_allowed_at)) [
      | inl early ↦ rw (early, ProgressMoves) at
      | inr due ↦ rw (due, ProgressMoves) retry
    ]
advance-moves proof_fetched sv job at =
    elim (Except-cases (sv.fetch_proof job.abi_encoded_request job.round_id)) [
      | inr (x, e) ↦ rw (e, ProgressMoves) (at, λ x. cc, λ x. cc)
      | inl (proof, e) ↦
          rw (e, ProgressMoves)
            (elim (Except-cases (sv.write_contract proof job.user_op_data job.total_call_value)) [
              | inr (x, w) ↦ rw (w, ProgressMoves) (at, λ x. cc, λ x. cc)
              | inl (hash, w) ↦
                  rw (w, ProgressMoves)
                    (settle_receipt-moves sv (record job { flare_tx_hash = some hash }) hash
                      (sv.wait_for_receipt hash) at)
            ])
    ]
advance-moves executed sv job at = at
advance-moves failed sv job at = at

is_proof_fetched-eq : (s : JobState) → is_proof_fetched s ≡ true → s ≡ proof_fetched
is_proof_fetched-eq proof_fetched h = refl
is_proof_fetched-eq observed h = cc
is_proof_fetched-eq request_prepared h = cc
is_proof_fetched-eq request_submitted h = cc
is_proof_fetched-eq round_finalized h = cc
is_proof_fetched-eq delayed h = cc
is_proof_fetched-eq executed h = cc
is_proof_fetched-eq failed h = cc

lost_race-state :
    (sv : Services) (job : Job) (e : Failure)
    → lost_race sv job e ≡ true
    → job.state ≡ proof_fetched
lost_race-state sv job e h = is_proof_fetched-eq job.state (ground arith)

count_failure-Moves :
    (s : JobState) (job : Job) (e : Failure)
    → job.state ≡ s
    → s ≢ executed
    → s ≢ failed
    → Moves s (count_failure job e).state
count_failure-Moves s job e at live going =
    elim (Bool-cases (not e.retryable && leb 5 (job.attempts + 1))) [
      | inl stop ↦ rw stop (give_up live going)
      | inr again ↦ rw again (subst (Moves s) (sym at) stay)
    ]

recover-Moves :
    (s : JobState) (sv : Services) (job : Job) (e : Failure)
    → job.state ≡ s
    → s ≢ executed
    → s ≢ failed
    → Moves s (recover sv job e).state
unfolding recover
recover-Moves s sv job e at live going = elim (Bool-cases (lost_race sv job e)) [
  | inl lost ↦
      rw lost
        (subst (λ t. Moves t executed) (sym (lost_race-state sv job e lost) ∙ at) (along execute))
  | inr other ↦ rw other (count_failure-Moves s job e at live going)
]

pub save-job :
    (sv : Services) (job : Job) (files : Dict Job)
    → (save sv job files).job ≡ record job { updated_at = sv.now }
unfolding save
save-job sv job files = ground arith

finish_step-Moves :
    (s : JobState) (sv : Services) (files : Dict Job) (p : Progress)
    → ProgressMoves s p
    → Moves s (finish_step sv files p).job.state
finish_step-Moves s sv files (moved job) h =
    rw (save-job sv (record job { attempts = 0; last_error = none }) files) (along h)
finish_step-Moves s sv files (returned job) h = subst (Moves s) (sym h) stay
finish_step-Moves s sv files (threw job e) (at, live, going) =
    rw (save-job sv (recover sv job e) files) (recover-Moves s sv job e at live going)

-- Whatever the outside answers, a step leaves the state as it was, follows an edge of the diagram,
-- or gives up a job that was not terminal.
pub step-Moves :
    (sv : Services) (job : Job) (files : Dict Job) → Moves job.state (step sv job files).job.state
unfolding step
step-Moves sv job files =
    finish_step-Moves job.state sv files (advance job.state sv job)
      (advance-moves job.state sv job refl)
