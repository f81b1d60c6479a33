-- ===== src/Pipeline/Rounds.antt =====
-- packages/executor/src/pipeline.ts: how near a job is to its end after one round.
use flare_hack.Prelude.{
  ℕ, ℤ, ◌≤◌, ◌≡◌, refl, ◌⊎◌, inl, inr, Bool, true, false, Option, none, some, arith, Bool-cases,
  Except, ok, err, Text,
}
use flare_hack.Disk.{written}
use flare_hack.Dict.{Dict}
use flare_hack.Pipeline.{
  JobState, observed, request_prepared, request_submitted, round_finalized, proof_fetched, delayed,
  executed, failed, Failure, Job, Receipt, Services, find_delayed_event, Progress, moved, returned,
  threw, settle_receipt, settle_write, settle_proof, still_delayed, advance, lost_race, recover,
  Stepped, save, finish_step,
}

-- The number of steps that are left; a failed job is behind all of them.
abbrev pub rank : JobState → ℕ
rank observed = 5
rank request_prepared = 4
rank request_submitted = 3
rank round_finalized = 2
rank delayed = 2
rank proof_fetched = 1
rank executed = 0
rank failed = 6

-- What a call brings: a value with `P`, or a failure with `T`.
abbrev pub Brings : {A : Type 0} → (Failure → Type 0) → (A → Type 0) → Except Failure A → Type 0
Brings T P (ok a) = P a
Brings T P (err e) = T e

abbrev pub IsAny : {A : Type 0} → A → Type 0
IsAny a = Unit

-- The receipt of a mint that went through, without a delay.
abbrev pub IsMinted : Services → Receipt → Type 0
IsMinted sv r = (r.reverted ≡ false) × (find_delayed_event sv.decode_event_log r.logs ≡ none)

-- Every call of the round fails with `T` at worst, a mint goes through, and files can be written.
pub record Round (T : Failure → Type 0) (F : Bool → Type 0) (sv : Services) : Type 0 where
  pub prepares : (x : Text) → Brings T IsAny (sv.prepare_request x)
  pub submits : (x : Option Text) → Brings T IsAny (sv.submit_request x)
  pub finalizes : (x : Option ℕ) → Brings T F (sv.is_round_finalized x)
  pub fetches : (x : Option Text) (r : Option ℕ) → Brings T IsAny (sv.fetch_proof x r)
  pub writes : (p d : Text) (v : ℤ) → Brings T IsAny (sv.write_contract p d v)
  pub mints : (h : Text) → Brings T (IsMinted sv) (sv.wait_for_receipt h)
  pub disk : sv.writing ≡ written

abbrev pub IsRetryable : Failure → Type 0
IsRetryable e = e.retryable ≡ true

abbrev pub Never : Failure → Type 0
Never e = ⊥

-- Any call may ask to be tried again, and the round may not be final yet.
abbrev pub Benign : Services → Type 0
Benign sv = Round IsRetryable IsAny sv

-- The time that a delayed job may go on, if it has one, has come.
abbrev pub IsDue : Option ℕ → ℕ → Type 0
IsDue none now = Unit
IsDue (some at) now = at ≤ now

pub still_delayed-IsDue : (at : Option ℕ) (now : ℕ) → IsDue at now → still_delayed now at ≡ false
still_delayed-IsDue none now due = refl
still_delayed-IsDue (some at) now due = ground arith

-- Everything is ready, also for a job that is delayed until `at`.
abbrev pub Cooperates : Option ℕ → Services → Type 0
Cooperates at sv = Round Never (λ b. b ≡ true) sv × IsDue at sv.now

-- The job is at most `n` steps from its end, and is still delayed until `at`.
abbrev pub Within : ℕ → Option ℕ → Job → Type 0
Within n at job = (rank job.state ≤ n) × (job.execution_allowed_at ≡ at)

abbrev pub Going : ℕ → Option ℕ → Progress → Type 0
Going n at (moved j) = Within n at j
Going n at (returned j) = Within n at j
Going n at (threw j e) = Within n at j × (e.retryable ≡ true)

abbrev pub Went : ℕ → Option ℕ → Stepped → Type 0
Went n at s = Within n at s.job × (s.thrown ≡ false)

recover-Within :
    (sv : Services) (n : ℕ) (at : Option ℕ) (j : Job) (e : Failure)
    → Within n at j
    → e.retryable ≡ true
    → Within n at (recover sv j e)
unfolding recover
recover-Within sv n at j e (small, same) retry = elim (Bool-cases (lost_race sv j e)) [
  | inl lost ↦ rw lost (omega arith, same)
  | inr other ↦ rw (other, retry) (small, same)
]

pub finish_step-Went :
    (sv : Services) (files : Dict Job) (n : ℕ) (at : Option ℕ) (p : Progress)
    → sv.writing ≡ written
    → Going n at p
    → Went n at (finish_step sv files p)
unfolding save
finish_step-Went sv files n at (moved j) can h = rw can (h, refl)
finish_step-Went sv files n at (returned j) can h = (h, refl)
finish_step-Went sv files n at (threw j e) can (h, retry) =
    simp can (recover-Within sv n at j e h retry, refl)

-- The body of a step of a job that is `n` steps from its end when a call fails with `T`.
module _ (T : Failure → Type 0) (n : ℕ) (at : Option ℕ) where
  abbrev pub Stays : Job → Type 0
  Stays job = (e : Failure) → T e → Within n at job × (e.retryable ≡ true)

  Brings-then :
      {A : Type 0} (job : Job) (P : A → Type 0) (k : A → Progress) (r : Except Failure A)
      → Brings T P r
      → Stays job
      → ((a : A) → P a → Going n at (k a))
      → Going n at (elim r [ err e ↦ threw job e | ok a ↦ k a ])
  Brings-then job P k (err e) h stays next = stays e h
  Brings-then job P k (ok a) h stays next = next a h

  settle_receipt-Going :
      (sv : Services) (job : Job) (hash : Text) (r : Except Failure Receipt)
      → job.execution_allowed_at ≡ at
      → Stays job
      → Brings T (IsMinted sv) r
      → Going n at (settle_receipt sv job hash r)
  settle_receipt-Going sv job hash (err e) same stays h = stays e h
  settle_receipt-Going sv job hash (ok r) same stays (fine, none_found) =
      rw (fine, none_found) (omega arith, same)

  settle_write-Going :
      (sv : Services) (job : Job) (w : Except Failure Text)
      → ((h : Text) → Brings T (IsMinted sv) (sv.wait_for_receipt h))
      → job.execution_allowed_at ≡ at
      → Stays job
      → Brings T IsAny w
      → Going n at (settle_write sv job w)
  settle_write-Going sv job (err e) mints same stays h = stays e h
  settle_write-Going sv job (ok hash) mints same stays h =
      settle_receipt-Going sv (record job { flare_tx_hash = some hash }) hash
        (sv.wait_for_receipt hash) same stays (mints hash)

  settle_proof-Going :
      {F : Bool → Type 0} (sv : Services) (job : Job) (p : Except Failure Text)
      → Round T F sv
      → job.execution_allowed_at ≡ at
      → Stays job
      → Brings T IsAny p
      → Going n at (settle_proof sv job p)
  settle_proof-Going sv job (err e) b same stays h = stays e h
  settle_proof-Going sv job (ok p) b same stays h =
      settle_write-Going sv job (sv.write_contract p job.user_op_data job.total_call_value) b.mints
        same stays (b.writes p job.user_op_data job.total_call_value)

-- The calls of each state, and where they leave the job.
module _ (T : Failure → Type 0) (F : Bool → Type 0) (sv : Services) (b : Round T F sv)
    (job : Job) where
  abbrev allowed : Option ℕ
  allowed = job.execution_allowed_at

  pub observed-Going :
      (n : ℕ) → 4 ≤ n → Stays T n allowed job → Going n allowed (advance observed sv job)
  unfolding advance
  observed-Going n h stays =
      Brings-then T n allowed job IsAny _ (sv.prepare_request job.xrpl_tx_id)
        (b.prepares job.xrpl_tx_id) stays (λ request _. (omega arith, refl))

  pub prepared-Going :
      (n : ℕ) → 3 ≤ n → Stays T n allowed job → Going n allowed (advance request_prepared sv job)
  unfolding advance
  prepared-Going n h stays =
      Brings-then T n allowed job IsAny _ (sv.submit_request job.abi_encoded_request)
        (b.submits job.abi_encoded_request) stays (λ round _. (omega arith, refl))

  pub submitted-Going :
      (n : ℕ)
      → 2 ≤ n
      → Stays T n allowed job
      → ((final : Bool) → F final → (final ≡ true) ⊎ Within n allowed job)
      → Going n allowed (advance request_submitted sv job)
  unfolding advance
  submitted-Going n h stays waits =
      Brings-then T n allowed job F _ (sv.is_round_finalized job.round_id)
        (b.finalizes job.round_id) stays
        (λ final ready. elim (Bool-cases final) [
          | inl yes_final ↦ rw yes_final (omega arith, refl)
          | inr open_round ↦ elim (waits final ready) [
            | inl yes_final ↦ rw yes_final (omega arith, refl)
            | inr here ↦ rw open_round here
          ]
        ])

  pub finalized-Going :
      (n : ℕ) → 1 ≤ n → Stays T n allowed job → Going n allowed (advance round_finalized sv job)
  unfolding advance
  finalized-Going n h stays =
      Brings-then T n allowed job IsAny _ (sv.fetch_proof job.abi_encoded_request job.round_id)
        (b.fetches job.abi_encoded_request job.round_id) stays (λ proof _. (omega arith, refl))

  pub proof-Going : (n : ℕ) → Stays T n allowed job → Going n allowed (advance proof_fetched sv job)
  unfolding advance
  proof-Going n stays =
      settle_proof-Going T n allowed sv job (sv.fetch_proof job.abi_encoded_request job.round_id) b
        refl stays (b.fetches job.abi_encoded_request job.round_id)

  pub delayed-Going :
      (n : ℕ)
      → 1 ≤ n
      → (still_delayed sv.now allowed ≡ false) ⊎ Within n allowed job
      → Going n allowed (advance delayed sv job)
  unfolding advance
  delayed-Going n h due = elim (Bool-cases (still_delayed sv.now allowed)) [
    | inl early ↦ elim due [ inl past ↦ rw past (omega arith, refl) | inr here ↦ rw early here ]
    | inr past ↦ rw past (omega arith, refl)
  ]
