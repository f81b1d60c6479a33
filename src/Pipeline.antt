-- ===== src/Pipeline.antt =====
-- packages/executor/src/pipeline.ts: jobs, their persistence, and `step`.
pub mod Run
pub mod Transitions
pub mod Outcome
pub mod Persistence
pub mod Failures
pub mod Resume
pub mod Rounds
pub mod Nearer
pub mod Liveness
pub mod Frame
pub mod Again
use flare_hack.Prelude.{
  ℤ, ℕ, ◌+◌, ◌*◌, Bool, true, false, not, ◌&&◌, ◌||◌, Option, none, some, List, [], ◌∷◌, ◌++◌, ltb,
  leb, ◌==◌, if◌then◌else◌, length, drop, all, Except, ok, err, Text, codes, ◌===◌, starts_with,
  to_lower_case, to_upper_case,
}
use flare_hack.Hex.{is_hex_digit, with_prefix}
use flare_hack.Dict.{Dict, set, remove}
use flare_hack.Disk.{Write, written, refused, cut, throws}

pub data JobState : Type 0 where
  observed request_prepared request_submitted round_finalized proof_fetched : JobState
  delayed executed failed : JobState

-- An `Error` that a step throws; `retryable` says whether its class is VerifierNotReadyError or
-- DaLayerNotReadyError.
pub record Failure : Type 0 where
  pub retryable : Bool
  pub message : Text

-- `totalCallValue` and `nonce` are kept as the numbers that their decimal strings stand for.
pub record Job : Type 0 where
  pub id : Text
  pub state : JobState
  pub xrpl_tx_id : Text
  pub user_op_data : Text
  pub total_call_value : ℤ
  pub personal_account : Text
  pub nonce : ℤ
  pub abi_encoded_request : Option Text
  pub round_id : Option ℕ
  pub flare_tx_hash : Option Text
  pub execution_allowed_at : Option ℕ
  pub attempts : ℕ
  pub last_error : Option Text
  pub updated_at : ℕ

pub record Receipt : Type 0 where
  pub reverted : Bool
  pub logs : List Text

-- An event as `decodeEventLog` returns it.
pub record Event : Type 0 where
  pub event_name : Text
  pub execution_allowed_at : Option ℕ

-- What the outside answers during one step: the FDC client, the chain, the clock, and whether the
-- job's file can be written. A log that `decodeEventLog` refuses is `none`, and so is a read of
-- `isTransactionIdUsed` that throws.
pub record Services : Type 0 where
  pub now : ℕ
  pub prepare_request : Text → Except Failure Text
  pub submit_request : Option Text → Except Failure ℕ
  pub is_round_finalized : Option ℕ → Except Failure Bool
  pub fetch_proof : Option Text → Option ℕ → Except Failure Text
  pub write_contract : Text → Text → ℤ → Except Failure Text
  pub wait_for_receipt : Text → Except Failure Receipt
  pub decode_event_log : Text → Option Event
  pub is_transaction_id_used : Text → Option Bool
  pub writing : Write

-- `normalizeXrplTxId`; `none` where it throws
unfoldable pub normalize_xrpl_tx_id : Text → Option Text
normalize_xrpl_tx_id hash =
    let clean = if starts_with hash (codes "0x") then drop 2 hash else hash in
    if length clean == 64 && all is_hex_digit clean
    then some (with_prefix (to_upper_case clean))
    else none

abbrev pub is_delay : Text → Bool
is_delay name =
    (name === codes "DirectMintingDelayed") || (name === codes "LargeDirectMintingDelayed")

abbrev allowed_at : Option Event → Option ℕ
allowed_at none = none
allowed_at (some e) = if is_delay e.event_name then e.execution_allowed_at else none

abbrev first_of : Option ℕ → Option ℕ → Option ℕ
first_of none b = b
first_of (some a) b = some a

unfoldable pub find_delayed_event : (Text → Option Event) → List Text → Option ℕ
find_delayed_event decode [] = none
find_delayed_event decode (entry ∷ logs) =
    first_of (allowed_at (decode entry)) (find_delayed_event decode logs)

-- `s.includes(t)`
unfoldable pub includes : Text → Text → Bool
includes [] t = starts_with [] t
includes (c ∷ s) t = starts_with (c ∷ s) t || includes s t

abbrev pub payment_already_confirmed_selector : Text
payment_already_confirmed_selector = codes "0x18dce79f"

unfoldable pub is_already_confirmed : Failure → Bool
is_already_confirmed e = includes (to_lower_case e.message) payment_already_confirmed_selector

-- How the `switch` of `step` ends: by `break`, by `return job`, or by an exception; each with the
-- job as it was left.
pub data Progress : Type 0 where
  moved : Job → Progress
  returned : Job → Progress
  threw : Job → Failure → Progress

abbrev revert_failure : Text → Failure
revert_failure hash = record {
  retryable = false;
  message = codes "executeDirectMintingWithData reverted (tx " ++ hash ++ codes ")";
}

abbrev pub settle : Job → Option ℕ → Job
settle job none = record job { state = executed }
settle job (some at) = record job { execution_allowed_at = some (at * 1000); state = delayed }

abbrev pub settle_receipt : Services → Job → Text → Except Failure Receipt → Progress
settle_receipt sv job hash (err e) = threw job e
settle_receipt sv job hash (ok r) =
    if r.reverted
    then threw job (revert_failure hash)
    else moved (settle job (find_delayed_event sv.decode_event_log r.logs))

abbrev settle_write : Services → Job → Except Failure Text → Progress
settle_write sv job (err e) = threw job e
settle_write sv job (ok hash) =
    settle_receipt sv (record job { flare_tx_hash = some hash }) hash (sv.wait_for_receipt hash)

abbrev settle_proof : Services → Job → Except Failure Text → Progress
settle_proof sv job (err e) = threw job e
settle_proof sv job (ok proof) =
    settle_write sv job (sv.write_contract proof job.user_op_data job.total_call_value)

-- `job.executionAllowedAt && Date.now() < job.executionAllowedAt`
abbrev pub still_delayed : ℕ → Option ℕ → Bool
still_delayed now none = false
still_delayed now (some at) = ltb 0 at && ltb now at

-- The cases of the `switch`.
unfoldable pub advance : JobState → Services → Job → Progress
advance observed sv job = elim (sv.prepare_request job.xrpl_tx_id) [
  | err e ↦ threw job e
  | ok request ↦ moved (record job { abi_encoded_request = some request; state = request_prepared })
]
advance request_prepared sv job = elim (sv.submit_request job.abi_encoded_request) [
  | err e ↦ threw job e
  | ok round ↦ moved (record job { round_id = some round; state = request_submitted })
]
advance request_submitted sv job = elim (sv.is_round_finalized job.round_id) [
  | err e ↦ threw job e
  | ok finalized ↦
      if finalized then moved (record job { state = round_finalized }) else returned job
]
advance round_finalized sv job = elim (sv.fetch_proof job.abi_encoded_request job.round_id) [
  | err e ↦ threw job e
  | ok proof ↦ moved (record job { state = proof_fetched })
]
advance delayed sv job =
    if still_delayed sv.now job.execution_allowed_at
    then returned job
    else moved (record job { state = proof_fetched })
advance proof_fetched sv job =
    settle_proof sv job (sv.fetch_proof job.abi_encoded_request job.round_id)
advance executed sv job = returned job
advance failed sv job = returned job

abbrev pub is_proof_fetched : JobState → Bool
is_proof_fetched proof_fetched = true
is_proof_fetched _ = false

abbrev pub or_false : Option Bool → Bool
or_false none = false
or_false (some b) = b

-- Another relayer has finalised the payment.
abbrev pub lost_race : Services → Job → Failure → Bool
lost_race sv job e =
    (is_proof_fetched job.state && is_already_confirmed e)
    && or_false (sv.is_transaction_id_used job.xrpl_tx_id)

-- The rest of the `catch` block.
abbrev pub count_failure : Job → Failure → Job
count_failure job e =
    let counted = record job { attempts = job.attempts + 1; last_error = some e.message } in
    if not e.retryable && leb 5 (job.attempts + 1)
    then record counted { state = failed }
    else counted

-- The `catch` block of `step`.
unfoldable pub recover : Services → Job → Failure → Job
recover sv job e =
    if lost_race sv job e
    then record job { state = executed; last_error = none }
    else count_failure job e

-- The job that `step` returns, the files, and whether writing the file threw.
pub record Stepped : Type 0 where
  pub job : Job
  pub files : Dict Job
  pub thrown : Bool

-- The files after a write of the job's file; `load` finds no job in a file that was cut.
abbrev pub files_after : Write → Text → Job → Dict Job → Dict Job
files_after written id job files = set id job files
files_after refused id job files = files
files_after cut id job files = remove id files

-- `save`
unfoldable pub save : Services → Job → Dict Job → Stepped
save sv job files =
    let stamped = record job { updated_at = sv.now } in
    record {
      job = stamped;
      files = files_after sv.writing job.id stamped files;
      thrown = throws sv.writing;
    }

abbrev pub finish_step : Services → Dict Job → Progress → Stepped
finish_step sv files (moved job) = save sv (record job { attempts = 0; last_error = none }) files
finish_step sv files (returned job) = record { job = job; files = files; thrown = false }
finish_step sv files (threw job e) = save sv (recover sv job e) files

unfoldable pub step : Services → Job → Dict Job → Stepped
step sv job files = finish_step sv files (advance job.state sv job)
