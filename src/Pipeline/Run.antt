-- ===== src/Pipeline/Run.antt =====
-- packages/executor/src/pipeline.ts: `create` and `run`.
use flare_hack.Prelude.{
  ℕ, ℤ, Bool, true, false, Option, none, some, List, [], ◌∷◌, ltb, if◌then◌else◌, drop, Text,
}
use flare_hack.Dict.{Dict, get}
use flare_hack.Pipeline.{
  JobState, observed, executed, failed, Job, Services, normalize_xrpl_tx_id, Stepped, save, step,
}

pub record CreateParams : Type 0 where
  pub xrpl_tx_id : Text
  pub user_op_data : Text
  pub total_call_value : ℤ
  pub personal_account : Text
  pub nonce : ℤ

abbrev pub new_job : Text → CreateParams → Job
new_job xrpl_tx_id p = record {
  id = drop 2 xrpl_tx_id;
  state = observed;
  xrpl_tx_id = xrpl_tx_id;
  user_op_data = p.user_op_data;
  total_call_value = p.total_call_value;
  personal_account = p.personal_account;
  nonce = p.nonce;
  abi_encoded_request = none;
  round_id = none;
  flare_tx_hash = none;
  execution_allowed_at = none;
  attempts = 0;
  last_error = none;
  updated_at = 0;
}

abbrev create_or_load : Services → Dict Job → CreateParams → Text → Option Job → Stepped
create_or_load sv files p tx none = save sv (new_job tx p) files
create_or_load sv files p tx (some existing) = record {
  job = existing;
  files = files;
  thrown = false;
}

-- `create`; `none` where the hash is refused
unfoldable pub create : Services → CreateParams → Dict Job → Option Stepped
create sv p files = elim (normalize_xrpl_tx_id p.xrpl_tx_id) [
  | none ↦ none
  | some tx ↦ some (create_or_load sv files p tx (get (drop 2 tx) files))
]

abbrev pub is_terminal : JobState → Bool
is_terminal executed = true
is_terminal failed = true
is_terminal _ = false

-- How a call of `run` stands: it returned, a step threw, or its loop goes on.
pub data RunResult : Type 0 where
  done : Job → Dict Job → RunResult
  crashed : Job → Dict Job → RunResult
  running : Job → Dict Job → RunResult

-- The rounds of the loop, given what the outside answers in each; `now` is the clock at its head,
-- which `sleep` between two rounds only moves on.
unfoldable pub run : ℕ → List Services → Job → Dict Job → RunResult
run deadline [] job files = if is_terminal job.state then done job files else running job files
run deadline (sv ∷ rest) job files =
    let s = step sv job files in
    let next = run deadline rest s.job s.files in
    if is_terminal job.state
    then done job files
    else if ltb deadline sv.now
    then done job files
    else if s.thrown
    then crashed s.job s.files
    else next
