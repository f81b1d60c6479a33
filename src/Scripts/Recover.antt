-- ===== src/Scripts/Recover.antt =====
-- scripts/recover-mint.ts: releasing a stuck payment by a second one with the opcode 0xE0.
use flare_hack.Prelude.{
  ℕ, Bool, true, false, not, ◌&&◌, Option, none, some, List, [], ◌∷◌, ◌++◌, ltb, if◌then◌else◌,
  take, drop, pos, ok, err, Text, Bytes, codes,
}
use flare_hack.Dict.{Dict, get}
use flare_hack.Decimal.{to_decimal}
use flare_hack.Viem.{Viem}
use flare_hack.Memo.{MemoHeader}
use flare_hack.Memo.Encode.{encode_ignore_memo, to_xrpl_memo_hex}
use flare_hack.Fees.{DirectMintingFees, compute_payment_amount}
use flare_hack.Xaman.{
  SignRequestInput, Payload, SignRequest, SignRequestStatus, Answer, create_sign_request,
}
use flare_hack.Pipeline.{JobState, executed, Job, Services, normalize_xrpl_tx_id, Stepped, save}
use flare_hack.Pipeline.Run.{CreateParams, RunResult, done, create, run}
use flare_hack.Scripts.Resume.{Resumed, no_job, reset, run_saved}

-- How the wait for the signature ends; `waiting` where the answers given run out before.
pub data Signature : Type 0 where
  signed_as : Text → Signature
  rejected expired timed_out crashed_waiting waiting : Signature

-- The tests on one status, given how the loop goes on.
abbrev pub judge : SignRequestStatus → Signature → Signature
judge st later = elim (if st.signed then st.txid else none) [
  | some tx ↦ signed_as tx
  | none ↦ if st.resolved && not st.signed then rejected else if st.expired then expired else later
]

abbrev pub judged : Option SignRequestStatus → Signature → Signature
judged none later = crashed_waiting
judged (some st) later = judge st later

-- The loop: the clock at its head and the answer of `getSignRequest`, in each round.
unfoldable pub await_signature : ℕ → List (ℕ × Option SignRequestStatus) → Signature
await_signature deadline [] = waiting
await_signature deadline ((now, answer) ∷ rounds) =
    let later = await_signature deadline rounds in
    if ltb now deadline then judged answer later else timed_out

abbrev pub recovery_net_uba : ℕ
recovery_net_uba = 100000

-- `{ executorFeeUBA: 0n }`
abbrev pub recovery_header : MemoHeader
recovery_header = record { wallet_id = none; executor_fee_uba = pos 0 }

-- `Recover a stuck payment (${stuckTxId.slice(2, 10)}…)`
abbrev pub recovery_instruction : Text → Text
recovery_instruction stuck_tx_id =
    codes "Recover a stuck payment (" ++ (take 8 (drop 2 stuck_tx_id) ++ (0x2026 ∷ codes ")"))

-- The argument of `createSignRequest`.
abbrev pub recovery_input : Text → Text → DirectMintingFees → Text → Bytes → SignRequestInput
recovery_input account core_vault fees stuck_tx_id memo = record {
  account = some account;
  destination = core_vault;
  amount = to_decimal (compute_payment_amount recovery_net_uba fees).total_uba;
  memo_data = to_xrpl_memo_hex memo;
  instruction = recovery_instruction stuck_tx_id;
  identifier = none;
  signers = some (account ∷ []);
  expire_minutes = some 15;
}

-- The flag's job: `userOpData` is `0x`, and nothing is forwarded.
abbrev pub flag_params : Text → Text → CreateParams
flag_params recovery_tx_id personal_account = record {
  xrpl_tx_id = recovery_tx_id;
  user_op_data = codes "0x";
  total_call_value = pos 0;
  personal_account = personal_account;
  nonce = pos 0;
}

-- Where the script ends: before the signature, by the outcome of the wait, with a flag payment that
-- was not executed, or with the stuck job.
pub data Recovery : Type 0 where
  bad_hash memo_refused no_sign_request create_failed : Recovery
  unsigned : Signature → Recovery
  flag_failed : RunResult → Recovery
  stuck : Resumed → Recovery

-- What the second half of the script meets: the disk and the clock of its two writes, and the rounds
-- of its two runs.
pub record Second : Type 0 where
  pub creating : Services
  pub flag_deadline : ℕ
  pub flag_rounds : List Services
  pub saving : Services
  pub stuck_deadline : ℕ
  pub stuck_rounds : List Services

abbrev is_executed : JobState → Bool
is_executed executed = true
is_executed _ = false

abbrev pub retry_job : Second → Dict Job → Option Job → Resumed
retry_job w files none = no_job
retry_job w files (some job) =
    run_saved w.stuck_deadline w.stuck_rounds (save w.saving (reset job) files)

-- `pipeline.load(stuckTxId.slice(2))`, and the retry, whatever state the job is in
abbrev pub retry : Second → Text → RunResult → Recovery
retry w stuck_tx_id (done flag files) =
    if is_executed flag.state
    then stuck (retry_job w files (get (drop 2 stuck_tx_id) files))
    else flag_failed (done flag files)
retry w stuck_tx_id r = flag_failed r

abbrev pub run_flag : Second → Text → Option Stepped → Recovery
run_flag w stuck_tx_id none = create_failed
run_flag w stuck_tx_id (some s) =
    if s.thrown
    then create_failed
    else retry w stuck_tx_id (run w.flag_deadline w.flag_rounds s.job s.files)

abbrev pub after_signature : Second → Text → Text → Dict Job → Signature → Recovery
after_signature w stuck_tx_id personal_account files (signed_as tx) =
    run_flag w stuck_tx_id (create w.creating (flag_params tx personal_account) files)
after_signature w stuck_tx_id personal_account files outcome = unsigned outcome

-- What the first half of the script meets.
pub record First : Type 0 where
  pub viem : Viem
  pub account : Text
  pub core_vault : Text
  pub personal_account : Text
  pub fees : DirectMintingFees
  pub post : Payload → Answer SignRequest
  pub deadline : ℕ
  pub polls : Text → List (ℕ × Option SignRequestStatus)

abbrev pub signed_with : First → Option SignRequest → Option Signature
signed_with f none = none
signed_with f (some sign) = some (await_signature f.deadline (f.polls sign.uuid))

abbrev pub ask : First → Second → Dict Job → Text → Option Signature → Recovery
ask f w files stuck_tx_id none = no_sign_request
ask f w files stuck_tx_id (some outcome) =
    after_signature w stuck_tx_id f.personal_account files outcome

unfoldable pub recover_mint : First → Second → Text → Dict Job → Recovery
recover_mint f w stuck_arg files = elim (normalize_xrpl_tx_id stuck_arg) [
  | none ↦ bad_hash
  | some stuck_tx_id ↦ elim (encode_ignore_memo f.viem recovery_header stuck_tx_id) [
    | err e ↦ memo_refused
    | ok memo ↦ ask f w files stuck_tx_id (
        signed_with f (
          create_sign_request f.post
            (recovery_input f.account f.core_vault f.fees stuck_tx_id memo)))
  ]
]
