-- ===== src/Scripts/Demo.antt =====
-- scripts/demo-xaman.ts: preparing, registering and signing a deposit from a phone.
use flare_hack.Prelude.{
  ℕ, Bool, true, false, not, ◌&&◌, Option, none, some, List, [], ◌∷◌, ltb, if◌then◌else◌, Except,
  ok, err, Text, codes,
}
use flare_hack.Json.{Json, string, object, end, field}
use flare_hack.Decimal.{to_decimal}
use flare_hack.Viem.{Viem}
use flare_hack.UserOp.{Abi}
use flare_hack.Prepare.{Chain, PreparedRequest, PrepareError, one_sig_client, prepare}
use flare_hack.Xaman.{
  SignRequestInput, Payload, SignRequest, SignRequestStatus, Answer, create_sign_request,
  create_sign_in_request,
}
use flare_hack.Pipeline.{JobState, executed, failed}
use flare_hack.Relay.{Demo, demo_params}
use flare_hack.Scripts.Recover.{Signature, signed_as, await_signature}

-- How the wait for the sign-in ends; `unknown` where the answers given run out before.
pub data SignedIn : Type 0 where
  identified : Text → SignedIn
  declined sign_in_timed_out sign_in_crashed unknown : SignedIn

abbrev pub identify : SignRequestStatus → SignedIn → SignedIn
identify st later = elim (if st.signed then st.account else none) [
  | some account ↦ identified account
  | none ↦ if st.resolved && not st.signed then declined else later
]

abbrev pub identify_answer : Option SignRequestStatus → SignedIn → SignedIn
identify_answer none later = sign_in_crashed
identify_answer (some st) later = identify st later

-- The first loop: the clock at its head and the answer of `getSignRequest`, in each round.
unfoldable pub await_account : ℕ → List (ℕ × Option SignRequestStatus) → SignedIn
await_account deadline [] = unknown
await_account deadline ((now, answer) ∷ rounds) =
    let later = await_account deadline rounds in
    if ltb now deadline then identify_answer answer later else sign_in_timed_out

-- The body of `POST /register`.
abbrev pub register_body : PreparedRequest → Json
register_body req = object (
    field (codes "userOpData") (string req.user_op_data) (
      field (codes "commitment") (string req.user_op_hash) (
        field (codes "personalAccount") (string req.personal_account) (
          field (codes "nonce") (string (to_decimal req.nonce)) (
            field (codes "totalCallValue") (string (to_decimal req.total_call_value))
              (field (codes "label") (string req.label) end))))))

-- The argument of `createSignRequest`.
abbrev pub demo_sign_input : Text → PreparedRequest → SignRequestInput
demo_sign_input xrpl_address req = record {
  account = some xrpl_address;
  destination = req.xrpl_payment.destination;
  amount = to_decimal req.xrpl_payment.amount;
  memo_data = req.xrpl_payment.memo_data;
  instruction = req.label;
  identifier = some req.user_op_hash;
  signers = some (xrpl_address ∷ []);
  expire_minutes = some 15;
}

-- The states that are shown of the job, the last one first: the clock and the answer of `/status` in
-- each round, `none` where it fails.
abbrev is_finished : JobState → Bool
is_finished executed = true
is_finished failed = true
is_finished _ = false

abbrev seen_state : Option JobState → Option JobState → Option JobState
seen_state none shown = shown
seen_state (some state) shown = some state

abbrev ends : Option JobState → Bool
ends none = false
ends (some state) = is_finished state

unfoldable pub watch_state : ℕ → List (ℕ × Option JobState) → Option JobState → Option JobState
watch_state deadline [] shown = shown
watch_state deadline ((now, answer) ∷ rounds) shown =
    let next = seen_state answer shown in
    let later = watch_state deadline rounds next in
    if ltb now deadline then if ends answer then next else later else shown

-- Where the script ends: at the sign-in, the preparation, the registration or the signature, or with
-- the state that was last seen of the job.
pub data DemoEnd : Type 0 where
  not_identified : SignedIn → DemoEnd
  sign_in_failed register_failed no_sign_request : DemoEnd
  not_prepared : PrepareError → DemoEnd
  not_signed : Signature → DemoEnd
  watched : Option JobState → DemoEnd

-- What the script meets: Xaman, the chain, and the executor, of which `register` tells whether the
-- response is a 2xx, `none` where `fetch` rejects.
pub record Meeting : Type 0 where
  pub viem : Viem
  pub abi : Abi
  pub chain : Chain
  pub demo : Demo
  pub post : Payload → Answer SignRequest
  pub post_sign_in : Payload → Answer SignRequest
  pub sign_in_deadline : ℕ
  pub sign_in_polls : Text → List (ℕ × Option SignRequestStatus)
  pub register : Json → Option Bool
  pub sign_deadline : ℕ
  pub sign_polls : Text → List (ℕ × Option SignRequestStatus)
  pub job_deadline : ℕ
  pub job_polls : Text → List (ℕ × Option JobState)

abbrev after_signing : Meeting → Signature → DemoEnd
after_signing m (signed_as tx) = watched (watch_state m.job_deadline (m.job_polls tx) none)
after_signing m outcome = not_signed outcome

abbrev ask_to_sign : Meeting → Option SignRequest → DemoEnd
ask_to_sign m none = no_sign_request
ask_to_sign m (some sign) =
    after_signing m (await_signature m.sign_deadline (m.sign_polls sign.uuid))

abbrev registered_with : Meeting → Text → PreparedRequest → Option Bool → DemoEnd
registered_with m xrpl_address req (some true) =
    ask_to_sign m (create_sign_request m.post (demo_sign_input xrpl_address req))
registered_with m xrpl_address req _ = register_failed

abbrev hand_over : Meeting → Text → Except PrepareError PreparedRequest → DemoEnd
hand_over m xrpl_address (err e) = not_prepared e
hand_over m xrpl_address (ok req) =
    registered_with m xrpl_address req (m.register (register_body req))

abbrev deposit_for : Meeting → Text → DemoEnd
deposit_for m xrpl_address =
    hand_over m xrpl_address
      (prepare m.viem m.abi m.chain (demo_params m.demo xrpl_address) (one_sig_client none)).0

abbrev signed_in : Meeting → SignedIn → DemoEnd
signed_in m (identified account) = deposit_for m account
signed_in m outcome = not_identified outcome

abbrev sign_in_first : Meeting → Option SignRequest → DemoEnd
sign_in_first m none = sign_in_failed
sign_in_first m (some sign) =
    signed_in m (await_account m.sign_in_deadline (m.sign_in_polls sign.uuid))

-- The script, given `ONESIG_ACCOUNT`; what it reads of the vault is only shown.
unfoldable pub demo_xaman : Meeting → Option Text → DemoEnd
demo_xaman m (some (c ∷ account)) = deposit_for m (c ∷ account)
demo_xaman m _ =
    sign_in_first m (create_sign_in_request m.post_sign_in (some (codes "Sign in to ONESIG")))
