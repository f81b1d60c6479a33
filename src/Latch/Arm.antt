-- ===== src/Latch/Arm.antt =====
-- extension/typescript/src/app/handlers.ts: `handleArm`.
pub mod Laws
use flare_hack.Prelude.{
  ℕ, ◌+◌, Bool, true, false, ◌&&◌, Option, none, some, ltb, leb, if◌then◌else◌, length, drop, all,
  pos, negsuc, Except, ok, err, ◌>>=◌, ◌>>◌, Text, codes, ◌===◌, starts_with, to_lower_case,
}
use flare_hack.Hex.{is_hex_digit}
use flare_hack.Viem.{Viem}
use flare_hack.Json.{
  finite, Json, boolean, number, string, object, end, field, get_field, JsonCodec,
}
use flare_hack.Dict.{get, set}
use flare_hack.Trigger.{Trigger, price, time, parse_trigger}
use flare_hack.Latch.{
  armed, Intent, Enclave, HandlerError, bad_user_op_data, hash_failed, commitment_mismatch,
  bad_trigger, bad_deadline, deadline_past, deadline_too_far, HandlerResult, success, fail,
  decode_json,
}

pub record ArmRequest : Type 0 where
  pub commitment : Text
  pub user_op_data : Text
  pub trigger : Trigger
  pub deadline : ℕ

-- `/^0x[0-9a-fA-F]*$/`
abbrev pub is_0x_hex : Text → Bool
is_0x_hex s = starts_with s (codes "0x") && all is_hex_digit (drop 2 s)

unfoldable pub check_user_op : Option Json → Except HandlerError Text
check_user_op (some (string s)) =
    if is_0x_hex s && leb 4 (length s) then ok s else err bad_user_op_data
check_user_op _ = err bad_user_op_data

unfoldable pub hash : Viem → Text → Except HandlerError Text
hash viem s = elim (viem.keccak256 s) [ none ↦ err hash_failed | some d ↦ ok d ]

-- A claim that is not a string is not looked at.
unfoldable pub check_claim : Option Json → Text → Except HandlerError Text
check_claim (some (string claimed)) commitment =
    if to_lower_case claimed === to_lower_case commitment
    then ok commitment
    else err (commitment_mismatch claimed commitment)
check_claim _ commitment = ok commitment

abbrev pub check_trigger : Option Json → Except HandlerError Trigger
check_trigger raw = elim (parse_trigger raw) [ ok t ↦ ok t | err e ↦ err (bad_trigger e) ]

-- `Date.now()` is not negative.
unfoldable pub check_deadline : ℕ → ℕ → Option Json → Except HandlerError ℕ
check_deadline max_deadline now (some (number (finite (pos d)))) =
    if leb d now
    then err deadline_past
    else if ltb (now + max_deadline) d
    then err (deadline_too_far max_deadline)
    else ok d
check_deadline max_deadline now (some (number (finite (negsuc d)))) = err deadline_past
check_deadline max_deadline now _ = err bad_deadline

-- `new Date(t.notBefore).toISOString()`
abbrev pub describe_throws : ℕ → Trigger → Bool
describe_throws max_date (time not_before) = ltb max_date not_before
describe_throws max_date (price feed_id op value) = false

-- Both replies to an intent that is armed.
abbrev pub armed_reply : Text → Json
armed_reply commitment =
    object
      (field (codes "armed") (boolean true) (field (codes "commitment") (string commitment) end))

abbrev pub already_armed_reply : Text → Json
already_armed_reply commitment = object (
    field (codes "armed") (boolean true) (
      field (codes "commitment") (string commitment)
        (field (codes "alreadyArmed") (boolean true) end)))

-- `existing && existing.state === "armed"`
abbrev pub is_armed : Option Intent → Bool
is_armed none = false
is_armed (some i) = elim i.state [ armed ↦ true | _ ↦ false ]

abbrev pub new_intent : ℕ → ℕ → ArmRequest → Intent
new_intent now serial r = record {
  serial = serial;
  commitment = r.commitment;
  user_op_data = r.user_op_data;
  trigger = r.trigger;
  deadline = r.deadline;
  state = armed;
  armed_at = now;
  fired_at = none;
}

module _ (viem : Viem) (codec : JsonCodec) (max_deadline : ℕ) where
  -- The checks of `handleArm`, in their order.
  unfoldable pub parse_arm : ℕ → Text → Except HandlerError ArmRequest
  parse_arm now msg = do
    req ← decode_json codec msg
    user_op_data ← check_user_op (get_field (codes "userOpData") req)
    digest ← hash viem user_op_data
    commitment ← check_claim (get_field (codes "commitment") req) digest
    trigger ← check_trigger (get_field (codes "trigger") req)
    deadline ← check_deadline max_deadline now (get_field (codes "deadline") req)
    ok (record {
      commitment = commitment;
      user_op_data = user_op_data;
      trigger = trigger;
      deadline = deadline;
    })

module _ (viem : Viem) (codec : JsonCodec) (max_deadline max_date : ℕ) where
  -- The result is `none` where `describeTrigger`, called for the log once the intent is stored,
  -- throws: `toISOString` refuses a date past `max_date`.
  unfoldable pub arm_intent : ℕ → Enclave → ArmRequest → Option HandlerResult × Enclave
  arm_intent now e r =
      if is_armed (get r.commitment e.intents)
      then (some (success codec (already_armed_reply r.commitment)), e)
      else (
        if describe_throws max_date r.trigger
            then none
            else some (success codec (armed_reply r.commitment)),
        record e {
          intents = set r.commitment (new_intent now e.armed_total r) e.intents;
          armed_total = e.armed_total + 1;
        },
      )

  abbrev pub answer_arm :
      ℕ → Enclave → Except HandlerError ArmRequest → Option HandlerResult × Enclave
  answer_arm now e (ok r) = arm_intent now e r
  answer_arm now e (err x) = (some (fail x), e)

  unfoldable pub handle_arm : ℕ → Text → Enclave → Option HandlerResult × Enclave
  handle_arm now msg e = answer_arm now e (parse_arm viem codec max_deadline now msg)
