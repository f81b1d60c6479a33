-- ===== src/Latch/Commands.antt =====
-- extension/typescript/src/app/handlers.ts: STATUS, CANCEL, COLLECT and the public counts.
pub mod Gate
use flare_hack.Prelude.{
  ℕ, ◌+◌, true, Option, none, some, [], ◌∷◌, ◌==◌, if◌then◌else◌, pos, Text, codes, to_lower_case,
}
use flare_hack.Json.{
  finite, Json, null, boolean, number, string, object, Fields, end, field, JsonCodec,
}
use flare_hack.Dict.{Dict, get, set}
use flare_hack.Latch.{
  IntentState, armed, fired, collected, cancelled, expired, Intent, Enclave, no_such_intent,
  not_armed, not_fired, was_cancelled, was_expired, HandlerResult, success, fail, commitment_of,
  answer,
}

abbrev pub time_value : ℕ → Json
time_value t = number (finite (pos t))

abbrev pub state_name : IntentState → Text
state_name armed = codes "armed"
state_name fired = codes "fired"
state_name collected = codes "collected"
state_name cancelled = codes "cancelled"
state_name expired = codes "expired"

-- `firedAt` is left out when it is undefined or 0.
abbrev pub fired_at_field : Option ℕ → Fields
fired_at_field none = end
fired_at_field (some t) = if t == 0 then end else field (codes "firedAt") (time_value t) end

abbrev pub status_reply : Option Intent → Json
status_reply none = object (field (codes "state") (string (codes "unknown")) end)
status_reply (some i) = object (
    field (codes "state") (string (state_name i.state)) (
      field (codes "armedAt") (time_value i.armed_at)
        (field (codes "deadline") (time_value i.deadline) (fired_at_field i.fired_at))))

-- `a ?? b`
abbrev pub or_else : Option Intent → Option Intent → Option Intent
or_else none b = b
or_else (some a) b = some a

abbrev pub cancelled_reply : Text → Json
cancelled_reply commitment =
    object (
      field (codes "cancelled") (boolean true) (field (codes "commitment") (string commitment) end))

abbrev pub fired_at_value : Option ℕ → Json
fired_at_value none = null
fired_at_value (some t) = time_value t

abbrev pub collected_reply : Intent → Json
collected_reply i = object (
    field (codes "userOpData") (string i.user_op_data)
      (field (codes "firedAt") (fired_at_value i.fired_at) end))

abbrev pub put : Text → Intent → Enclave → Enclave
put k i e = record e { intents = set k i e.intents }

module _ (codec : JsonCodec) where
  unfoldable pub handle_status : Text → Enclave → HandlerResult × Enclave
  handle_status msg e =
      answer (commitment_of codec msg)
        (λ commitment. (
          success codec (
              status_reply
                (or_else (get (to_lower_case commitment) e.intents) (get commitment e.intents))),
          e,
        ))
        e

  unfoldable pub cancel_intent : Text → Enclave → Option Intent → HandlerResult × Enclave
  cancel_intent commitment e none = (fail no_such_intent, e)
  cancel_intent commitment e (some i) = elim i.state [
    | armed ↦ (
      success codec (cancelled_reply commitment),
      put commitment (record i { state = cancelled; user_op_data = codes "0x" }) e,
    )
    | other ↦ (fail (not_armed other), e)
  ]

  unfoldable pub handle_cancel : Text → Enclave → HandlerResult × Enclave
  handle_cancel msg e =
      answer (commitment_of codec msg)
        (λ commitment. cancel_intent commitment e (get commitment e.intents)) e

  unfoldable pub collect_intent : Text → Enclave → Option Intent → HandlerResult × Enclave
  collect_intent commitment e none = (fail no_such_intent, e)
  collect_intent commitment e (some i) = elim i.state [
    | armed ↦ (fail not_fired, e)
    | cancelled ↦ (fail was_cancelled, e)
    | expired ↦ (fail was_expired, e)
    | fired ↦ (success codec (collected_reply i), put commitment (record i { state = collected }) e)
    | collected ↦
        (success codec (collected_reply i), put commitment (record i { state = collected }) e)
  ]

  unfoldable pub handle_collect : Text → Enclave → HandlerResult × Enclave
  handle_collect msg e =
      answer (commitment_of codec msg)
        (λ commitment. collect_intent commitment e (get commitment e.intents)) e

abbrev pub counts_armed : IntentState → ℕ
counts_armed armed = 1
counts_armed _ = 0

abbrev pub counts_fired : IntentState → ℕ
counts_fired fired = 1
counts_fired _ = 0

pub record StateReport : Type 0 where
  pub armed : ℕ
  pub awaiting_collection : ℕ
  pub armed_total : ℕ
  pub fired_total : ℕ

-- The loop of `reportState`.
unfoldable pub count_states : (IntentState → ℕ) → Dict Intent → ℕ
count_states f [] = 0
count_states f ((_, i) ∷ m) = f i.state + count_states f m

unfoldable pub report_state : Enclave → StateReport
unfolding count_states
report_state e = record {
  armed = count_states counts_armed e.intents;
  awaiting_collection = count_states counts_fired e.intents;
  armed_total = e.armed_total;
  fired_total = e.fired_total;
}
