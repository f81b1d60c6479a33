-- ===== src/Latch.antt =====
-- extension/typescript/src/app/handlers.ts: the enclave's state and the helpers of its handlers.
pub mod Arm
pub mod Commands
pub mod Tick
pub mod Effects
pub mod World
pub mod Views
pub mod Secrecy
use flare_hack.Prelude.{ℕ, Option, none, some, [], Except, ok, err, ◌>>=◌, ◌>>◌, Text, Bytes, codes}
use flare_hack.Json.{Json, string, object, Fields, get_field, JsonCodec}
use flare_hack.Dict.{Dict}
use flare_hack.Encoding.{HexError, hex_to_bytes, bytes_to_hex}
use flare_hack.Trigger.{Trigger, TriggerError}

pub data IntentState : Type 0 where
  armed fired collected cancelled expired : IntentState

-- `serial` is the identity of the object: how many intents were armed before it. A tick that waits
-- for a reading holds the object, and arming again may have replaced it in the map meanwhile.
pub record Intent : Type 0 where
  pub serial : ℕ
  pub commitment : Text
  pub user_op_data : Text
  pub trigger : Trigger
  pub deadline : ℕ
  pub state : IntentState
  pub armed_at : ℕ
  pub fired_at : Option ℕ

-- The variables of the module.
pub record Enclave : Type 0 where
  pub intents : Dict Intent
  pub armed_total : ℕ
  pub fired_total : ℕ

abbrev pub initial : Enclave
initial = record { intents = []; armed_total = 0; fired_total = 0 }

-- `resetState`
abbrev pub reset_state : Enclave → Enclave
reset_state e = initial

-- The messages that the handlers fail with, with the values that they show.
pub data HandlerError : Type 0 where
  invalid_hex : HexError → HandlerError
  invalid_json expected_object bad_user_op_data hash_failed : HandlerError
  commitment_mismatch : Text → Text → HandlerError
  bad_trigger : TriggerError → HandlerError
  bad_deadline deadline_past : HandlerError
  deadline_too_far : ℕ → HandlerError
  bad_commitment no_such_intent : HandlerError
  not_armed : IntentState → HandlerError
  not_fired was_cancelled was_expired : HandlerError

-- `HandlerResult`
pub record HandlerResult : Type 0 where
  pub reply : Option Text
  pub status : ℕ
  pub error : Option HandlerError

-- `ok`
abbrev pub success : JsonCodec → Json → HandlerResult
success codec payload = record {
  reply = some (bytes_to_hex (codec.print payload));
  status = 1;
  error = none;
}

abbrev pub fail : HandlerError → HandlerResult
fail e = record { reply = none; status = 0; error = some e }

abbrev json_fields : Option Json → Except HandlerError Fields
json_fields none = err invalid_json
json_fields (some (object fs)) = ok fs
json_fields (some _) = err expected_object

abbrev json_of_bytes : JsonCodec → Except HexError Bytes → Except HandlerError Fields
json_of_bytes codec (err e) = err (invalid_hex e)
json_of_bytes codec (ok raw) = json_fields (codec.parse raw)

-- `decodeJson`
unfoldable pub decode_json : JsonCodec → Text → Except HandlerError Fields
decode_json codec msg = json_of_bytes codec (hex_to_bytes (some msg))

abbrev pub string_field : Option Json → Except HandlerError Text
string_field (some (string s)) = ok s
string_field _ = err bad_commitment

-- The string `commitment` of a request.
unfoldable pub commitment_of : JsonCodec → Text → Except HandlerError Text
unfolding decode_json
commitment_of codec msg = do
  req ← decode_json codec msg
  string_field (get_field (codes "commitment") req)

-- A handler whose checks fail changes nothing.
abbrev pub answer :
    {A : Type 0}
    → Except HandlerError A
    → (A → HandlerResult × Enclave)
    → Enclave
    → HandlerResult × Enclave
answer (ok a) f e = f a
answer (err x) f e = (fail x, e)
