-- ===== src/LatchClient.antt =====
-- packages/executor/src/latch.ts: the enclave, driven in the executor's process.
pub mod Envelope
pub mod Direct
use flare_hack.Prelude.{
  ℕ, zero, suc, ◌-◌, ◌/◌, ◌%◌, Bool, false, Option, none, some, List, [], ◌∷◌, ◌++◌, ltb, ◌==◌,
  if◌then◌else◌, length, drop, ℤ, pos, ok, err, Text, codes, ◌===◌,
}
use flare_hack.Json.{
  Json, JsNumber, finite, string, number, array, object, nil, Fields, end, field, JsonCodec,
}
use flare_hack.Hex.{hex_chars, digit_char, with_prefix}
use flare_hack.Encoding.{bytes_to_hex, string_to_bytes32_hex, utf8}
use flare_hack.Framework.{Registered}
use flare_hack.Latch.{Enclave, initial}
use flare_hack.Decimal.{to_decimal}
use flare_hack.Trigger.{FeedReading, read_feed}
use flare_hack.Server.{
  Handler, Log, ActionResult, Response, not_found, method_not_allowed, unsupported_op_type,
  bad_request, action_reply, state_reply, rejected, handle_request,
}
use flare_hack.Watcher.{buffer_from_hex}

-- `s.padStart(n, "0")` and `s.padEnd(n, "0")`
abbrev pub zero_digits : ℕ → Text
zero_digits zero = []
zero_digits (suc n) = b'0' ∷ zero_digits n

abbrev pub pad_start : ℕ → Text → Text
pad_start n s = zero_digits (n - length s) ++ s

abbrev pub pad_end : ℕ → Text → Text
pad_end n s = s ++ zero_digits (n - length s)

-- `n.toString(16)`
unfoldable pub hex_loop : ℕ → ℕ → Text → Text
hex_loop zero n acc = acc
hex_loop (suc fuel) n acc =
    let rest = hex_loop fuel (n / 16) (digit_char (n % 16) ∷ acc) in
    if ltb n 16 then digit_char n ∷ acc else rest

-- `feedId`
unfoldable pub feed_id : Text → Text
unfolding utf8 hex_chars
feed_id symbol = codes "0x01" ++ pad_end 40 (hex_chars (utf8 symbol))

pub record Latch : Type 0 where
  pub enclave : Enclave
  pub seq : ℕ

-- The log of a reply: the server's, a text, or none.
pub data LatchLog : Type 0 where
  logged : Log → LatchLog
  text : Text → LatchLog
  empty : LatchLog

pub data LatchPayload : Type 0 where
  nothing : LatchPayload
  parsed : Json → LatchPayload
  raw : Text → LatchPayload

pub record LatchReply : Type 0 where
  pub status : ℕ
  pub is_ok : Bool
  pub log : LatchLog
  pub payload : LatchPayload

abbrev parsed_or_raw : Text → Option Json → LatchPayload
parsed_or_raw hex none = raw hex
parsed_or_raw hex (some value) = parsed value

-- `payloadOut`
abbrev pub payload_of : JsonCodec → Text → LatchPayload
payload_of codec hex =
    if hex === codes "0x"
    then nothing
    else parsed_or_raw hex (codec.parse (buffer_from_hex (drop 2 hex)))

abbrev refusal : ℕ → LatchLog → LatchReply
refusal status log = record { status = status; is_ok = false; log = log; payload = nothing }

abbrev pub action_result : JsonCodec → ActionResult → LatchReply
action_result codec r = record {
  status = 200;
  is_ok = r.status == 1;
  log = logged r.log;
  payload = payload_of codec r.reply;
}

-- What `#action` makes of the server's answer, `none` where that rejects. `/action` is never
-- answered with a state.
abbrev pub reply_of : JsonCodec → Response → Option LatchReply
reply_of codec not_found = some (refusal 404 (text (codes "not found")))
reply_of codec method_not_allowed = some (refusal 405 (text (codes "method not allowed")))
reply_of codec unsupported_op_type = some (refusal 501 (text (codes "unsupported op type")))
reply_of codec (bad_request p) = some (refusal 400 empty)
reply_of codec (action_reply r) = some (action_result codec r)
reply_of codec (state_reply version report) = some (refusal 200 empty)
reply_of codec rejected = none

abbrev pub id_of : ℕ → Text
id_of seq = with_prefix (pad_start 64 (hex_loop (suc seq) seq []))

abbrev tee_id : Text
tee_id = codes "0x2222222222222222222222222222222222222222"

-- `dataFixed`; `seconds` is the time in whole seconds.
abbrev pub data_fixed : Text → JsNumber → Text → Text → Text → Fields
data_fixed id seconds op_type op_command message = field (codes "instructionId") (string id) (
    field (codes "teeId") (string tee_id) (
      field (codes "timestamp") (number seconds) (
        field (codes "rewardEpochId") (number (finite (pos 0))) (
          field (codes "opType") (string op_type) (
            field (codes "opCommand") (string op_command) (
              field (codes "cosigners") (array nil) (
                field (codes "cosignersThreshold") (number (finite (pos 0))) (
                  field (codes "originalMessage") (string message)
                    (field (codes "additionalFixedMessage") (string (codes "0x")) end)))))))))

-- The `data` of the envelope, and the envelope.
abbrev pub action_data : Text → Text → Fields
action_data id message = field (codes "id") (string id) (
    field (codes "type") (string (codes "instruction")) (
      field (codes "submissionTag") (string (codes "submit"))
        (field (codes "message") (string message) end)))

abbrev pub envelope : Text → Text → Json
envelope id message = object (
    field (codes "data") (object (action_data id message)) (
      field (codes "additionalVariableMessages") (array nil) (
        field (codes "timestamps") (array nil) (
          field (codes "additionalActionData") (string (codes "0x"))
            (field (codes "signatures") (array nil) end)))))

-- The server that the client holds.
pub record Instance : Type 0 where
  pub codec : JsonCodec
  pub version : Text
  pub state_version : Text
  pub handlers : List (Registered Handler)

abbrev pub send : Instance → JsNumber → Text → Text → Json → Latch → Option LatchReply × Latch
send s seconds op_type op_command payload l =
    let id = id_of (suc l.seq) in
    let message = bytes_to_hex (s.codec.print payload) in
    let fixed = object (data_fixed id seconds op_type op_command message) in
    let body = s.codec.print (envelope id (bytes_to_hex (s.codec.print fixed))) in
    let r =
      handle_request s.codec s.version s.state_version s.handlers (codes "POST") (codes "/action")
        body l.enclave in
    (reply_of s.codec r.0, record { enclave = r.1; seq = suc l.seq })

abbrev unsent : Latch → Option LatchReply × Latch
unsent l = (none, record l { seq = suc l.seq })

-- `#action`
unfoldable pub action : Instance → JsNumber → Text → Json → Latch → Option LatchReply × Latch
action s seconds command payload l = elim (string_to_bytes32_hex (codes "LATCH")) [
  | err e ↦ unsent l
  | ok op_type ↦ elim (string_to_bytes32_hex command) [
    | err e ↦ unsent l
    | ok op_command ↦ send s seconds op_type op_command payload l
  ]
]

-- `arm`, `status`, `collect` and `cancel`
pub data Command : Type 0 where
  arm status collect cancel : Command

abbrev pub command_name : Command → Text
command_name arm = codes "ARM"
command_name status = codes "STATUS"
command_name collect = codes "COLLECT"
command_name cancel = codes "CANCEL"

-- `{ commitment }`
abbrev pub commitment_payload : Text → Json
commitment_payload commitment = object (field (codes "commitment") (string commitment) end)

-- The constructor
abbrev pub started : Latch
started = record { enclave = initial; seq = 0 }

-- `state`, with the request `GET /state`
unfoldable pub state : Instance → Latch → Response × Latch
state s l =
    let r =
      handle_request s.codec s.version s.state_version s.handlers (codes "GET") (codes "/state") []
        l.enclave in
    (r.0, record l { enclave = r.1 })

pub record FeedReply : Type 0 where
  pub value : Text
  pub decimals : ℤ
  pub timestamp : ℕ

abbrev shown : Option FeedReading → Option FeedReply
shown none = none
shown (some r) =
    some (record { value = to_decimal r.value; decimals = r.decimals; timestamp = r.timestamp })

-- `feed`
unfoldable pub feed : (Text → Option Text) → Text → ℕ → Option FeedReply
feed rpc id now_ms = shown (read_feed rpc id now_ms)
