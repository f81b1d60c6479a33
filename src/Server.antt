-- ===== src/Server.antt =====
-- extension/typescript/src/base/server.ts: routing a request and processing an action, with the
-- four handlers of extension/typescript/src/app/handlers.ts registered.
pub mod Laws
use flare_hack.Prelude.{
  ℕ, zero, suc, Bool, true, false, Option, none, some, List, [], ◌∷◌, ◌==◌, if◌then◌else◌, pos,
  Except, ok, err, ◌>>=◌, ◌>>◌, Text, Bytes, codes, ◌===◌,
}
use flare_hack.Json.{
  Json, finite, null, boolean, number, string, array, object, Fields, get_field, JsonCodec,
}
use flare_hack.Encoding.{HexError, not_hex, hex_to_bytes}
use flare_hack.Viem.{Viem}
use flare_hack.Framework.{Registered, handle, lookup}
use flare_hack.Latch.{Enclave, HandlerError, invalid_hex, HandlerResult, fail}
use flare_hack.Latch.Arm.{handle_arm}
use flare_hack.Latch.Commands.{
  handle_status, handle_cancel, handle_collect, StateReport, report_state,
}

-- A handler; its result is `none` where it throws.
abbrev pub Handler : Type 0
Handler = Text → Enclave → Option HandlerResult × Enclave

abbrev pub total : (Text → Enclave → HandlerResult × Enclave) → Handler
total handler msg e = let r = handler msg e in (some r.0, r.1)

-- `register`
unfoldable pub register : Viem → JsonCodec → ℕ → ℕ → ℕ → Except HexError (List (Registered Handler))
register viem codec max_deadline max_date now = do
  a ← handle (codes "LATCH") (codes "ARM") (handle_arm viem codec max_deadline max_date now) []
  b ← handle (codes "LATCH") (codes "STATUS") (total (handle_status codec)) a
  c ← handle (codes "LATCH") (codes "CANCEL") (total (handle_cancel codec)) b
  handle (codes "LATCH") (codes "COLLECT") (total (handle_collect codec)) c

pub data Log : Type 0 where
  log_error : Option HandlerError → Log
  log_ok log_pending : Log

-- `additionalResultStatus` is always "0x"; the fields that are copied from the action and the
-- message are whatever they hold there.
pub record ActionResult : Type 0 where
  pub id : Option Json
  pub submission_tag : Option Json
  pub status : ℕ
  pub log : Log
  pub op_type : Text
  pub op_command : Option Json
  pub version : Text
  pub reply : Text

pub data Problem : Type 0 where
  invalid_action_json missing_data invalid_message_hex invalid_data_fixed missing_op_type : Problem
  failed_to_read_body : Problem

-- What `handleRequest` resolves to, or that it rejects.
pub data Response : Type 0 where
  not_found method_not_allowed unsupported_op_type : Response
  bad_request : Problem → Response
  action_reply : ActionResult → Response
  state_reply : Text → StateReport → Response
  rejected : Response

-- `!value` is false
unfoldable pub is_truthy : Json → Bool
is_truthy null = false
is_truthy (boolean b) = b
is_truthy (number (finite (pos zero))) = false
is_truthy (number _) = true
is_truthy (string []) = false
is_truthy (string (c ∷ s)) = true
is_truthy (array items) = true
is_truthy (object fields) = true

-- `value.name` of what is neither null nor undefined
abbrev pub member : Text → Json → Option Json
member name (object fields) = get_field name fields
member name _ = none

abbrev pub truthy : Option Json → Option Json
truthy none = none
truthy (some j) = if is_truthy j then some j else none

-- `hexToBytes(action.data.message)`; a value that is no string has no `startsWith`
abbrev pub message_bytes : Option Json → Option Bytes
message_bytes none = some []
message_bytes (some null) = some []
message_bytes (some (string s)) = elim (hex_to_bytes (some s)) [
  | ok bytes ↦ some bytes
  | err e ↦ none
]
message_bytes (some _) = none

-- The identifier that `lookup` is given: `none` where `toLowerCase` is called on a value that is no
-- string and not falsy.
abbrev pub identifier : Option Json → Option Text
identifier none = some []
identifier (some (string s)) = some s
identifier (some other) = if is_truthy other then none else some []

abbrev pub log_of : HandlerResult → Log
log_of r = elim r.status [
  | zero ↦ log_error r.error
  | suc zero ↦ log_ok
  | suc (suc n) ↦ log_pending
]

abbrev pub reply_or_empty : Option Text → Text
reply_or_empty none = codes "0x"
reply_or_empty (some reply) = reply

abbrev pub result_of : Text → Json → Text → Fields → HandlerResult → ActionResult
result_of version action_data op_type df r = record {
  id = member (codes "id") action_data;
  submission_tag = member (codes "submissionTag") action_data;
  status = r.status;
  log = log_of r;
  op_type = op_type;
  op_command = get_field (codes "opCommand") df;
  version = version;
  reply = reply_or_empty r.reply;
}

-- `handler(df.originalMessage ?? "0x")`; every registered handler begins by `decodeJson`, which
-- fails on a value that is no string
abbrev pub call_handler : Handler → Option Json → Enclave → Option HandlerResult × Enclave
call_handler handler none e = handler (codes "0x") e
call_handler handler (some null) e = handler (codes "0x") e
call_handler handler (some (string msg)) e = handler msg e
call_handler handler (some _) e = (some (fail (invalid_hex not_hex)), e)

-- The parsed body behind its checks: the `data` of the action and the fields of the message.
unfoldable pub parse_action : JsonCodec → Bytes → Except Problem (Json × Fields)
parse_action codec body = elim (codec.parse body) [
  | none ↦ err invalid_action_json
  | some action ↦ elim (truthy (member (codes "data") action)) [
    | none ↦ err missing_data
    | some action_data ↦ elim (message_bytes (member (codes "message") action_data)) [
      | none ↦ err invalid_message_hex
      | some bytes ↦ elim (codec.parse bytes) [
        | none ↦ err invalid_data_fixed
        | some (object df) ↦ ok (action_data, df)
        | some _ ↦ err missing_op_type
      ]
    ]
  ]
]

abbrev pub finish_action :
    Text → Json → Text → Fields → Option HandlerResult × Enclave → Response × Enclave
finish_action version action_data op_type df (none, e) = (rejected, e)
finish_action version action_data op_type df (some r, e) =
    (action_reply (result_of version action_data op_type df r), e)

abbrev pub dispatch :
    Text
    → List (Registered Handler)
    → Json
    → Fields
    → Text
    → Option Text
    → Enclave
    → Response × Enclave
dispatch version handlers action_data df t none e = (rejected, e)
dispatch version handlers action_data df t (some c) e = elim (lookup t c handlers) [
  | none ↦ (unsupported_op_type, e)
  | some handler ↦
      finish_action version action_data t df
        (call_handler handler (get_field (codes "originalMessage") df) e)
]

unfoldable pub dispatch_fields :
    Text → List (Registered Handler) → Json → Fields → Enclave → Response × Enclave
dispatch_fields version handlers action_data df e = elim (truthy (get_field (codes "opType") df)) [
  | none ↦ (bad_request missing_op_type, e)
  | some (string t) ↦
      dispatch version handlers action_data df t (identifier (get_field (codes "opCommand") df)) e
  | some _ ↦ (rejected, e)
]

abbrev pub act :
    Text → List (Registered Handler) → Enclave → Except Problem (Json × Fields) → Response × Enclave
act version handlers e (err p) = (bad_request p, e)
act version handlers e (ok (action_data, df)) = dispatch_fields version handlers action_data df e

-- `processAction`
unfoldable pub process_action :
    JsonCodec → Text → List (Registered Handler) → Bytes → Enclave → Response × Enclave
process_action codec version handlers body e = act version handlers e (parse_action codec body)

-- `path.split("?")[0]`
unfoldable pub clean_path : Text → Text
clean_path [] = []
clean_path (c ∷ path) = if c == b'?' then [] else c ∷ clean_path path

-- `handleRequest`
unfoldable pub handle_request :
    JsonCodec
    → Text
    → Text
    → List (Registered Handler)
    → Text
    → Text
    → Bytes
    → Enclave
    → Response × Enclave
handle_request codec version state_version handlers method path body e =
    let action = process_action codec version handlers body e in
    if clean_path path === codes "/action"
    then if method === codes "POST" then action else (method_not_allowed, e)
    else if clean_path path === codes "/state"
    then if method === codes "GET"
      then (state_reply state_version (report_state e), e)
      else (method_not_allowed, e)
    else (not_found, e)
