-- ===== src/LatchClient/Envelope.antt =====
-- packages/executor/src/latch.ts: the server takes the client's envelope apart again.
use flare_hack.Prelude.{
  ℕ, ◌≡◌, refl, ◌≢◌, Option, none, some, List, [], ◌∷◌, ◌==◌, All, ok, Text, Bytes, codes, ◌===◌,
  starts_with,
}
use flare_hack.Json.{Json, JsNumber, object, Fields, get_field, JsonCodec}
use flare_hack.Hex.{IsByte}
use flare_hack.Viem.{Viem}
use flare_hack.Encoding.{bytes_to_hex, string_to_bytes32_hex}
use flare_hack.Encoding.RoundTrip.{hex_to_bytes-bytes_to_hex}
use flare_hack.Framework.{Registered, lookup, handle, find_handler, normalize}
use flare_hack.Latch.{Enclave, HandlerResult}
use flare_hack.Latch.Arm.{handle_arm}
use flare_hack.Latch.Commands.{handle_status, handle_cancel, handle_collect}
use flare_hack.Server.{
  Handler, total, register, log_of, reply_or_empty, parse_action, is_truthy, finish_action,
  dispatch, dispatch_fields, process_action, handle_request, clean_path,
}
use flare_hack.LatchClient.{
  LatchReply, logged, payload_of, reply_of, data_fixed, action_data, envelope, Command, arm, status,
  collect, cancel, command_name,
}

-- The server's codec reads back what it printed, and prints bytes.
pub record Reads (codec : JsonCodec) (value : Json) : Type 0 where
  pub bytes : All IsByte (codec.print value)
  pub back : codec.parse (codec.print value) ≡ some value

-- The handler of a command, as it is registered.
abbrev pub handler_of : Viem → JsonCodec → ℕ → ℕ → ℕ → Command → Handler
handler_of viem codec max_deadline max_date now arm =
    handle_arm viem codec max_deadline max_date now
handler_of viem codec max_deadline max_date now status = total (handle_status codec)
handler_of viem codec max_deadline max_date now collect = total (handle_collect codec)
handler_of viem codec max_deadline max_date now cancel = total (handle_cancel codec)

-- What the client makes of a handler's result.
abbrev pub direct_reply : JsonCodec → Option HandlerResult → Option LatchReply
direct_reply codec none = none
direct_reply codec (some r) = some (record {
  status = 200;
  is_ok = r.status == 1;
  log = logged (log_of r);
  payload = payload_of codec (reply_or_empty r.reply);
})

-- `stringToBytes32Hex` of the operation's type and of the command.
abbrev pub latch_type : Text
latch_type = codes "0x4c41544348000000000000000000000000000000000000000000000000000000"

abbrev pub command_code : Command → Text
command_code arm = codes "0x41524d0000000000000000000000000000000000000000000000000000000000"
command_code status = codes "0x5354415455530000000000000000000000000000000000000000000000000000"
command_code collect = codes "0x434f4c4c45435400000000000000000000000000000000000000000000000000"
command_code cancel = codes "0x43414e43454c0000000000000000000000000000000000000000000000000000"

pub type_is : string_to_bytes32_hex (codes "LATCH") ≡ ok latch_type
unfolding string_to_bytes32_hex flare_hack.Hex.hex_chars
type_is = refl

pub command_is : (k : Command) → string_to_bytes32_hex (command_name k) ≡ ok (command_code k)
unfolding string_to_bytes32_hex flare_hack.Hex.hex_chars
command_is arm = refl
command_is status = refl
command_is collect = refl
command_is cancel = refl

module _ (viem : Viem) (codec : JsonCodec) (max_deadline max_date now : ℕ) where
  abbrev pub row : Command → Registered Handler
  row k = record {
    op_type = latch_type;
    op_command = command_code k;
    handler = handler_of viem codec max_deadline max_date now k;
  }

  abbrev pub rows : List (Registered Handler)
  rows = row arm ∷ row status ∷ row cancel ∷ row collect ∷ []

  pub registers : register viem codec max_deadline max_date now ≡ ok rows
  unfolding register handle
  registers =
      rw (type_is, command_is arm, command_is status, command_is cancel, command_is collect) refl

  pub lookup-row :
      (k : Command)
      → lookup latch_type (command_code k) rows
        ≡ some (handler_of viem codec max_deadline max_date now k)
  unfolding lookup find_handler normalize ◌===◌ starts_with
  lookup-row arm = refl
  lookup-row status = refl
  lookup-row collect = refl
  lookup-row cancel = refl

-- The server takes the client's envelope apart again.
pub parse_action-envelope :
    (codec : JsonCodec) (id : Text) (fixed : Fields)
    → Reads codec (object fixed)
    → Reads codec (envelope id (bytes_to_hex (codec.print (object fixed))))
    → parse_action codec (codec.print (envelope id (bytes_to_hex (codec.print (object fixed)))))
      ≡ ok (object (action_data id (bytes_to_hex (codec.print (object fixed)))), fixed)
unfolding parse_action get_field ◌===◌ is_truthy
parse_action-envelope codec id fixed inner outer =
    rw
      (
        outer.back,
        hex_to_bytes-bytes_to_hex (codec.print (object fixed)) inner.bytes,
        inner.back,
        parse_action,
      )
      refl

pub dispatch_fields-row :
    (version id message op_type op_command : Text) (seconds : JsNumber)
    (handlers : List (Registered Handler)) (h : Handler) (e : Enclave) (a : Json)
    → op_type ≢ []
    → lookup op_type op_command handlers ≡ some h
    → dispatch_fields version handlers a (data_fixed id seconds op_type op_command message) e
      ≡ finish_action version a op_type
          (data_fixed id seconds op_type op_command message)
          (h message e)
unfolding dispatch_fields get_field ◌===◌ is_truthy
dispatch_fields-row version id message [] op_command seconds handlers h e a given found =
    absurd (given refl)
dispatch_fields-row version id message (c ∷ op_type) op_command seconds handlers h e a given found =
    rw (found, dispatch) refl

-- How the client reads what a handler brought.
pub reply-finish :
    (codec : JsonCodec) (version op_type : Text) (a : Json) (df : Fields)
    (r : Option HandlerResult × Enclave)
    → reply_of codec (finish_action version a op_type df r).0 ≡ direct_reply codec r.0
reply-finish codec version op_type a df (none, e) = refl
reply-finish codec version op_type a df (some h, e) = refl

pub state-finish :
    (version op_type : Text) (a : Json) (df : Fields) (r : Option HandlerResult × Enclave)
    → (finish_action version a op_type df r).1 ≡ r.1
state-finish version op_type a df (none, e) = refl
state-finish version op_type a df (some h, e) = refl

pub post_action :
    (codec : JsonCodec) (version state_version : Text) (handlers : List (Registered Handler))
    (body : Bytes) (e : Enclave)
    → handle_request codec version state_version handlers (codes "POST") (codes "/action") body e
      ≡ process_action codec version handlers body e
unfolding handle_request clean_path ◌===◌
post_action codec version state_version handlers body e = refl
