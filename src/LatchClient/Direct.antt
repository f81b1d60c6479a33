-- ===== src/LatchClient/Direct.antt =====
-- packages/executor/src/latch.ts: driving the enclave through its server is calling its handlers.
use flare_hack.Prelude.{ℕ, suc, ◌≡◌, refl, sym, ap, ◌∙◌, some, ok, codes, ok_injective}
use mathlib.Core.Path.{ap₂, subst}
use flare_hack.Json.{Json, JsNumber, object, Fields}
use flare_hack.Viem.{Viem}
use flare_hack.Encoding.{bytes_to_hex}
use flare_hack.Framework.{lookup}
use flare_hack.Latch.{Enclave}
use flare_hack.Server.{
  Handler, register, finish_action, act, process_action, handle_request, Response,
}
use flare_hack.LatchClient.{
  Latch, Instance, reply_of, id_of, data_fixed, action_data, envelope, send, action, Command,
  command_name,
}
use flare_hack.LatchClient.Envelope.{
  Reads, handler_of, direct_reply, latch_type, command_code, type_is, command_is,
  parse_action-envelope, dispatch_fields-row, reply-finish, state-finish, post_action, rows,
  registers, lookup-row,
}

-- The envelope of a command, as the client prints it.
abbrev pub fixed_of : Instance → JsNumber → Command → Json → ℕ → Fields
fixed_of s seconds k payload seq =
    data_fixed (id_of (suc seq)) seconds latch_type (command_code k)
      (bytes_to_hex (s.codec.print payload))

abbrev pub envelope_of : Instance → JsNumber → Command → Json → ℕ → Json
envelope_of s seconds k payload seq =
    envelope (id_of (suc seq))
      (bytes_to_hex (s.codec.print (object (fixed_of s seconds k payload seq))))

answered :
    (s : Instance) (seconds : JsNumber) (k : Command) (payload : Json) (l : Latch) (h : Handler)
    → lookup latch_type (command_code k) s.handlers ≡ some h
    → Reads s.codec (object (fixed_of s seconds k payload l.seq))
    → Reads s.codec (envelope_of s seconds k payload l.seq)
    → handle_request s.codec s.version s.state_version s.handlers
        (codes "POST")
        (codes "/action")
        (s.codec.print (envelope_of s seconds k payload l.seq))
        l.enclave
      ≡ finish_action s.version
          (object (
            action_data
              (id_of (suc l.seq))
              (bytes_to_hex (s.codec.print (object (fixed_of s seconds k payload l.seq))))))
          latch_type
          (fixed_of s seconds k payload l.seq)
          (h (bytes_to_hex (s.codec.print payload)) l.enclave)
unfolding process_action
answered s seconds k payload l h found inner outer =
    let body = s.codec.print (envelope_of s seconds k payload l.seq) in
    let id = id_of (suc l.seq) in
    let fixed = fixed_of s seconds k payload l.seq in
    post_action s.codec s.version s.state_version s.handlers body l.enclave
    ∙ (ap (act s.version s.handlers l.enclave) (parse_action-envelope s.codec id fixed inner outer)
        ∙ dispatch_fields-row s.version id (bytes_to_hex (s.codec.print payload)) latch_type
            (command_code k) seconds s.handlers h l.enclave
            (object (action_data id (bytes_to_hex (s.codec.print (object fixed))))) (λ same. cc)
            found)

action-send :
    (s : Instance) (seconds : JsNumber) (k : Command) (payload : Json) (l : Latch)
    → action s seconds (command_name k) payload l
      ≡ send s seconds latch_type (command_code k) payload l
unfolding action
action-send s seconds k payload l = rw (type_is, command_is k, action) refl

module _ (viem : Viem) (max_deadline max_date now : ℕ) where
  -- Sending a command through the server is calling its handler: with the enclave's four handlers registered, `arm`, `status`, `collect` and `cancel` leave the enclave as the handler leaves it on the printed payload, and reply with that handler's status, log and result, for every payload and state; a handler that throws is a rejection. The two objects that are printed on the way must be read back as they were.
  pub action-handler_of :
      (s : Instance) (seconds : JsNumber) (k : Command) (payload : Json) (l : Latch)
      → register viem s.codec max_deadline max_date now ≡ ok s.handlers
      → Reads s.codec (object (fixed_of s seconds k payload l.seq))
      → Reads s.codec (envelope_of s seconds k payload l.seq)
      → let r =
          handler_of viem s.codec max_deadline max_date now k
            (bytes_to_hex (s.codec.print payload))
            l.enclave in
        action s seconds (command_name k) payload l
        ≡ (direct_reply s.codec r.0, record { enclave = r.1; seq = suc l.seq })
  action-handler_of s seconds k payload l registered inner outer =
      let h = handler_of viem s.codec max_deadline max_date now k in
      let message = bytes_to_hex (s.codec.print payload) in
      let same : rows viem s.codec max_deadline max_date now ≡ s.handlers =
        ok_injective (sym (registers viem s.codec max_deadline max_date now) ∙ registered) in
      let found : lookup latch_type (command_code k) s.handlers ≡ some h =
        subst (λ hs. lookup latch_type (command_code k) hs ≡ some h) same
          (lookup-row viem s.codec max_deadline max_date now k) in
      let a = object (
        action_data (id_of (suc l.seq))
          (bytes_to_hex (s.codec.print (object (fixed_of s seconds k payload l.seq))))) in
      let df = fixed_of s seconds k payload l.seq in
      action-send s seconds k payload l
      ∙ (ap
            (λ (r : Response × Enclave).
              (reply_of s.codec r.0, record { enclave = r.1; seq = suc l.seq }))
            (answered s seconds k payload l h found inner outer)
          ∙ ap₂ (λ reply state. (reply, record { enclave = state; seq = suc l.seq }))
              (reply-finish s.codec s.version latch_type a df (h message l.enclave))
              (state-finish s.version latch_type a df (h message l.enclave)))
