-- ===== src/Server/Laws.antt =====
-- extension/typescript/src/base/server.ts: what the requests give away, and what they change.
use flare_hack.Prelude.{
  ℕ, ◌≡◌, refl, ap, inl, inr, Option, none, some, List, [], Bool-cases, Option-cases, Except, ok,
  err, bind_ensures, Text, Bytes, codes, ◌===◌,
}
use flare_hack.Json.{
  Json, null, boolean, number, string, array, object, Fields, get_field, JsonCodec,
}
use flare_hack.Viem.{Viem}
use flare_hack.Framework.{Registered, handle, lookup}
use flare_hack.Framework.Laws.{AllHandlers, lookup-AllHandlers, handle-AllHandlers}
use flare_hack.Latch.{Enclave, HandlerResult}
use flare_hack.Latch.Views.{Alike, SameAnswer, report-Alike}
use flare_hack.Latch.Secrecy.{arm-Alike, status-Alike, cancel-Alike, collect-Alike}
use flare_hack.Server.{
  Handler, register, Problem, identifier, truthy, call_handler, parse_action, finish_action,
  dispatch, dispatch_fields, act, process_action, clean_path, handle_request,
}

-- The handler's replies do not depend on what an armed intent holds.
abbrev pub IsBlind : Handler → Type 0
IsBlind handler =
    (msg : Text) (a b : Enclave) → Alike a b → SameAnswer (handler msg a) (handler msg b)

register-IsBlind :
    (viem : Viem) (codec : JsonCodec) (max_deadline max_date now : ℕ)
    {handlers : List (Registered Handler)}
    → register viem codec max_deadline max_date now ≡ ok handlers
    → AllHandlers IsBlind handlers
unfolding register
register-IsBlind viem codec max_deadline max_date now e =
    bind_ensures (AllHandlers IsBlind) (handle (codes "LATCH") (codes "ARM") _ []) _
      (λ a at_a.
        bind_ensures (AllHandlers IsBlind) (handle (codes "LATCH") (codes "STATUS") _ a) _
          (λ b at_b.
            bind_ensures (AllHandlers IsBlind) (handle (codes "LATCH") (codes "CANCEL") _ b) _
              (λ c at_c at_d.
                handle-AllHandlers IsBlind (codes "LATCH") (codes "COLLECT") _ c at_d
                  (handle-AllHandlers IsBlind (codes "LATCH") (codes "CANCEL") _ b at_c
                    (handle-AllHandlers IsBlind (codes "LATCH") (codes "STATUS") _ a at_b
                      (handle-AllHandlers IsBlind (codes "LATCH") (codes "ARM") _ [] at_a tt
                        (λ msg x y h. arm-Alike codec viem max_deadline max_date now msg x y h))
                      (λ msg x y h. let s = status-Alike codec msg x y h in (ap some s.0, s.1)))
                    (λ msg x y h. let s = cancel-Alike codec msg x y h in (ap some s.0, s.1)))
                  (λ msg x y h. let s = collect-Alike codec msg x y h in (ap some s.0, s.1)))))
      e

call_handler-Alike :
    (handler : Handler) (msg : Option Json) (a b : Enclave)
    → IsBlind handler
    → Alike a b
    → SameAnswer (call_handler handler msg a) (call_handler handler msg b)
call_handler-Alike handler none a b p h = p (codes "0x") a b h
call_handler-Alike handler (some null) a b p h = p (codes "0x") a b h
call_handler-Alike handler (some (string msg)) a b p h = p msg a b h
call_handler-Alike handler (some (boolean x)) a b p h = (refl, h)
call_handler-Alike handler (some (number x)) a b p h = (refl, h)
call_handler-Alike handler (some (array x)) a b p h = (refl, h)
call_handler-Alike handler (some (object x)) a b p h = (refl, h)

finish_action-Alike :
    (version : Text) (action_data : Json) (t : Text) (df : Fields)
    (x y : Option HandlerResult × Enclave)
    → SameAnswer x y
    → SameAnswer
        (finish_action version action_data t df x)
        (finish_action version action_data t df y)
finish_action-Alike version action_data t df (none, a) (none, b) (e, h) = (refl, h)
finish_action-Alike version action_data t df (none, a) (some s, b) (e, h) = cc
finish_action-Alike version action_data t df (some r, a) (none, b) (e, h) = cc
finish_action-Alike version action_data t df (some r, a) (some s, b) (e, h) = (cc, h)

module _ (version : Text) (handlers : List (Registered Handler))
    (blind : AllHandlers IsBlind handlers) where
  dispatch-Alike :
      (action_data : Json) (df : Fields) (t : Text) (c : Option Text) (a b : Enclave)
      → Alike a b
      → SameAnswer
          (dispatch version handlers action_data df t c a)
          (dispatch version handlers action_data df t c b)
  dispatch-Alike action_data df t none a b h = (refl, h)
  dispatch-Alike action_data df t (some c) a b h = elim (Option-cases (lookup t c handlers)) [
    | inl absent ↦ rw (absent, dispatch) (refl, h)
    | inr (handler, found) ↦
        rw (found, dispatch)
          (finish_action-Alike version action_data t df _ _ (
            call_handler-Alike handler (get_field (codes "originalMessage") df) a b
              (lookup-AllHandlers IsBlind t c handlers blind found) h))
  ]

  dispatch_by-Alike :
      (action_data : Json) (df : Fields) (t : Option Json) (a b : Enclave)
      → truthy (get_field (codes "opType") df) ≡ t
      → Alike a b
      → SameAnswer
          (dispatch_fields version handlers action_data df a)
          (dispatch_fields version handlers action_data df b)
  unfolding dispatch_fields
  dispatch_by-Alike action_data df none a b e h = rw (e, dispatch_fields) (refl, h)
  dispatch_by-Alike action_data df (some (string t)) a b e h =
      rw (e, dispatch_fields)
        (dispatch-Alike action_data df t (identifier (get_field (codes "opCommand") df)) a b h)
  dispatch_by-Alike action_data df (some null) a b e h = rw (e, dispatch_fields) (refl, h)
  dispatch_by-Alike action_data df (some (boolean x)) a b e h = rw (e, dispatch_fields) (refl, h)
  dispatch_by-Alike action_data df (some (number x)) a b e h = rw (e, dispatch_fields) (refl, h)
  dispatch_by-Alike action_data df (some (array x)) a b e h = rw (e, dispatch_fields) (refl, h)
  dispatch_by-Alike action_data df (some (object x)) a b e h = rw (e, dispatch_fields) (refl, h)

  act-Alike :
      (r : Except Problem (Json × Fields)) (a b : Enclave)
      → Alike a b
      → SameAnswer (act version handlers a r) (act version handlers b r)
  act-Alike (err p) a b h = (refl, h)
  act-Alike (ok (action_data, df)) a b h =
      dispatch_by-Alike action_data df (truthy (get_field (codes "opType") df)) a b refl h

  process_action-Alike :
      (codec : JsonCodec) (body : Bytes) (a b : Enclave)
      → Alike a b
      → SameAnswer
          (process_action codec version handlers body a)
          (process_action codec version handlers body b)
  unfolding process_action
  process_action-Alike codec body a b h = act-Alike (parse_action codec body) a b h

-- Two enclaves whose intents have the same states, times and released payloads answer every
-- request in the same way, and stay so: no sequence of requests, `GET /state` among them, tells
-- anything of the trigger of an intent, or of the payload of one that is armed.
pub handle_request-Alike :
    (viem : Viem) (codec : JsonCodec) (max_deadline max_date now : ℕ) (version state_version : Text)
    {handlers : List (Registered Handler)} (method path : Text) (body : Bytes) (a b : Enclave)
    → register viem codec max_deadline max_date now ≡ ok handlers
    → Alike a b
    → SameAnswer
        (handle_request codec version state_version handlers method path body a)
        (handle_request codec version state_version handlers method path body b)
unfolding handle_request
handle_request-Alike viem codec max_deadline max_date now version state_version {handlers} method
      path body a b e h =
    let action =
      process_action-Alike version handlers
        (register-IsBlind viem codec max_deadline max_date now e) codec body a b h in
    elim (Bool-cases (clean_path path === codes "/action")) [
      | inl is_action ↦ elim (Bool-cases (method === codes "POST")) [
        | inl post ↦ rw (is_action, post) action
        | inr other ↦ rw (is_action, other) (refl, h)
      ]
      | inr no_action ↦ elim (Bool-cases (clean_path path === codes "/state")) [
        | inl is_state ↦ elim (Bool-cases (method === codes "GET")) [
          | inl is_get ↦ rw (no_action, is_state, is_get, report-Alike a b h) (refl, h)
          | inr other ↦ rw (no_action, is_state, other) (refl, h)
        ]
        | inr no_state ↦ rw (no_action, no_state) (refl, h)
      ]
    ]
