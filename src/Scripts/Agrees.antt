-- ===== src/Scripts/Agrees.antt =====
-- scripts/demo-xaman.ts and scripts/run-executor.ts: the two ways of handing an operation over agree.
use flare_hack.Prelude.{◌≡◌, refl, sym, ap, ◌∙◌, none, some, ok, Text, ok_injective}
use flare_hack.Decimal.{to_decimal}
use flare_hack.Viem.{Viem}
use flare_hack.UserOp.{Abi}
use flare_hack.Prepare.{Chain, OneSigClient, PreparedRequest, prepare}
use flare_hack.Service.{PreparedForWeb, Body, body_of, entry_of, entry_of_prepared}
use flare_hack.Relay.{Demo, demo_params, web_of, prepare_for_web, sign_input}
use flare_hack.Relay.Laws.{prepare_for_web-prepare}
use flare_hack.Scripts.Demo.{register_body, demo_sign_input}

entry_of-register_body :
    (q : PreparedRequest) (memo : flare_hack.Prelude.Bytes)
    → (b : Body) × (body_of (register_body q) ≡ some b)
      × (entry_of b ≡ entry_of_prepared (web_of q memo))
unfolding body_of flare_hack.Json.get_field flare_hack.Prelude.◌===◌
entry_of-register_body q memo = (
  record {
    user_op_data = some q.user_op_data;
    commitment = some q.user_op_hash;
    personal_account = some q.personal_account;
    nonce = some (to_decimal q.nonce);
    total_call_value = some (to_decimal q.total_call_value);
    label = some q.label;
    xrpl_address = none;
  },
  refl,
  refl,
)

-- Whether the dApp prepares a deposit and registers it, or the executor's page asks the executor to prepare it, the executor's service reads the same entry to register from the dApp's request as it makes itself and the phone the same request to sign, whenever both prepare it from the same state of the chain and of the client.
pub register_body-prepare_for_web :
    (viem : Viem) (abi : Abi) (chain : Chain) (demo : Demo) (address : Text) (c : OneSigClient)
    {q : PreparedRequest} {w : PreparedForWeb}
    → (prepare viem abi chain (demo_params demo address) c).0 ≡ ok q
    → (prepare_for_web viem abi chain demo address c).0 ≡ ok w
    → ((b : Body) × (body_of (register_body q) ≡ some b) × (entry_of b ≡ entry_of_prepared w))
      × (demo_sign_input address q ≡ sign_input address w)
register_body-prepare_for_web viem abi chain demo address c {q} {w} here there =
    let (memo, web, same) = prepare_for_web-prepare viem abi chain demo address c here in
    let it : web_of q memo ≡ w = ok_injective (sym web ∙ there) in
    let (b, typed, entry) = entry_of-register_body q memo in
    (
      (b, typed, entry ∙ ap entry_of_prepared it),
      ap (λ t. record (demo_sign_input address q) { memo_data = t }) (sym same)
          ∙ ap (sign_input address) it,
    )
