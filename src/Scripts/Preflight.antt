-- ===== src/Scripts/Preflight.antt =====
-- scripts/gate1.ts: the assertions before the payment is sent.
use flare_hack.Prelude.{
  ℕ, suc, Bool, true, false, Option, none, some, List, [], ◌∷◌, ◌==◌, if◌then◌else◌, length, Except,
  ok, Text, Bytes, codes, ◌===◌,
}
use flare_hack.Json.{get_field}
use flare_hack.Memo.{MemoError}
use flare_hack.Memo.Decode.{Payload, user_op_hash, DecodedMemo, decode_memo}
use flare_hack.Prepare.{
  Chain, OneSigClient, PrepareParams, PreparedRequest, direct_minting_payment_address,
}
use flare_hack.Prepare.Payment.{payment_json}
use flare_hack.Watcher.{buffer_from_hex}

-- The argument of `prepare`; `increment` is the calldata that viem encodes.
abbrev pub gate1_params : Text → Text → Text → PrepareParams
gate1_params counter increment address = record {
  xrpl_address = address;
  calls = (record { target = counter; value = 0; calldata = increment }) ∷ [];
  label = codes "Increment the Gate 1 counter";
  net_mint_uba = 1000000;
  fee_uba = none;
  wallet_id = none;
}

abbrev is_committed : Payload → Bool
is_committed (user_op_hash hash) = true
is_committed _ = false

abbrev commits_to : Text → Payload → Bool
commits_to expected (user_op_hash hash) = hash === expected
commits_to expected _ = false

abbrev is_absent : {A : Type 0} → Option A → Bool
is_absent none = true
is_absent (some a) = false

-- The seven checks, in order.
abbrev pub checks : PreparedRequest → Bytes → DecodedMemo → Text → List Bool
checks req memo_bytes decoded vault =
    (length memo_bytes == 42)
    ∷ is_committed decoded.payload
    ∷ commits_to req.user_op_hash decoded.payload
    ∷ is_absent (get_field (codes "DestinationTag") (payment_json req.xrpl_payment))
    ∷ (req.xrpl_payment.destination === vault)
    ∷ (req.user_op.sender === req.personal_account)
    ∷ (req.total_call_value == 0)
    ∷ []

unfoldable pub count_bad : List Bool → ℕ
count_bad [] = 0
count_bad (good ∷ rest) = let bad = count_bad rest in if good then bad else suc bad

abbrev pub count_checked : PreparedRequest → Except MemoError DecodedMemo → Option Text → Option ℕ
count_checked req (ok decoded) (some vault) =
    some (count_bad (checks req (buffer_from_hex req.xrpl_payment.memo_data) decoded vault))
count_checked req _ _ = none

-- `bad`, or `none` where the script ends by an exception
unfoldable pub preflight : Chain → OneSigClient → PreparedRequest → Option ℕ
preflight chain c req =
    count_checked req (decode_memo (buffer_from_hex req.xrpl_payment.memo_data))
      (direct_minting_payment_address chain none c).0
