-- ===== src/Latch/Effects.antt =====
-- extension/typescript/src/app/handlers.ts: every way in which an operation changes the enclave.
use flare_hack.Prelude.{
  ℕ, ◌+◌, ◌<◌, ◌≡◌, refl, ◌≢◌, ◌⊎◌, inl, inr, Bool, true, false, Option, none, some, arith,
  Bool-cases, Option-cases, ok, Except-cases, Text, codes,
}
use flare_hack.Viem.{Viem}
use flare_hack.Json.{JsonCodec}
use flare_hack.Dict.{get, set}
use flare_hack.Trigger.{Trigger}
use flare_hack.Latch.{
  IntentState, armed, fired, collected, cancelled, Intent, Enclave, commitment_of,
}
use flare_hack.Latch.Arm.{ArmRequest, is_armed, new_intent, parse_arm, arm_intent, handle_arm}
use flare_hack.Latch.Commands.{put, cancel_intent, handle_cancel, collect_intent, handle_collect}
use flare_hack.Latch.Tick.{skipped, waiting, entry_at, update_object, expire, visit}

abbrev pub is_out : IntentState → Bool
is_out fired = true
is_out collected = true
is_out _ = false

pub armed_or_not : (s : IntentState) → (s ≡ armed) ⊎ (s ≢ armed)
armed_or_not armed = inl refl
armed_or_not _ = inr (λ e. cc)

-- A new object under the commitment.
abbrev pub with_armed : ℕ → ArmRequest → Enclave → Enclave
with_armed now r e = record e {
  intents = set r.commitment (new_intent now e.armed_total r) e.intents;
  armed_total = e.armed_total + 1;
}

abbrev pub cancel : Intent → Intent
cancel i = record i { state = cancelled; user_op_data = codes "0x" }

abbrev pub collect : Intent → Intent
collect i = record i { state = collected }

module _ (viem : Viem) (codec : JsonCodec) (max_deadline max_date : ℕ) where
  pub handle_arm-effect :
      (now : ℕ) (msg : Text) (e : Enclave)
      → let after = (handle_arm viem codec max_deadline max_date now msg e).1 in
        (after ≡ e)
        ⊎ ((r : ArmRequest) × (parse_arm viem codec max_deadline now msg ≡ ok r)
            × (after ≡ with_armed now r e))
  unfolding handle_arm arm_intent
  handle_arm-effect now msg e = elim (Except-cases (parse_arm viem codec max_deadline now msg)) [
    | inl (r, parsed) ↦ elim (Bool-cases (is_armed (get r.commitment e.intents))) [
      | inl again ↦ inl (ground arith)
      | inr new ↦ inr (r, parsed, ground arith)
    ]
    | inr (x, failed) ↦ inl (ground arith)
  ]

module _ (codec : JsonCodec) where
  cancel_intent-effect :
      (k : Text) (e : Enclave) (found : Option Intent)
      → ((cancel_intent codec k e found).1 ≡ e)
        ⊎ ((i : Intent) × (found ≡ some i)
            × (i.state ≡ armed)
            × ((cancel_intent codec k e found).1 ≡ put k (cancel i) e))
  unfolding cancel_intent
  cancel_intent-effect k e none = inl refl
  cancel_intent-effect k e (some i) = elim (armed_or_not i.state) [
    | inl unfired ↦ inr (i, refl, unfired, ground arith)
    | inr other ↦ inl (ground arith)
  ]

  collect_intent-effect :
      (k : Text) (e : Enclave) (found : Option Intent)
      → ((collect_intent codec k e found).1 ≡ e)
        ⊎ ((i : Intent) × (found ≡ some i)
            × (is_out i.state ≡ true)
            × ((collect_intent codec k e found).1 ≡ put k (collect i) e))
  unfolding collect_intent
  collect_intent-effect k e none = inl refl
  collect_intent-effect k e (some i) = elim (Bool-cases (is_out i.state)) [
    | inl out ↦ inr (i, refl, out, ground arith)
    | inr other ↦ inl (ground arith)
  ]

  pub handle_cancel-effect :
      (msg : Text) (e : Enclave)
      → let after = (handle_cancel codec msg e).1 in
        (after ≡ e)
        ⊎ ((k : Text) × (i : Intent) × (get k e.intents ≡ some i)
            × (i.state ≡ armed)
            × (after ≡ put k (cancel i) e))
  unfolding handle_cancel
  handle_cancel-effect msg e = elim (Except-cases (commitment_of codec msg)) [
    | inl (k, read) ↦ elim (cancel_intent-effect k e (get k e.intents)) [
      | inl same ↦ inl (rw read same)
      | inr (i, found, unfired, changed) ↦ inr (k, i, found, unfired, rw read changed)
    ]
    | inr (x, failed) ↦ inl (rw failed)
  ]

  pub handle_collect-effect :
      (msg : Text) (e : Enclave)
      → let after = (handle_collect codec msg e).1 in
        (after ≡ e)
        ⊎ ((k : Text) × (i : Intent) × (get k e.intents ≡ some i)
            × (is_out i.state ≡ true)
            × (after ≡ put k (collect i) e))
  unfolding handle_collect
  handle_collect-effect msg e = elim (Except-cases (commitment_of codec msg)) [
    | inl (k, read) ↦ elim (collect_intent-effect k e (get k e.intents)) [
      | inl same ↦ inl (rw read same)
      | inr (i, found, out, changed) ↦ inr (k, i, found, out, rw read changed)
    ]
    | inr (x, failed) ↦ inl (rw failed)
  ]

module _ (now position : ℕ) (e : Enclave) where
  -- A round that continues has changed nothing, or has expired an intent past its deadline.
  pub visit-skipped :
      {after : Enclave}
      → visit now position e ≡ skipped after
      → (after ≡ e)
        ⊎ ((i : Intent) × (after ≡ record e { intents = update_object i.serial expire e.intents }))
  unfolding visit
  visit-skipped h = elim (Option-cases (entry_at position e.intents)) [
    | inl missing ↦ inl (ground arith)
    | inr (i, found) ↦ elim (armed_or_not i.state) [
      | inl unfired ↦ inr (i, ground arith)
      | inr other ↦ inl (ground arith)
    ]
  ]

  -- A round that awaits a check has found an armed intent before its deadline.
  pub visit-waiting :
      {serial : ℕ} {trigger : Trigger}
      → visit now position e ≡ waiting serial trigger
      → (i : Intent) × (entry_at position e.intents ≡ some i)
        × (serial ≡ i.serial)
        × (trigger ≡ i.trigger)
        × (now < i.deadline)
  unfolding visit
  visit-waiting h = elim (Option-cases (entry_at position e.intents)) [
    | inl missing ↦ absurd (ground arith)
    | inr (i, found) ↦ (i, found, ground arith, ground arith, ground arith)
  ]
