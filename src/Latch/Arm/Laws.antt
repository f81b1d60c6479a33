-- ===== src/Latch/Arm/Laws.antt =====
-- extension/typescript/src/app/handlers.ts: what ARM has established when it stores an intent.
use flare_hack.Prelude.{
  ◌===◌, if◌then◌else◌, ℕ, ◌+◌, ◌≤◌, ◌<◌, ◌≡◌, ◌⊎◌, inl, inr, true, false, Option, some, arith,
  Bool-cases, pos, ok, err, bind_ensures, Text, ===_refl, ===_iff,
}
use flare_hack.Viem.{Viem}
use flare_hack.Json.{Json, string, number, finite, JsonCodec}
use flare_hack.Dict.{get, get-set}
use flare_hack.Latch.{HandlerError, fail, Enclave, decode_json}
use flare_hack.Latch.Arm.{
  answer_arm, is_armed, new_intent, arm_intent, handle_arm, ArmRequest, check_user_op, hash,
  check_claim, check_trigger, check_deadline, parse_arm,
}

pub hash-eq-ok :
    (viem : Viem) (s : Text) {d : Text} → hash viem s ≡ ok d → viem.keccak256 s ≡ some d
unfolding hash
hash-eq-ok viem s h = ground arith

check_claim-eq-ok :
    (claim : Option Json) (digest : Text) {d : Text} → check_claim claim digest ≡ ok d → d ≡ digest
unfolding check_claim
check_claim-eq-ok (some (string s)) digest h = ground arith
check_claim-eq-ok _ digest h = ground arith

check_deadline-eq-ok :
    (max_deadline now : ℕ) (raw : Option Json) {d : ℕ}
    → check_deadline max_deadline now raw ≡ ok d
    → (now < d) × (d ≤ now + max_deadline)
unfolding check_deadline
check_deadline-eq-ok max_deadline now (some (number (finite (pos d)))) h = ground arith
check_deadline-eq-ok max_deadline now _ h = ground arith

pub record IsChecked (viem : Viem) (max_deadline now : ℕ) (r : ArmRequest) : Type 0 where
  pub hashed : viem.keccak256 r.user_op_data ≡ some r.commitment
  pub later : now < r.deadline
  pub limited : r.deadline ≤ now + max_deadline

module _ (viem : Viem) (codec : JsonCodec) (max_deadline : ℕ) where
  pub parse_arm-IsChecked :
      (now : ℕ) (msg : Text) {r : ArmRequest}
      → parse_arm viem codec max_deadline now msg ≡ ok r
      → IsChecked viem max_deadline now r
  unfolding parse_arm
  parse_arm-IsChecked now msg {r} =
      bind_ensures (IsChecked viem max_deadline now) (decode_json codec msg) _ λ req _.
        bind_ensures (IsChecked viem max_deadline now) (check_user_op _) _ λ op _.
          bind_ensures (IsChecked viem max_deadline now) (hash viem op) _ λ digest hashed.
            bind_ensures (IsChecked viem max_deadline now) (check_claim _ digest) _
              λ commitment claimed.
                bind_ensures (IsChecked viem max_deadline now) (check_trigger _) _ λ trigger _.
                  bind_ensures (IsChecked viem max_deadline now) (check_deadline max_deadline now _)
                    _
                    λ deadline timed e. record {
                      hashed =
                          ground
                            (arith, hash-eq-ok viem op hashed, check_claim-eq-ok _ digest claimed);
                      later = ground (arith, check_deadline-eq-ok max_deadline now _ timed);
                      limited = ground (arith, check_deadline-eq-ok max_deadline now _ timed);
                    }

module _ (viem : Viem) (codec : JsonCodec) (max_deadline max_date : ℕ) where
  -- A request that a check refuses fails with that check's message and changes nothing.
  pub handle_arm-refused :
      (now : ℕ) (msg : Text) (e : Enclave) {x : HandlerError}
      → parse_arm viem codec max_deadline now msg ≡ err x
      → handle_arm viem codec max_deadline max_date now msg e ≡ (some (fail x), e)
  unfolding handle_arm
  handle_arm-refused now msg e refused = rw refused

  -- A request that the checks accept has bytes that hash to its commitment and a deadline after now,
  -- by max_deadline at most. It leaves an armed intent under the commitment: the one that was
  -- armed there, with the enclave unchanged, or a new one with the bytes, trigger and deadline of
  -- the request; the entries of other commitments stay.
  pub handle_arm-stores :
      (now : ℕ) (msg k : Text) (e : Enclave) {r : ArmRequest}
      → parse_arm viem codec max_deadline now msg ≡ ok r
      → let after = (handle_arm viem codec max_deadline max_date now msg e).1 in
        ((is_armed (get r.commitment e.intents) ≡ true) × (after ≡ e)
          ⊎ (is_armed (get r.commitment e.intents) ≡ false)
            × (get r.commitment after.intents ≡ some (new_intent now e.armed_total r)))
        × (get k after.intents
            ≡ (if r.commitment === k then get r.commitment after.intents else get k e.intents))
        × IsChecked viem max_deadline now r
  unfolding handle_arm arm_intent
  handle_arm-stores now msg k e {r} parsed = (
    elim (Bool-cases (is_armed (get r.commitment e.intents))) [
      | inl again ↦ inl (again, rw parsed (ground arith))
      | inr fresh ↦ inr (
        fresh,
        rw (parsed, answer_arm, fresh)
            (rw (
              get-set r.commitment r.commitment (new_intent now e.armed_total r) e.intents,
              ===_refl r.commitment,
            )),
      )
    ],
    elim (Bool-cases (is_armed (get r.commitment e.intents))) [
      | inl again ↦ rw (parsed, answer_arm, again) (ground (arith, ===_iff r.commitment k))
      | inr fresh ↦
          rw (parsed, answer_arm, fresh)
            (ground (
              arith,
              get-set r.commitment k (new_intent now e.armed_total r) e.intents,
              get-set r.commitment r.commitment (new_intent now e.armed_total r) e.intents,
              ===_iff r.commitment k,
              ===_refl r.commitment,
            ))
    ],
    parse_arm-IsChecked viem codec max_deadline now msg parsed,
  )
