-- ===== src/Tests/LatchRuns.antt =====
-- Runs of the enclave: an intent is armed, a tick finds its trigger met, and its bytes are collected.
use flare_hack.Prelude.{
  ◌≡◌, refl, sym, ap, ◌⊎◌, true, false, none, some, List, [], ◌∷◌, if◌then◌else◌, All, ok, Text,
  codes, ◌===◌,
}
use flare_hack.Dict.{get}
use flare_hack.Trigger.{time}
use flare_hack.Latch.{fired, Intent, Enclave, initial, success, commitment_of}
use flare_hack.Latch.Arm.{ArmRequest, parse_arm, handle_arm, is_armed, new_intent}
use flare_hack.Latch.Arm.Laws.{IsChecked, handle_arm-stores}
use flare_hack.Latch.Commands.{handle_cancel, handle_collect, collected_reply}
use flare_hack.Latch.Commands.Gate.{IsOut, handle_collect-gate}
use flare_hack.Latch.World.{
  World, TickPhase, ready, awaiting, start_world, Step, arm, start, wait, answer, Check, Reach,
  here, next,
}
use flare_hack.Latch.World.Entries.{IsSoundEntry, HasFired}
use flare_hack.Latch.World.Steps.{Reach-IsSoundEntry}
use flare_hack.Latch.Tick.{resume, fire}
use flare_hack.Latch.Effects.{cancel}
use flare_hack.Latch.World.Erased.{
  cancelled_intent_fires, HasNoBytes, cancel_is_final, collect_after_firing,
}
use flare_hack.Tests.Fixtures.{sample_viem, sample_codec, zero_digest}

abbrev request : ArmRequest
request = record {
  commitment = zero_digest;
  user_op_data = codes "0x00";
  trigger = time 5;
  deadline = 100;
}

abbrev armed_enclave : Enclave
armed_enclave = record {
  intents = (zero_digest, new_intent 1 0 request) ∷ [];
  armed_total = 1;
  fired_total = 0;
}

abbrev fired_intent : Intent
fired_intent = record (new_intent 1 0 request) { state = fired; fired_at = some 6 }

abbrev fired_enclave : Enclave
fired_enclave = record {
  intents = (zero_digest, fired_intent) ∷ [];
  armed_total = 1;
  fired_total = 1;
}

abbrev world : Enclave → List TickPhase → List Check → World
world e ticks checks = record { enclave = e; ticks = ticks; checks = checks }

abbrev due : Check
due = record { serial = 0; trigger = time 5; now = 6; read = λ feed. none }

arms : (handle_arm sample_viem sample_codec 1000 5000 1 (codes "0x41") initial).1 ≡ armed_enclave
unfolding handle_arm parse_arm flare_hack.Latch.decode_json flare_hack.Encoding.hex_to_bytes
    flare_hack.Prelude.starts_with flare_hack.Hex.parse_pairs flare_hack.Latch.Arm.check_user_op
    flare_hack.Json.get_field ◌===◌ flare_hack.Latch.Arm.hash flare_hack.Latch.Arm.check_claim
    flare_hack.Trigger.parse_trigger flare_hack.Latch.Arm.check_deadline
    flare_hack.Latch.Arm.arm_intent get flare_hack.Dict.set
arms = refl

parses : parse_arm sample_viem sample_codec 1000 1 (codes "0x41") ≡ ok request
unfolding parse_arm flare_hack.Latch.decode_json flare_hack.Encoding.hex_to_bytes
    flare_hack.Prelude.starts_with flare_hack.Hex.parse_pairs flare_hack.Latch.Arm.check_user_op
    flare_hack.Json.get_field ◌===◌ flare_hack.Latch.Arm.hash flare_hack.Latch.Arm.check_claim
    flare_hack.Trigger.parse_trigger flare_hack.Latch.Arm.check_deadline
parses = refl

claims : commitment_of sample_codec (codes "0x43") ≡ ok zero_digest
unfolding commitment_of flare_hack.Encoding.hex_to_bytes flare_hack.Prelude.starts_with
    flare_hack.Hex.parse_pairs flare_hack.Json.get_field ◌===◌
claims = refl

arm_step : Step sample_viem sample_codec 1000 5000 start_world (world armed_enclave [] [])
arm_step = arm 1 (codes "0x41") (ap (λ e. world e [] []) (sym arms))

wait_step :
    Step sample_viem sample_codec 1000 5000
      (world armed_enclave (ready 6 0 ∷ []) [])
      (world armed_enclave (awaiting 6 0 0 (time 5) ∷ []) [])
unfolding flare_hack.Latch.Tick.visit
wait_step = wait 6 0 0 (time 5) [] [] refl refl refl

met_step :
    Step sample_viem sample_codec 1000 5000
      (world armed_enclave (awaiting 6 0 0 (time 5) ∷ []) [])
      (world fired_enclave (ready 6 1 ∷ []) (due ∷ []))
unfolding flare_hack.Trigger.is_triggered flare_hack.Latch.Tick.resume
    flare_hack.Latch.Tick.update_object
met_step = answer 6 0 0 (time 5) (λ feed. none) [] [] refl refl

armed_run : Reach sample_viem sample_codec 1000 5000 start_world (world armed_enclave [] [])
armed_run = next here arm_step

fired_run :
    Reach sample_viem sample_codec 1000 5000 start_world
      (world fired_enclave (ready 6 1 ∷ []) (due ∷ []))
fired_run = next (next (next armed_run (start 6 refl)) wait_step) met_step

Reach-IsSoundEntry_example : All (IsSoundEntry sample_viem 1000 1 (due ∷ [])) fired_enclave.intents
Reach-IsSoundEntry_example = Reach-IsSoundEntry sample_viem sample_codec 1000 5000 fired_run

answers : (handle_collect sample_codec (codes "0x43") fired_enclave).0.status ≡ 1
unfolding handle_collect commitment_of flare_hack.Encoding.hex_to_bytes
    flare_hack.Prelude.starts_with flare_hack.Hex.parse_pairs flare_hack.Json.get_field ◌===◌
    flare_hack.Latch.Commands.collect_intent get
answers = refl

collect_after_firing_example :
    (k : Text) × (i : Intent) × (commitment_of sample_codec (codes "0x43") ≡ ok k)
    × (get k fired_enclave.intents ≡ some i)
    × HasFired (due ∷ []) i
    × ((handle_collect sample_codec (codes "0x43") fired_enclave).0
        ≡ success sample_codec (collected_reply i))
collect_after_firing_example =
    collect_after_firing sample_viem sample_codec 1000 5000 (codes "0x43") fired_run answers

found : get zero_digest armed_enclave.intents ≡ some (new_intent 1 0 request)
unfolding get ◌===◌
found = refl

cancel_is_final_example :
    All (HasNoBytes 0) (handle_cancel sample_codec (codes "0x43") armed_enclave).1.intents
cancel_is_final_example =
    cancel_is_final sample_viem sample_codec 1000 5000 (codes "0x43") zero_digest
      (new_intent 1 0 request) armed_run claims found refl here

handle_collect-gate_example :
    (k : Text) × (i : Intent) × (commitment_of sample_codec (codes "0x43") ≡ ok k)
    × (get k fired_enclave.intents ≡ some i)
    × IsOut i.state
    × ((handle_collect sample_codec (codes "0x43") fired_enclave).0
        ≡ success sample_codec (collected_reply i))
handle_collect-gate_example = handle_collect-gate sample_codec (codes "0x43") fired_enclave answers

abbrev after : Enclave
after = (handle_arm sample_viem sample_codec 1000 5000 1 (codes "0x41") initial).1

handle_arm-stores_example :
    ((is_armed (get zero_digest initial.intents) ≡ true) × (after ≡ initial)
      ⊎ (is_armed (get zero_digest initial.intents) ≡ false)
        × (get zero_digest after.intents ≡ some (new_intent 1 0 request)))
    × (get (codes "0x99") after.intents ≡ (
        if zero_digest === codes "0x99"
        then get zero_digest after.intents
        else get (codes "0x99") initial.intents))
    × IsChecked sample_viem 1000 1 request
handle_arm-stores_example =
    handle_arm-stores sample_viem sample_codec 1000 5000 1 (codes "0x41") (codes "0x99") initial
      parses

cancelled_intent_fires_example :
    get zero_digest
      (resume 6 0 true (handle_cancel sample_codec (codes "0x43") armed_enclave).1).intents
    ≡ some (fire 6 (cancel (new_intent 1 0 request)))
cancelled_intent_fires_example =
    cancelled_intent_fires sample_codec (codes "0x43") zero_digest 6 armed_enclave
      (new_intent 1 0 request) claims found refl
