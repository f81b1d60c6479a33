-- ===== src/Latch/Commands/Gate.antt =====
-- extension/typescript/src/app/handlers.ts: who is given the bytes.
use flare_hack.Prelude.{◌≡◌, refl, ◌⊎◌, inl, inr, Option, none, some, arith, ok, Except-cases, Text}
use flare_hack.Json.{JsonCodec}
use flare_hack.Dict.{get}
use flare_hack.Latch.{IntentState, fired, collected, Intent, Enclave, success, commitment_of}
use flare_hack.Latch.Commands.{collected_reply, collect_intent, handle_collect}

abbrev pub IsOut : IntentState → Type 0
IsOut s = (s ≡ fired) ⊎ (s ≡ collected)

module _ (codec : JsonCodec) where
  collect_intent-gate :
      (k : Text) (e : Enclave) (found : Option Intent)
      → (collect_intent codec k e found).0.status ≡ 1
      → (i : Intent) × (found ≡ some i)
        × IsOut i.state
        × ((collect_intent codec k e found).0 ≡ success codec (collected_reply i))
  unfolding collect_intent
  collect_intent-gate k e none h = absurd (omega (arith, h))
  collect_intent-gate k e (some i) h = (i, refl, ground arith, ground arith)

  -- COLLECT answers with status 1 only for an intent that is fired or collected, and then with the
  -- bytes of that intent.
  pub handle_collect-gate :
      (msg : Text) (e : Enclave)
      → (handle_collect codec msg e).0.status ≡ 1
      → (k : Text) × (i : Intent) × (commitment_of codec msg ≡ ok k)
        × (get k e.intents ≡ some i)
        × IsOut i.state
        × ((handle_collect codec msg e).0 ≡ success codec (collected_reply i))
  unfolding handle_collect
  handle_collect-gate msg e h = elim (Except-cases (commitment_of codec msg)) [
    | inl (k, read) ↦
        let (i, found, out, answered) = collect_intent-gate k e (get k e.intents) (rw read at h) in
        (k, i, read, found, out, rw read answered)
    | inr (x, failed) ↦ absurd (ground arith)
  ]
