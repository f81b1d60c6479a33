-- ===== src/Latch/World/Steps.antt =====
-- The invariant of the event loop, kept by every step.
use flare_hack.Prelude.{
  ℕ, ◌+◌, ◌≡◌, refl, inl, inr, Bool, true, false, Option, List, ◌∷◌, ◌++◌, All, All-append, Text,
  All-mono, All-split,
}
use flare_hack.Viem.{Viem}
use flare_hack.Json.{JsonCodec}
use flare_hack.Dict.{All-get}
use flare_hack.Trigger.{Trigger, FeedReading, is_triggered}
use flare_hack.Latch.{Enclave}
use flare_hack.Latch.Arm.{handle_arm}
use flare_hack.Latch.Arm.Laws.{parse_arm-IsChecked}
use flare_hack.Latch.Commands.{put, handle_cancel, handle_collect}
use flare_hack.Latch.Tick.{
  expire, update_object, fire, skipped, update_object, expire, fire, visit, resume,
}
use flare_hack.Latch.Effects.{
  visit-skipped, with_armed, cancel, collect, handle_arm-effect, handle_cancel-effect,
  handle_collect-effect,
}
use flare_hack.Latch.World.{
  start_world, TickPhase, ready, awaiting, World, Check, Holds, start_world, Step, Reach, here,
  next, arm, start, skip, wait, finish, answer,
}
use flare_hack.Latch.World.Entries.{IsSoundEntry, cancel-IsSoundEntry, collect-IsSoundEntry}
use flare_hack.Latch.World.Sound.{
  IsAwaited, TickIsSound, IsSoundEnclave, with_armed-IsSound, put-IsSound, expire-IsSound,
  fire-IsSound, IsSoundEnclave-check, is_triggered-Holds, with_armed-IsAwaited, put-IsAwaited,
  update-IsAwaited, visit-IsAwaited,
}

tick-survives :
    {old : Enclave} (new : Enclave)
    → ((now serial : ℕ) (trigger : Trigger)
        → IsAwaited old now serial trigger
        → IsAwaited new now serial trigger)
    → (t : TickPhase) → TickIsSound old t
    → TickIsSound new t
tick-survives new survive (ready now position) h = tt
tick-survives new survive (awaiting now position serial trigger) h = survive now serial trigger h

-- What holds of the enclave and of every tick that is under way.
module _ (viem : Viem) (codec : JsonCodec) (max_deadline max_date : ℕ) where
  pub record IsSound (w : World) : Type 0 where
    pub enclave : IsSoundEnclave viem max_deadline w.checks w.enclave
    pub ticks : All (TickIsSound w.enclave) w.ticks

  -- A change of the enclave that every waiting tick survives.
  changed-IsSound :
      {w : World} (e : Enclave)
      → IsSound w
      → IsSoundEnclave viem max_deadline w.checks e
      → ((now serial : ℕ) (trigger : Trigger)
          → IsAwaited w.enclave now serial trigger
          → IsAwaited e now serial trigger)
      → IsSound (record w { enclave = e })
  changed-IsSound {w} e h sound survive = record {
    enclave = sound;
    ticks = All-mono w.ticks (λ t s. tick-survives e survive t s) h.ticks;
  }

  arm-IsSound :
      (w : World) (now : ℕ) (msg : Text)
      → IsSound w
      → IsSound
          (record w { enclave = (handle_arm viem codec max_deadline max_date now msg w.enclave).1 })
  arm-IsSound w now msg h =
      elim (handle_arm-effect viem codec max_deadline max_date now msg w.enclave) [
        | inl same ↦ rw same h
        | inr (r, parsed, changed) ↦ rw changed (
            changed-IsSound (with_armed now r w.enclave) h
              (with_armed-IsSound viem max_deadline w.checks w.enclave h.enclave now r
                (parse_arm-IsChecked viem codec max_deadline now msg parsed))
              (λ _ _ _ a. with_armed-IsAwaited a now r))
      ]

  cancel-IsSound :
      (w : World) (msg : Text)
      → IsSound w
      → IsSound (record w { enclave = (handle_cancel codec msg w.enclave).1 })
  cancel-IsSound w msg h = elim (handle_cancel-effect codec msg w.enclave) [
    | inl same ↦ rw same h
    | inr (k, i, found, _, changed) ↦ rw changed (
        changed-IsSound (put k (cancel i) w.enclave) h
          (put-IsSound viem max_deadline w.checks w.enclave h.enclave k i (cancel i) found refl (
            cancel-IsSoundEntry viem max_deadline
              (All-get _ k w.enclave.intents h.enclave.entries found)))
          (λ _ _ _ a. put-IsAwaited a k i (cancel i) found (λ knows. knows)))
  ]

  collect-IsSound :
      (w : World) (msg : Text)
      → IsSound w
      → IsSound (record w { enclave = (handle_collect codec msg w.enclave).1 })
  collect-IsSound w msg h = elim (handle_collect-effect codec msg w.enclave) [
    | inl same ↦ rw same h
    | inr (k, i, found, out, changed) ↦ rw changed (
        changed-IsSound (put k (collect i) w.enclave) h
          (put-IsSound viem max_deadline w.checks w.enclave h.enclave k i (collect i) found refl (
            collect-IsSoundEntry viem max_deadline
              (All-get _ k w.enclave.intents h.enclave.entries found) out))
          (λ _ _ _ a. put-IsAwaited a k i (collect i) found (λ knows. knows)))
  ]

  -- A tick goes on while the enclave changes.
  advance-IsSound :
      {w : World} (e : Enclave) (checks : List Check) (old new : TickPhase)
      (before after : List TickPhase)
      → w.ticks ≡ before ++ old ∷ after
      → IsSound w
      → IsSoundEnclave viem max_deadline checks e
      → ((now serial : ℕ) (trigger : Trigger)
          → IsAwaited w.enclave now serial trigger
          → IsAwaited e now serial trigger)
      → TickIsSound e new
      → IsSound (record { enclave = e; ticks = before ++ new ∷ after; checks = checks })
  advance-IsSound {w} e checks old new before after split h sound survive new_sound =
      let (b, _, a) = All-split (TickIsSound w.enclave) before after (rw split at h.ticks) in
      record {
        enclave = sound;
        ticks =
            All-append _ before (new ∷ after)
              (All-mono before (λ t s. tick-survives e survive t s) b)
              (new_sound, All-mono after (λ t s. tick-survives e survive t s) a);
      }

  skip-IsSound :
      (w : World) (now position : ℕ) (before after : List TickPhase) (e : Enclave)
      → w.ticks ≡ before ++ ready now position ∷ after
      → visit now position w.enclave ≡ skipped e
      → IsSound w
      → IsSound (record w { enclave = e; ticks = before ++ ready now (position + 1) ∷ after })
  skip-IsSound w now position before after e split v h =
      elim (visit-skipped now position w.enclave v) [
        | inl same ↦ rw same (
            advance-IsSound w.enclave w.checks (ready now position) (ready now (position + 1))
              before after split h h.enclave (λ _ _ _ a. a) tt)
        | inr (i, changed) ↦ rw changed (
            advance-IsSound
              (record w.enclave { intents = update_object i.serial expire w.enclave.intents })
              w.checks (ready now position) (ready now (position + 1)) before after split h
              (expire-IsSound viem max_deadline w.checks w.enclave h.enclave i.serial)
              (λ _ _ _ a.
                update-IsAwaited a i.serial expire w.enclave.fired_total (λ k j knows. knows))
              tt)
      ]

  answer-IsSound :
      (w : World) (now position serial : ℕ) (trigger : Trigger) (read : Text → Option FeedReading)
      (met : Bool) (before after : List TickPhase)
      → w.ticks ≡ before ++ awaiting now position serial trigger ∷ after
      → (met ≡ true → Holds trigger now read)
      → IsSound w
      → IsSound (record {
        enclave = resume now serial met w.enclave;
        ticks = before ++ ready now (position + 1) ∷ after;
        checks = (record { serial = serial; trigger = trigger; now = now; read = read }) ∷ w.checks;
      })
  answer-IsSound w now position serial trigger read false before after split holds h =
      let c : Check = record { serial = serial; trigger = trigger; now = now; read = read } in
      unfold resume in
      advance-IsSound w.enclave (c ∷ w.checks) (awaiting now position serial trigger) _ before after
        split h (IsSoundEnclave-check viem max_deadline c w.enclave h.enclave) (λ _ _ _ a. a) tt
  answer-IsSound w now position serial trigger read true before after split holds h =
      let c : Check = record { serial = serial; trigger = trigger; now = now; read = read } in
      let (_, awaited, _) = All-split (TickIsSound w.enclave) before after (rw split at h.ticks) in
      advance-IsSound (resume now serial true w.enclave) (c ∷ w.checks)
        (awaiting now position serial trigger) (ready now (position + 1)) before after split h
        (fire-IsSound viem max_deadline (c ∷ w.checks) w.enclave
          (IsSoundEnclave-check viem max_deadline c w.enclave h.enclave) now serial trigger awaited
          (record {
            check = c;
            made = inl refl;
            of_object = refl;
            of_trigger = refl;
            at_time = refl;
            holds = holds refl;
          }))
        (λ _ _ _ a.
          unfold resume in
          update-IsAwaited a serial (fire now) (w.enclave.fired_total + 1) (λ k j knows. knows))
        tt

  pub Step-IsSound :
      {w u : World} → Step viem codec max_deadline max_date w u → IsSound w → IsSound u
  Step-IsSound {w} (arm now msg e) h = rw e (arm-IsSound w now msg h)
  Step-IsSound {w} (Step.cancel msg e) h = rw e (cancel-IsSound w msg h)
  Step-IsSound {w} (Step.collect msg e) h = rw e (collect-IsSound w msg h)
  Step-IsSound (start now e) h = rw e (record { enclave = h.enclave; ticks = (tt, h.ticks) })
  Step-IsSound {w} (skip now position before after e split v u) h =
      rw u (skip-IsSound w now position before after e split v h)
  Step-IsSound {w} (wait now position serial trigger before after split v u) h = rw u (
      advance-IsSound w.enclave w.checks (ready now position) _ before after split h h.enclave
        (λ _ _ _ a. a)
        (visit-IsAwaited viem max_deadline w.checks now position w.enclave h.enclave v))
  Step-IsSound {w} (finish now position before after split v u) h =
      let (b, _, a) = All-split (TickIsSound w.enclave) before after (rw split at h.ticks) in
      rw u (record { enclave = h.enclave; ticks = All-append _ before after b a })
  Step-IsSound {w} (answer now position serial trigger read before after split u) h = rw u (
      answer-IsSound w now position serial trigger read (is_triggered trigger now read).0 before
        after split (is_triggered-Holds trigger now read) h)

  pub Reach-IsSound :
      {s w : World} → Reach viem codec max_deadline max_date s w → IsSound s → IsSound w
  Reach-IsSound here h = h
  Reach-IsSound (next r st) h = Step-IsSound st (Reach-IsSound r h)

  pub start_world-IsSound : IsSound start_world
  start_world-IsSound = record { enclave = record { entries = tt; own = tt }; ticks = tt }

  -- Whatever is armed, cancelled and collected while any number of ticks runs, every intent of the enclave is filed under the commitment of its object; its bytes are 0x or hash to the commitment, and are 0x once it is cancelled or expired; its deadline lies after the arming, by max_deadline at most; and if it is fired or collected then one of the checks that the ticks have made was of this very object and its trigger, at the recorded time, which is before the deadline, and what the feeds answered to that check met the trigger: for a time trigger the time had come, for a price trigger a reading was given, at or above the threshold for GTE, at or below it for LTE.
  pub Reach-IsSoundEntry :
      {w : World}
      → Reach viem codec max_deadline max_date start_world w
      → All (IsSoundEntry viem max_deadline w.enclave.armed_total w.checks) w.enclave.intents
  Reach-IsSoundEntry r = (Reach-IsSound r start_world-IsSound).enclave.entries
