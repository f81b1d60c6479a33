-- ===== src/Latch/World.antt =====
-- extension/typescript/src/app/handlers.ts under an event loop: handlers run one at a time, and any
-- number of ticks is under way, each standing between two rounds or at its `await`.
pub mod Entries
pub mod Sound
pub mod Steps
pub mod Erased
use flare_hack.Prelude.{ℕ, ◌+◌, ◌≤◌, ◌≡◌, ◌⊎◌, Option, some, List, [], ◌∷◌, ◌++◌, Text}
use flare_hack.Viem.{Viem}
use flare_hack.Json.{JsonCodec}
use flare_hack.Trigger.{
  Comparator, gte, lte, Trigger, time, price, FeedReading, decimal_number, is_triggered,
}
use flare_hack.Latch.{Enclave, initial}
use flare_hack.Latch.Arm.{handle_arm}
use flare_hack.Latch.Commands.{handle_cancel, handle_collect}
use flare_hack.Latch.Tick.{finished, skipped, waiting, visit, resume}

-- A call of `tick`: its time, the iterator's position, and the object whose check it awaits.
pub data TickPhase : Type 0 where
  ready : ℕ → ℕ → TickPhase
  awaiting : ℕ → ℕ → ℕ → Trigger → TickPhase

-- A check that a tick has made of an object: what it was of, and what the feeds answered to it.
pub record Check : Type 0 where
  pub serial : ℕ
  pub trigger : Trigger
  pub now : ℕ
  pub read : Text → Option FeedReading

-- The enclave, the ticks that are under way, and the checks that have been answered.
pub record World : Type 0 where
  pub enclave : Enclave
  pub ticks : List TickPhase
  pub checks : List Check

abbrev pub start_world : World
start_world = record { enclave = initial; ticks = []; checks = [] }

-- The price meets the threshold.
abbrev pub Meets : Comparator → ℕ → ℕ → Type 0
Meets gte value threshold = threshold ≤ value
Meets lte value threshold = value ≤ threshold

-- The trigger holds at this time, by these answers of the feeds.
abbrev pub Holds : Trigger → ℕ → (Text → Option FeedReading) → Type 0
Holds (time not_before) now read = not_before ≤ now
Holds (price feed_id op value) now read =
    (r : FeedReading) × (read feed_id ≡ some r) × Meets op r.value (decimal_number 0 value)

abbrev pub IsAmong : Check → List Check → Type 0
IsAmong c [] = ⊥
IsAmong c (d ∷ checks) = (c ≡ d) ⊎ IsAmong c checks

-- One of the checks was of this object and its trigger, at this time, and by what the feeds answered
-- to this very check the trigger held.
pub record Held (checks : List Check) (serial : ℕ) (trigger : Trigger) (at : ℕ) : Type 0 where
  pub check : Check
  pub made : IsAmong check checks
  pub of_object : check.serial ≡ serial
  pub of_trigger : check.trigger ≡ trigger
  pub at_time : check.now ≡ at
  pub holds : Holds trigger at check.read

-- STATUS changes nothing and has no step. A tick that is interrupted by an exception is one that
-- takes no further step.
module _ (viem : Viem) (codec : JsonCodec) (max_deadline max_date : ℕ) where
  pub data Step (w u : World) : Type 0 where
    arm :
        (now : ℕ) (msg : Text)
        → u
          ≡ record w { enclave = (handle_arm viem codec max_deadline max_date now msg w.enclave).1 }
        → Step w u
    cancel :
        (msg : Text) → u ≡ record w { enclave = (handle_cancel codec msg w.enclave).1 } → Step w u
    collect :
        (msg : Text) → u ≡ record w { enclave = (handle_collect codec msg w.enclave).1 } → Step w u
    start : (now : ℕ) → u ≡ record w { ticks = ready now 0 ∷ w.ticks } → Step w u
    skip :
        (now position : ℕ) (before after : List TickPhase) (e : Enclave)
        → w.ticks ≡ before ++ ready now position ∷ after
        → visit now position w.enclave ≡ skipped e
        → u ≡ record w { enclave = e; ticks = before ++ ready now (position + 1) ∷ after }
        → Step w u
    wait :
        (now position serial : ℕ) (trigger : Trigger) (before after : List TickPhase)
        → w.ticks ≡ before ++ ready now position ∷ after
        → visit now position w.enclave ≡ waiting serial trigger
        → u ≡ record w { ticks = before ++ awaiting now position serial trigger ∷ after }
        → Step w u
    finish :
        (now position : ℕ) (before after : List TickPhase)
        → w.ticks ≡ before ++ ready now position ∷ after
        → visit now position w.enclave ≡ finished
        → u ≡ record w { ticks = before ++ after }
        → Step w u
    -- the check is answered, and the round goes on with the answer
    answer :
        (now position serial : ℕ) (trigger : Trigger) (read : Text → Option FeedReading)
        (before after : List TickPhase)
        → w.ticks ≡ before ++ awaiting now position serial trigger ∷ after
        → u ≡ record {
          enclave = resume now serial (is_triggered trigger now read).0 w.enclave;
          ticks = before ++ ready now (position + 1) ∷ after;
          checks =
              (record { serial = serial; trigger = trigger; now = now; read = read }) ∷ w.checks;
        }
        → Step w u

  pub data Reach (s : World) : World → Type 0 where
    here : Reach s s
    next : {w u : World} → Reach s w → Step w u → Reach s u
