-- ===== src/Latch/Tick.antt =====
-- extension/typescript/src/app/handlers.ts: `tick`, cut at its `await`.
use flare_hack.Prelude.{
  ℕ, zero, suc, ◌+◌, Bool, true, false, Option, none, some, [], ◌∷◌, leb, ◌==◌, if◌then◌else◌,
  length, Text, codes,
}
use flare_hack.Dict.{Dict}
use flare_hack.Trigger.{Trigger, FeedReading, is_triggered}
use flare_hack.Latch.{armed, fired, expired, Intent, Enclave}

-- What one round of the loop does before `await check(…)`.
pub data Visit : Type 0 where
  -- the iterator is at its end
  finished : Visit
  -- `continue`, with the enclave after the round
  skipped : Enclave → Visit
  -- the check of this object's trigger is under way
  waiting : ℕ → Trigger → Visit

-- The entry at a position of the map; the iterator sees the entries that are there now.
abbrev pub entry_at : ℕ → Dict Intent → Option Intent
entry_at n [] = none
entry_at zero ((_, i) ∷ m) = some i
entry_at (suc n) (_ ∷ m) = entry_at n m

-- A write through the object with this serial number. An object that is no longer in the map is not
-- reached by any later operation.
unfoldable pub update_object : ℕ → (Intent → Intent) → Dict Intent → Dict Intent
update_object serial f [] = []
update_object serial f ((k, i) ∷ m) =
    (k, if i.serial == serial then f i else i) ∷ update_object serial f m

abbrev pub expire : Intent → Intent
expire i = record i { state = expired; user_op_data = codes "0x" }

abbrev pub fire : ℕ → Intent → Intent
fire now i = record i { state = fired; fired_at = some now }

abbrev visit_armed : ℕ → Enclave → Intent → Visit
visit_armed now e i =
    if leb i.deadline now
    then skipped (record e { intents = update_object i.serial expire e.intents })
    else waiting i.serial i.trigger

abbrev visit_intent : ℕ → Enclave → Option Intent → Visit
visit_intent now e none = finished
visit_intent now e (some i) = elim i.state [ armed ↦ visit_armed now e i | _ ↦ skipped e ]

unfoldable pub visit : ℕ → ℕ → Enclave → Visit
visit now position e = visit_intent now e (entry_at position e.intents)

-- What the round does when the check has answered.
unfoldable pub resume : ℕ → ℕ → Bool → Enclave → Enclave
resume now serial false e = e
resume now serial true e = record e {
  intents = update_object serial (fire now) e.intents;
  fired_total = e.fired_total + 1;
}

abbrev pub length_of : Enclave → ℕ
length_of e = length e.intents

-- A tick during which nothing else runs. No round adds an entry, so `rounds` is the number of
-- entries that the iterator has not reached.
unfoldable pub tick_from : ℕ → (Text → Option FeedReading) → ℕ → ℕ → Enclave → Enclave
tick_from now read zero position e = e
tick_from now read (suc rounds) position e = elim (visit now position e) [
  | finished ↦ e
  | skipped e' ↦ tick_from now read rounds (position + 1) e'
  | waiting serial trigger ↦
      tick_from now read rounds (position + 1)
        (resume now serial (is_triggered trigger now read).0 e)
]

unfoldable pub tick : ℕ → (Text → Option FeedReading) → Enclave → Enclave
unfolding tick_from visit resume
tick now read e = tick_from now read (length_of e) 0 e
