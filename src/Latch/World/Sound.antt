-- ===== src/Latch/World/Sound.antt =====
-- The invariant of the enclave, kept by every step of the event loop.
use flare_hack.Prelude.{
  ℕ, ◌<◌, ◌≡◌, refl, sym, ◌∙◌, inl, inr, ◌≢◌, true, false, Option, some, Option-cases, List, ◌∷◌,
  arith, All, Text, All-mono, All-both,
}
use flare_hack.Viem.{Viem}
use flare_hack.Dict.{get, All-get, All-set}
use flare_hack.Trigger.{
  Comparator, gte, lte, Trigger, time, price, FeedReading, decimal_number, compares, is_triggered,
}
use flare_hack.Latch.{Intent, Enclave}
use flare_hack.Latch.Arm.{ArmRequest, new_intent}
use flare_hack.Latch.Arm.Laws.{IsChecked}
use flare_hack.Latch.Commands.{put}
use flare_hack.Latch.Tick.{update_object, expire, fire, visit, resume, waiting}
use flare_hack.Latch.Effects.{with_armed, visit-waiting}
use flare_hack.Latch.World.{TickPhase, Check, ready, awaiting, Meets, Holds, Held}
use flare_hack.Latch.World.Entries.{
  IsSoundEntry, expire-IsSoundEntry, fire-IsSoundEntry, IsSoundEntry-mono, IsSoundEntry-check,
  HasOwnSerials, All-update_object, HasOwnSerials-update_object, HasOwnSerials-set,
  HasOwnSerials-set_self, entry_at_own, All-entry_at,
}

-- What a tick at its `await` knows of the object that it holds.
abbrev pub Knows : ℕ → ℕ → Trigger → Text × Intent → Type 0
Knows now serial trigger entry =
    entry.1.serial ≡ serial → (entry.1.trigger ≡ trigger) × (now < entry.1.deadline)

pub record IsAwaited (e : Enclave) (now serial : ℕ) (trigger : Trigger) : Type 0 where
  pub known : All (Knows now serial trigger) e.intents
  pub serial_lt : serial < e.armed_total

abbrev pub TickIsSound : Enclave → TickPhase → Type 0
TickIsSound e (ready now position) = Unit
TickIsSound e (awaiting now position serial trigger) = IsAwaited e now serial trigger

module _ (viem : Viem) (max_deadline : ℕ) (checks : List Check) where
  pub record IsSoundEnclave (e : Enclave) : Type 0 where
    pub entries : All (IsSoundEntry viem max_deadline e.armed_total checks) e.intents
    pub own : HasOwnSerials e.intents

  -- Both invariants of an enclave after each kind of write.
  module _ (e : Enclave) (h : IsSoundEnclave e) where
    pub with_armed-IsSound :
        (now : ℕ) (r : ArmRequest)
        → IsChecked viem max_deadline now r
        → IsSoundEnclave (with_armed now r e)
    with_armed-IsSound now r checked = record {
      entries =
          All-set _ r.commitment (new_intent now e.armed_total r) e.intents
            (All-mono e.intents (λ x s. IsSoundEntry-mono viem max_deadline s (omega arith))
              h.entries)
            (record {
              key = refl;
              serial_lt = omega arith;
              wiped = λ x. cc;
              released = λ x. cc;
              bound = inr checked.hashed;
              after_arming = checked.later;
              limited = checked.limited;
            });
      own =
          HasOwnSerials-set r.commitment (new_intent now e.armed_total r) e.intents
            (All-mono e.intents (λ x s. λ same. omega (arith, s.serial_lt, same)) h.entries) h.own;
    }

    pub put-IsSound :
        (k : Text) (i v : Intent)
        → get k e.intents ≡ some i
        → v.serial ≡ i.serial
        → IsSoundEntry viem max_deadline e.armed_total checks (k, v)
        → IsSoundEnclave (put k v e)
    put-IsSound k i v found same s = record {
      entries = All-set _ k v e.intents h.entries s;
      own = HasOwnSerials-set_self k v e.intents found same h.own;
    }

    pub expire-IsSound :
        (serial : ℕ) → IsSoundEnclave (record e { intents = update_object serial expire e.intents })
    expire-IsSound serial = record {
      entries =
          All-update_object _ _ serial expire e.intents
            (λ k i _ s. expire-IsSoundEntry viem max_deadline s) (λ k i _ s. s) h.entries;
      own = HasOwnSerials-update_object serial expire e.intents (λ i. refl) h.own;
    }

    pub fire-IsSound :
        (now serial : ℕ) (trigger : Trigger)
        → IsAwaited e now serial trigger
        → Held checks serial trigger now
        → IsSoundEnclave (resume now serial true e)
    unfolding resume
    fire-IsSound now serial trigger awaited held = record {
      entries =
          All-update_object
            (λ x.
              IsSoundEntry viem max_deadline e.armed_total checks x × Knows now serial trigger x)
            _ serial (fire now) e.intents
            (λ k i same both.
              let (met_trigger, early) = both.1 same in
              fire-IsSoundEntry viem max_deadline both.0 now early (rw met_trigger (rw same held)))
            (λ k i _ both. both.0) (All-both _ _ e.intents h.entries awaited.known);
      own = HasOwnSerials-update_object serial (fire now) e.intents (λ i. refl) h.own;
    }

false_not_true : false ≢ true
false_not_true e = cc

compares-Meets :
    (op : Comparator) (value threshold : ℕ)
    → compares op value threshold ≡ true
    → Meets op value threshold
compares-Meets gte value threshold h = ground arith
compares-Meets lte value threshold h = ground arith

-- A check that answers yes has been answered by feeds that meet the trigger.
pub is_triggered-Holds :
    (trigger : Trigger) (now : ℕ) (read : Text → Option FeedReading)
    → (is_triggered trigger now read).0 ≡ true
    → Holds trigger now read
unfolding is_triggered
is_triggered-Holds (time not_before) now read h = ground arith
is_triggered-Holds (price feed_id op value) now read h = elim (Option-cases (read feed_id)) [
  | inl absent ↦ absurd (false_not_true (rw absent at h))
  | inr (r, answered) ↦
      (r, answered, compares-Meets op r.value (decimal_number 0 value) (rw answered at h))
]

-- One more check takes nothing away.
pub IsSoundEnclave-check :
    (viem : Viem) (max_deadline : ℕ) {checks : List Check} (c : Check) (e : Enclave)
    → IsSoundEnclave viem max_deadline checks e
    → IsSoundEnclave viem max_deadline (c ∷ checks) e
IsSoundEnclave-check viem max_deadline c e h = record {
  entries = All-mono e.intents (λ x s. IsSoundEntry-check viem max_deadline s c) h.entries;
  own = h.own;
}

-- What a waiting tick knows stays true, whatever runs meanwhile.
module _ {e : Enclave} {now serial : ℕ} {trigger : Trigger}
    (a : IsAwaited e now serial trigger) where
  pub with_armed-IsAwaited :
      (at : ℕ) (r : ArmRequest) → IsAwaited (with_armed at r e) now serial trigger
  with_armed-IsAwaited at r = record {
    known =
        All-set _ r.commitment (new_intent at e.armed_total r) e.intents a.known
          (λ same. absurd (omega (arith, same, a.serial_lt)));
    serial_lt = omega (arith, a.serial_lt);
  }

  pub put-IsAwaited :
      (k : Text) (i v : Intent)
      → get k e.intents ≡ some i
      → (Knows now serial trigger (k, i) → Knows now serial trigger (k, v))
      → IsAwaited (put k v e) now serial trigger
  put-IsAwaited k i v found same = record {
    known = All-set _ k v e.intents a.known (same (All-get _ k e.intents a.known found));
    serial_lt = a.serial_lt;
  }

  pub update-IsAwaited :
      (s : ℕ) (f : Intent → Intent) (total : ℕ)
      → ((k : Text) (i : Intent)
          → Knows now serial trigger (k, i)
          → Knows now serial trigger (k, f i))
      → IsAwaited
          (record e { intents = update_object s f e.intents; fired_total = total })
          now
          serial
          trigger
  update-IsAwaited s f total same = record {
    known = All-update_object _ _ s f e.intents (λ k i _ p. same k i p) (λ k i _ p. p) a.known;
    serial_lt = a.serial_lt;
  }

-- A tick that begins to wait knows what the round has tested.
pub visit-IsAwaited :
    (viem : Viem) (max_deadline : ℕ) (checks : List Check) (now position : ℕ) (e : Enclave)
    {serial : ℕ} {trigger : Trigger}
    → IsSoundEnclave viem max_deadline checks e
    → visit now position e ≡ waiting serial trigger
    → IsAwaited e now serial trigger
visit-IsAwaited viem max_deadline checks now position e h v =
    let (i, found, s, t, early) = visit-waiting now position e v in
    record {
      known =
          All-mono e.intents
            (λ x own same. let at : x.1 ≡ i = own (same ∙ s) in (rw at (sym t), rw at early))
            (entry_at_own position e.intents found h.own);
      serial_lt = rw s (All-entry_at _ position e.intents h.entries found).1.serial_lt;
    }
