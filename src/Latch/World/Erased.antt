-- ===== src/Latch/World/Erased.antt =====
-- Bytes that were dropped stay dropped, and what a COLLECT can release.
use flare_hack.Prelude.{
  ℕ, ◌+◌, ◌<◌, ◌≡◌, refl, inl, inr, Bool, true, false, some, arith, All, ok, Text, codes, ===_refl,
}
use flare_hack.Viem.{Viem}
use flare_hack.Json.{JsonCodec}
use flare_hack.Dict.{get, set, All-get, All-set, get-set}
use flare_hack.Trigger.{is_triggered}
use flare_hack.Latch.{Intent, Enclave, armed, commitment_of, success}
use flare_hack.Latch.Arm.{new_intent, handle_arm}
use flare_hack.Latch.Commands.{put, handle_cancel, handle_collect, cancel_intent, collected_reply}
use flare_hack.Latch.Commands.Gate.{handle_collect-gate}
use flare_hack.Latch.Tick.{update_object, expire, fire, resume}
use flare_hack.Latch.Effects.{
  cancel, collect, handle_arm-effect, handle_cancel-effect, handle_collect-effect, visit-skipped,
}
use flare_hack.Latch.World.{
  World, start_world, Step, arm, start, skip, wait, finish, answer, Reach, here, next,
}
use flare_hack.Latch.World.Entries.{set-own, HasFired, All-update_object, get-update_object}
use flare_hack.Latch.World.Steps.{Reach-IsSound, start_world-IsSound, Reach-IsSoundEntry}

-- Whatever entry holds this object holds no bytes.
abbrev pub HasNoBytes : ℕ → Text × Intent → Type 0
HasNoBytes serial entry = entry.1.serial ≡ serial → entry.1.user_op_data ≡ codes "0x"

pub record IsErased (serial : ℕ) (e : Enclave) : Type 0 where
  pub erased : All (HasNoBytes serial) e.intents
  pub serial_lt : serial < e.armed_total

module _ {serial : ℕ} {e : Enclave} (h : IsErased serial e) where
  put-IsErased :
      (k : Text) (i v : Intent)
      → get k e.intents ≡ some i
      → (HasNoBytes serial (k, i) → HasNoBytes serial (k, v))
      → IsErased serial (put k v e)
  put-IsErased k i v found keep = record {
    erased = All-set _ k v e.intents h.erased (keep (All-get _ k e.intents h.erased found));
    serial_lt = h.serial_lt;
  }

  update-IsErased :
      (s : ℕ) (f : Intent → Intent) (total : ℕ)
      → ((k : Text) (i : Intent) → HasNoBytes serial (k, i) → HasNoBytes serial (k, f i))
      → IsErased serial (record e { intents = update_object s f e.intents; fired_total = total })
  update-IsErased s f total keep = record {
    erased = All-update_object _ _ s f e.intents (λ k i _ p. keep k i p) (λ k i _ p. p) h.erased;
    serial_lt = h.serial_lt;
  }

pub handle_cancel-armed :
    (codec : JsonCodec) (msg k : Text) (e : Enclave) (i : Intent)
    → commitment_of codec msg ≡ ok k
    → get k e.intents ≡ some i
    → i.state ≡ armed
    → (handle_cancel codec msg e).1 ≡ put k (cancel i) e
unfolding handle_cancel cancel_intent
handle_cancel-armed codec msg k e i read found unfired = rw (read, found) (ground arith)

-- A CANCEL that succeeds while a tick awaits the intent's check does not stop the tick: if the
-- check then answers that the trigger holds, the entry is fired, with no bytes left in it.
pub cancelled_intent_fires :
    (codec : JsonCodec) (msg k : Text) (now : ℕ) (e : Enclave) (i : Intent)
    → commitment_of codec msg ≡ ok k
    → get k e.intents ≡ some i
    → i.state ≡ armed
    → get k (resume now i.serial true (handle_cancel codec msg e).1).intents
      ≡ some (fire now (cancel i))
unfolding resume
cancelled_intent_fires codec msg k now e i read found unfired =
    rw (handle_cancel-armed codec msg k e i read found unfired) (
      get-update_object k i.serial (fire now) (set k (cancel i) e.intents) {i = cancel i}
        (rw (get-set k k (cancel i) e.intents, ===_refl k)) refl)

resume-IsErased :
    {serial : ℕ} (now s : ℕ) (met : Bool) (e : Enclave)
    → IsErased serial e
    → IsErased serial (resume now s met e)
unfolding resume
resume-IsErased now s false e h = h
resume-IsErased now s true e h = update-IsErased h s (fire now) (e.fired_total + 1) (λ _ _ p. p)

module _ (viem : Viem) (codec : JsonCodec) (max_deadline max_date : ℕ) where
  arm-IsErased :
      {serial : ℕ} (now : ℕ) (msg : Text) (e : Enclave)
      → IsErased serial e
      → IsErased serial (handle_arm viem codec max_deadline max_date now msg e).1
  arm-IsErased now msg e h = elim (handle_arm-effect viem codec max_deadline max_date now msg e) [
    | inl same ↦ rw same h
    | inr (r, _, changed) ↦ rw changed (record {
      erased =
          All-set _ r.commitment (new_intent now e.armed_total r) e.intents h.erased
            (λ same. absurd (omega (arith, same, h.serial_lt)));
      serial_lt = omega (arith, h.serial_lt);
    })
  ]

  cancel-IsErased :
      {serial : ℕ} (msg : Text) (e : Enclave)
      → IsErased serial e
      → IsErased serial (handle_cancel codec msg e).1
  cancel-IsErased msg e h = elim (handle_cancel-effect codec msg e) [
    | inl same ↦ rw same h
    | inr (k, i, found, _, changed) ↦ rw changed (put-IsErased h k i (cancel i) found (λ _ _. refl))
  ]

  collect-IsErased :
      {serial : ℕ} (msg : Text) (e : Enclave)
      → IsErased serial e
      → IsErased serial (handle_collect codec msg e).1
  collect-IsErased msg e h = elim (handle_collect-effect codec msg e) [
    | inl same ↦ rw same h
    | inr (k, i, found, _, changed) ↦ rw changed (put-IsErased h k i (collect i) found (λ p. p))
  ]

  Step-IsErased :
      {serial : ℕ} {w u : World}
      → Step viem codec max_deadline max_date w u
      → IsErased serial w.enclave
      → IsErased serial u.enclave
  Step-IsErased {w = w} (arm now msg e) h = rw e (arm-IsErased now msg w.enclave h)
  Step-IsErased {w = w} (Step.cancel msg e) h = rw e (cancel-IsErased msg w.enclave h)
  Step-IsErased {w = w} (Step.collect msg e) h = rw e (collect-IsErased msg w.enclave h)
  Step-IsErased (start now e) h = rw e h
  Step-IsErased {w = w} (skip now position before after e split v u) h =
      rw u (elim (visit-skipped now position w.enclave v) [
        | inl same ↦ rw same h
        | inr (i, changed) ↦
            rw changed (update-IsErased h i.serial expire w.enclave.fired_total (λ _ _ _ _. refl))
      ])
  Step-IsErased (wait now position serial trigger before after split v u) h = rw u h
  Step-IsErased (finish now position before after split v u) h = rw u h
  Step-IsErased {w = w} (answer now position s trigger read before after split u) h =
      rw u (resume-IsErased now s (is_triggered trigger now read).0 w.enclave h)

  Reach-IsErased :
      {serial : ℕ} {w u : World}
      → Reach viem codec max_deadline max_date w u
      → IsErased serial w.enclave
      → IsErased serial u.enclave
  Reach-IsErased here h = h
  Reach-IsErased (next r st) h = Step-IsErased st (Reach-IsErased r h)

  -- A CANCEL that finds an armed intent: after any further handlers and ticks, no entry that holds
  -- its object has bytes to release.
  pub cancel_is_final :
      {w u : World} (msg k : Text) (i : Intent)
      → Reach viem codec max_deadline max_date start_world w
      → commitment_of codec msg ≡ ok k
      → get k w.enclave.intents ≡ some i
      → i.state ≡ armed
      → Reach viem codec max_deadline max_date
          (record w { enclave = (handle_cancel codec msg w.enclave).1 })
          u
      → All (HasNoBytes i.serial) u.enclave.intents
  cancel_is_final {w} msg k i before read found unfired after =
      let sound =
        (Reach-IsSound viem codec max_deadline max_date before
          (start_world-IsSound viem codec max_deadline max_date)).enclave in
      (Reach-IsErased after (
        rw (handle_cancel-armed codec msg k w.enclave i read found unfired) (record {
          erased =
              set-own (λ x. x.user_op_data ≡ codes "0x") k (cancel i) w.enclave.intents found refl
                sound.own;
          serial_lt = (All-get _ k w.enclave.intents sound.entries found).serial_lt;
        }))).erased

  -- In every run, a COLLECT that answers with status 1 gives the bytes of the intent that the enclave holds under the commitment asked for, and that intent has fired: a check that a tick made of this very object, at the recorded time and before the deadline, was answered by feeds that met its trigger.
  pub collect_after_firing :
      {w : World} (msg : Text)
      → Reach viem codec max_deadline max_date start_world w
      → (handle_collect codec msg w.enclave).0.status ≡ 1
      → (k : Text) × (i : Intent) × (commitment_of codec msg ≡ ok k)
        × (get k w.enclave.intents ≡ some i)
        × HasFired w.checks i
        × ((handle_collect codec msg w.enclave).0 ≡ success codec (collected_reply i))
  collect_after_firing {w} msg r answered =
      let (k, i, asked, found, out, same) = handle_collect-gate codec msg w.enclave answered in
      let sound =
        All-get _ k w.enclave.intents (Reach-IsSoundEntry viem codec max_deadline max_date r)
          found in
      (k, i, asked, found, sound.released (ground arith), same)
