-- ===== src/Watcher/Laws.antt =====
-- packages/executor/src/watcher.ts: what a poll reports.
use flare_hack.Prelude.{
  ℤ, Option-cases, ℕ, ◌≤◌, max, ◌≡◌, refl, ap, ◌∙◌, inl, inr, false, not, ◌||◌, Option, none, some,
  List, [], ◌∷◌, arith, Bool-cases, All, Text, to_lower_case,
}
use mathlib.Core.Path.{subst}
use flare_hack.Json.{Json}
use flare_hack.Dict.{get}
use flare_hack.Pending.Holds.{Extends, Extends-refl, Holds, fetch-Holds}
use flare_hack.Viem.{Viem}
use flare_hack.Pending.{PendingUserOp, PendingStore, fetch}
use flare_hack.Pending.Sound.{SameDigits, IsHonest, IsHonestStore, Fetched, fetch-Fetched}
use flare_hack.Watcher.{
  poll, ledger_index_min, AccountTxEntry, ObservedPayment, Watcher, Found, has, json_or, or_zero,
  is_false, is_payment, hash_of, is_seen, observe_pending, observe_commitment, commitment_in,
  observe, observe_all, with_found,
}

-- None of the hashes is in `seen`, and none is listed twice.
abbrev pub AreNew : List Text → List ObservedPayment → Type 0
AreNew seen [] = Unit
AreNew seen (p ∷ found) = (has p.xrpl_tx_id seen ≡ false) × AreNew (p.xrpl_tx_id ∷ seen) found

abbrev pub mark : List Text → List ObservedPayment → List Text
mark seen [] = seen
mark seen (p ∷ found) = mark (p.xrpl_tx_id ∷ seen) found

module _ (viem : Viem) where
  -- The store holds a payload under the payment's commitment that hashes to its digits, and the
  -- cursor has reached the payment's ledger.
  pub record IsHeld (w : Watcher) (p : ObservedPayment) : Type 0 where
    pub pending : PendingUserOp
    pub held : get (to_lower_case p.commitment) w.store.memory ≡ some pending
    pub same : SameDigits p.commitment pending.commitment
    pub honest : IsHonest viem pending
    pub reached : p.ledger_index ≤ w.last_ledger

  -- Nothing that `w` knew is lost in `v`.
  pub record Grows (w v : Watcher) : Type 0 where
    pub up : w.last_ledger ≤ v.last_ledger
    pub more : Extends w.store.memory v.store.memory
    pub sound : IsHonestStore viem v.store

  trans_le : {a b c : ℕ} → a ≤ b → b ≤ c → a ≤ c
  trans_le p q = omega arith

  Grows-trans : (u v w : Watcher) → Grows u v → Grows v w → Grows u w
  Grows-trans u v w a b = record {
    up = trans_le a.up b.up;
    more = λ k r h. b.more k r (a.more k r h);
    sound = b.sound;
  }

  IsHeld-Grows : (v w : Watcher) (p : ObservedPayment) → Grows v w → IsHeld v p → IsHeld w p
  IsHeld-Grows v w p g h = record {
    pending = h.pending;
    held = g.more (to_lower_case p.commitment) h.pending h.held;
    same = h.same;
    honest = h.honest;
    reached = trans_le h.reached g.up;
  }

  -- What one turn of the loop from `w` leaves.
  abbrev Turn : Watcher → Found → Type 0
  Turn w (none, v) = Grows w v × (v.seen ≡ w.seen)
  Turn w (some p, v) =
      Grows w v × (has p.xrpl_tx_id w.seen ≡ false) × (v.seen ≡ p.xrpl_tx_id ∷ w.seen) × IsHeld v p

  abbrev raised : ℕ → Watcher → Watcher
  raised index w = record w { last_ledger = max index w.last_ledger }

  raised-Grows :
      (index : ℕ) (w : Watcher) (store : PendingStore)
      → Extends w.store.memory store.memory
      → IsHonestStore viem store
      → Grows w (record w { last_ledger = max index w.last_ledger; store = store })
  raised-Grows index w store more sound = record { up = omega arith; more = more; sound = sound }

  observe_pending-Turn :
      (tx : Option Json) (c : Text) (index : ℕ) (w : Watcher) (hash : Option Text)
      (f : Option PendingUserOp × PendingStore)
      → is_seen hash w.seen ≡ false
      → Fetched viem c f
      → Holds c w.store f
      → Turn w (observe_pending tx c index (raised index w) hash f)
  observe_pending-Turn tx c index w hash (none, store) new (a, h) more =
      (raised-Grows index w store more h, refl)
  observe_pending-Turn tx c index w none (some r, store) new (a, h) (more, held) =
      (raised-Grows index w store more h, refl)
  observe_pending-Turn tx c index w (some []) (some r, store) new (a, h) (more, held) =
      (raised-Grows index w store more h, refl)
  observe_pending-Turn tx c index w (some (x ∷ hash)) (some r, store) new (a, h) (more, held) = (
    record { up = omega arith; more = more; sound = h },
    new,
    refl,
    record { pending = r; held = held; same = a.0; honest = a.1; reached = omega arith },
  )

  observe_commitment-Turn :
      (tx : Option Json) (index : ℕ) (w : Watcher) (hash c : Option Text)
      → is_seen hash w.seen ≡ false
      → IsHonestStore viem w.store
      → Turn w (observe_commitment tx index (raised index w) hash c)
  observe_commitment-Turn tx index w hash none new h =
      (raised-Grows index w w.store (Extends-refl w.store.memory) h, refl)
  observe_commitment-Turn tx index w hash (some c) new h =
      observe_pending-Turn tx c index w hash (fetch c w.store) new (fetch-Fetched viem c w.store h)
        (fetch-Holds c w.store)

  observe-Turn :
      (entry : AccountTxEntry) (w : Watcher) → IsHonestStore viem w.store → Turn w (observe entry w)
  unfolding observe
  observe-Turn entry w h =
      let tx = json_or entry.tx_json entry.tx in
      let index = or_zero entry.ledger_index in
      elim (Bool-cases (is_false entry.validated || not (is_payment tx))) [
        | inl skip ↦
            rw skip
              (record { up = omega arith; more = Extends-refl w.store.memory; sound = h }, refl)
        | inr keep ↦ elim (Bool-cases (is_seen (hash_of entry tx) w.seen)) [
          | inl old ↦
              rw (keep, old) (raised-Grows index w w.store (Extends-refl w.store.memory) h, refl)
          | inr new ↦
              rw (keep, new)
                (observe_commitment-Turn tx index w (hash_of entry tx) (commitment_in tx) new h)
        ]
      ]

  Turn-sound : (w : Watcher) (f : Found) → Turn w f → IsHonestStore viem f.1.store
  Turn-sound w (none, v) (g, same) = g.sound
  Turn-sound w (some p, v) (g, new, same, h) = g.sound

  -- What a pass over the vault's transactions from `w` leaves.
  pub record Pass (w : Watcher) (r : List ObservedPayment × Watcher) : Type 0 where
    pub grows : Grows w r.1
    pub fresh : AreNew w.seen r.0
    pub marked : r.1.seen ≡ mark w.seen r.0
    pub held : All (IsHeld r.1) r.0

  with_found-Pass :
      (w : Watcher) (o : Found) (r : List ObservedPayment × Watcher)
      → Turn w o
      → Pass o.1 r
      → Pass w (with_found o.0 r)
  with_found-Pass w (none, v) r (g, same) p = record {
    grows = Grows-trans w v r.1 g p.grows;
    fresh = subst (λ s. AreNew s r.0) same p.fresh;
    marked = p.marked ∙ ap (λ s. mark s r.0) same;
    held = p.held;
  }
  with_found-Pass w (some q, v) r (g, new, same, h) p = record {
    grows = Grows-trans w v r.1 g p.grows;
    fresh = (new, subst (λ s. AreNew s r.0) same p.fresh);
    marked = p.marked ∙ ap (λ s. mark s r.0) same;
    held = (IsHeld-Grows v r.1 q p.grows h, p.held);
  }

  observe_all-Pass :
      (entries : List AccountTxEntry) (w : Watcher)
      → IsHonestStore viem w.store
      → Pass w (observe_all entries w)
  unfolding observe_all
  observe_all-Pass [] w h = record {
    grows = record { up = omega arith; more = Extends-refl w.store.memory; sound = h };
    fresh = tt;
    marked = refl;
    held = tt;
  }
  observe_all-Pass (entry ∷ rest) w h =
      let t = observe-Turn entry w h in
      with_found-Pass w (observe entry w) (observe_all rest (observe entry w).1) t
        (observe_all-Pass rest (observe entry w).1 (Turn-sound w (observe entry w) t))

  -- What a poll leaves, where the node's answer counts.
  abbrev pub Polled : Watcher → Option (List ObservedPayment) × Watcher → Type 0
  Polled w (none, v) = v ≡ w
  Polled w (some found, v) = Pass w (found, v)

  nothing-Pass : (w : Watcher) → IsHonestStore viem w.store → Pass w ([], w)
  nothing-Pass w h = record {
    grows = record { up = omega arith; more = Extends-refl w.store.memory; sound = h };
    fresh = tt;
    marked = refl;
    held = tt;
  }

  -- Over an honest store a poll that does not throw reports only payments that were not reported
  -- before, none of them twice, and marks all of them as reported; for each the memory then holds
  -- a payload under the payment's commitment, and the payload hashes to that commitment's digits;
  -- the cursor never goes back and has reached every reported ledger; the store forgets nothing
  -- and stays honest. A poll that throws changes nothing.
  pub poll-Polled :
      (account_tx : ℤ → Option (Option (List AccountTxEntry))) (w : Watcher)
      → IsHonestStore viem w.store
      → Polled w (poll account_tx w)
  unfolding poll
  poll-Polled account_tx w h = elim (Option-cases (account_tx (ledger_index_min w))) [
    | inl failed ↦ rw (failed, Polled, poll) refl
    | inr (none, empty) ↦ rw (empty, Polled, poll) (nothing-Pass w h)
    | inr (some entries, found) ↦ rw (found, Polled, poll) (observe_all-Pass entries w h)
  ]
