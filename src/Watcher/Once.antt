-- ===== src/Watcher/Once.antt =====
-- packages/executor/src/watcher.ts: polls between which payloads are registered and the cursor is set.
use mathlib.Core.Path.{subst}
use flare_hack.Prelude.{ℕ, ◌≡◌, refl, sym, ap, Option, none, some, List, [], ◌∷◌, ◌++◌, ℤ, Text}
use flare_hack.Disk.{Write}
use flare_hack.Viem.{Viem}
use flare_hack.Pending.{Entry, register}
use flare_hack.Pending.Sound.{IsHonestStore, register-IsHonestStore}
use flare_hack.Watcher.{AccountTxEntry, ObservedPayment, Watcher, set_start_ledger, poll}
use flare_hack.Watcher.Laws.{AreNew, mark, poll-Polled, Polled}

pub data Happening : Type 0 where
  polled : (ℤ → Option (Option (List AccountTxEntry))) → Happening
  registered : ℕ → Write → Entry → Happening
  started : ℕ → Happening

abbrev reported : Option (List ObservedPayment) → List ObservedPayment
reported none = []
reported (some found) = found

-- What the caller is handed by one event, and the watcher after it.
abbrev pub happen : Viem → Happening → Watcher → List ObservedPayment × Watcher
happen viem (polled account_tx) w = let r = poll account_tx w in (reported r.0, r.1)
happen viem (registered now can entry) w =
    ([], record w { store = (register viem now can entry w.store).1 })
happen viem (started index) w = ([], set_start_ledger index w)

unfoldable pub watch : Viem → List Happening → Watcher → List ObservedPayment
watch viem [] w = []
watch viem (e ∷ events) w = (happen viem e w).0 ++ watch viem events (happen viem e w).1

AreNew-append :
    (seen : List Text) (a b : List ObservedPayment)
    → AreNew seen a
    → AreNew (mark seen a) b
    → AreNew seen (a ++ b)
AreNew-append seen [] b p q = q
AreNew-append seen (x ∷ a) b (new, p) q = (new, AreNew-append (x.xrpl_tx_id ∷ seen) a b p q)

module _ (viem : Viem) where
  Happened : Watcher → List ObservedPayment × Watcher → Type 0
  Happened w (found, v) =
      AreNew w.seen found × (v.seen ≡ mark w.seen found) × IsHonestStore viem v.store

  reported-Happened :
      (w : Watcher) (r : Option (List ObservedPayment) × Watcher)
      → IsHonestStore viem w.store
      → Polled viem w r
      → Happened w (reported r.0, r.1)
  unfolding Happened
  reported-Happened w (none, v) h e =
      (tt, ap (λ x. x.seen) e, subst (λ x. IsHonestStore viem x.store) (sym e) h)
  reported-Happened w (some found, v) h p = (p.fresh, p.marked, p.grows.sound)

  happen-Happened :
      (e : Happening) (w : Watcher) → IsHonestStore viem w.store → Happened w (happen viem e w)
  unfolding Happened
  happen-Happened (polled account_tx) w h =
      reported-Happened w (poll account_tx w) h (poll-Polled viem account_tx w h)
  happen-Happened (registered now can entry) w h =
      (tt, refl, register-IsHonestStore viem now can entry w.store h)
  happen-Happened (started index) w h = (tt, refl, h)

  -- From an honest store on, however polls, registrations and changes of the cursor follow each
  -- other, no payment is reported twice, and none that had been reported before.
  pub watch-AreNew :
      (events : List Happening) (w : Watcher)
      → IsHonestStore viem w.store
      → AreNew w.seen (watch viem events w)
  unfolding watch Happened
  watch-AreNew [] w h = tt
  watch-AreNew (e ∷ events) w h =
      let (new, marked, honest) = happen-Happened e w h in
      AreNew-append w.seen (happen viem e w).0 (watch viem events (happen viem e w).1) new (
        subst (λ s. AreNew s (watch viem events (happen viem e w).1)) marked
          (watch-AreNew events (happen viem e w).1 honest))
