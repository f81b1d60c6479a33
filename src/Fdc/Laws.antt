-- ===== src/Fdc/Laws.antt =====
-- packages/executor/src/fdc.ts: voting rounds, and which failures are retried.
use native.Mathlib.Nat.{div-add-mod', mod-lt}
use mathlib.Core.Path.{subst}
use flare_hack.Prelude.{
  ℕ, zero, suc, ◌+◌, ◌-◌, ◌*◌, ◌/◌, ◌%◌, ◌≤◌, ◌<◌, ◌≡◌, inl, inr, Option, some, arith, Option-cases,
  Text, ===_refl,
}
use flare_hack.Dict.{Dict, get, get-set}
use flare_hack.Fdc.{round_of, resolve}

-- The round of a block that is not older than the first round is the one whose time the block falls
-- in: it has begun by then, and the next one has not.
pub round_of-contains :
    (timestamp first duration : ℕ) {round : ℕ}
    → first ≤ timestamp
    → round_of timestamp first duration ≡ some round
    → (first + round * duration ≤ timestamp) × (timestamp < first + round * duration + duration)
unfolding round_of
round_of-contains timestamp first zero later e = cc
round_of-contains timestamp first (suc d) {round} later e =
    let q : (timestamp - first) / suc d ≡ round = cc in
    let whole : round * suc d + (timestamp - first) % suc d ≡ timestamp - first =
      subst (λ k. k * suc d + (timestamp - first) % suc d ≡ timestamp - first) q
        (div-add-mod' (timestamp - first) (suc d)) in
    let rest = mod-lt (timestamp - first) {m = suc d} (omega arith) in
    (omega (arith, whole, rest, later), omega (arith, whole, rest, later))

-- A name that was resolved is resolved to the same address ever after, whatever the registry says.
pub resolve-resolve :
    (registry other : Text → Option Text) (name : Text) (cache : Dict Text) {address : Text}
    → (resolve registry name cache).0 ≡ some address
    → resolve other name (resolve registry name cache).1
      ≡ (some address, (resolve registry name cache).1)
unfolding resolve
resolve-resolve registry other name cache e = elim (Option-cases (get name cache)) [
  | inr (old, found) ↦ ground arith
  | inl absent ↦ elim (Option-cases (registry name)) [
    | inl unknown ↦ ground arith
    | inr (a, known) ↦ ground (arith, get-set name name a cache, ===_refl name)
  ]
]
