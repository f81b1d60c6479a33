-- ===== src/Dict.antt =====
-- JavaScript's `Map` with string keys: entries in the order of their first insertion.
use mathlib.Core.Path.{subst}
use flare_hack.Prelude.{
  ◌≡◌, refl, Option, none, some, List, [], ◌∷◌, if◌then◌else◌, Text, ◌===◌, ===_iff, All, arith,
  Bool-cases, inl, inr,
}

abbrev pub Dict {ℓ} : Type ℓ → Type ℓ
Dict V = List (Text × V)

module _ {ℓ} {V : Type ℓ} where
  -- `map.get(k)`
  unfoldable pub get : Text → Dict V → Option V
  get k [] = none
  get k ((j, v) ∷ m) = if j === k then some v else get k m

  -- `map.set(k, v)`
  unfoldable pub set : Text → V → Dict V → Dict V
  set k v [] = (k, v) ∷ []
  set k v ((j, w) ∷ m) = if j === k then (j, v) ∷ m else (j, w) ∷ set k v m

  -- `map.delete(k)`
  unfoldable pub remove : Text → Dict V → Dict V
  remove k [] = []
  remove k ((j, v) ∷ m) = let rest = remove k m in if j === k then rest else (j, v) ∷ rest

  pub get-remove :
      (k j : Text) (m : Dict V) → get j (remove k m) ≡ (if k === j then none else get j m)
  unfolding get remove
  get-remove k j [] = elim (Bool-cases (k === j)) [
    | inl same ↦ rw same refl
    | inr other ↦ rw other refl
  ]
  get-remove k j ((i, w) ∷ m) =
      ground (arith, ===_iff k j, ===_iff i k, ===_iff i j, get-remove k j m)

  pub get-set :
      (k j : Text) (v : V) (m : Dict V) → get j (set k v m) ≡ (if k === j then some v else get j m)
  unfolding get set
  get-set k j v [] = refl
  get-set k j v ((i, w) ∷ m) =
      ground (arith, ===_iff k j, ===_iff i k, ===_iff i j, get-set k j v m)

module _ {ℓ κ} {V : Type ℓ} (P : Text × V → Type κ) where
  pub All-get : (k : Text) (m : Dict V) {v : V} → All P m → get k m ≡ some v → P (k, v)
  unfolding get
  All-get k [] h e = cc
  All-get k ((j, w) ∷ m) (p, h) e = elim (Bool-cases (j === k)) [
    | inl same ↦ subst P (ground (arith, ===_iff j k)) p
    | inr other ↦ All-get k m h (rw (other) at e)
  ]

  pub All-set : (k : Text) (v : V) (m : Dict V) → All P m → P (k, v) → All P (set k v m)
  unfolding set
  All-set k v [] h p = (p, tt)
  All-set k v ((j, w) ∷ m) (q, h) p = elim (Bool-cases (j === k)) [
    | inl same ↦ rw same (rw (← (===_iff j k).0 same) at p, h)
    | inr other ↦ rw other (q, All-set k v m h p)
  ]
