-- ===== src/Prelude/Errors.antt =====
-- A computation that may throw: `err e` stands for the exception `e`.
use mathlib.Core.Path.{◌≡◌, refl}
use mathlib.Core.Logic.{◌⊎◌, inl, inr}

pub data Except {ℓ} (Raised : Type ℓ) (Value : Type ℓ) : Type ℓ where
  ok : Value → Except Raised Value
  err : Raised → Except Raised Value

module _ {ℓ} {Raised Value Next : Type ℓ} where
  infixl 5 ◌>>=◌ ◌>>◌
  abbrev pub ◌>>=◌ : Except Raised Value → (Value → Except Raised Next) → Except Raised Next
  err problem >>= rest = err problem
  ok value >>= rest = rest value

  abbrev pub ◌>>◌ : Except Raised Value → Except Raised Next → Except Raised Next
  err problem >> rest = err problem
  ok value >> rest = rest

  -- What every successful result of the rest satisfies, a successful result of the whole satisfies.
  pub bind_ensures {κ} :
      (P : Next → Type κ) (first : Except Raised Value) (rest : Value → Except Raised Next)
      {n : Next}
      → ((value : Value) → first ≡ ok value → rest value ≡ ok n → P n)
      → (first >>= rest) ≡ ok n
      → P n
  bind_ensures P (err problem) rest follows whole = cc
  bind_ensures P (ok value) rest follows whole = follows value refl whole

  pub >>=-eq-ok :
      (first : Except Raised Value) (rest : Value → Except Raised Next) {n : Next}
      → (first >>= rest) ≡ ok n
      → (value : Value) × (first ≡ ok value) × (rest value ≡ ok n)
  >>=-eq-ok first rest {n} whole =
      bind_ensures (λ _. (value : Value) × (first ≡ ok value) × (rest value ≡ ok n)) first rest
        (λ value read done. (value, read, done)) whole

module _ {ℓ} {Raised Value : Type ℓ} where
  pub Except-cases :
      (first : Except Raised Value)
      → ((value : Value) × (first ≡ ok value)) ⊎ ((problem : Raised) × (first ≡ err problem))
  Except-cases (ok value) = inl (value, refl)
  Except-cases (err problem) = inr (problem, refl)

  pub ok_injective : {a b : Value} → ◌≡◌ {A = Except Raised Value} (ok a) (ok b) → a ≡ b
  ok_injective h = cc
