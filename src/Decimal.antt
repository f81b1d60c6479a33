-- ===== src/Decimal.antt =====
-- `n.toString()` of a bigint that is not negative.
use flare_hack.Prelude.{ℕ, zero, suc, ◌+◌, ◌/◌, ◌%◌, [], ◌∷◌, ltb, if◌then◌else◌, Text}

-- The digits of `n` in front of `acc`; `fuel` bounds their number.
unfoldable pub decimal_loop : ℕ → ℕ → Text → Text
decimal_loop zero n acc = acc
decimal_loop (suc fuel) n acc =
    let rest = decimal_loop fuel (n / 10) ((48 + n % 10) ∷ acc) in
    if ltb n 10 then (48 + n) ∷ acc else rest

unfoldable pub to_decimal : ℕ → Text
to_decimal n = decimal_loop (suc n) n []
