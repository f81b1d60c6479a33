-- ===== src/Framework.antt =====
-- extension/typescript/src/base/types.ts: the registry of the handlers.
pub mod Laws
use flare_hack.Prelude.{
  ◌&&◌, Option, none, some, List, [], ◌∷◌, ◌++◌, if◌then◌else◌, Except, ok, ◌>>=◌, ◌>>◌, Text,
  codes, ◌===◌, starts_with, to_lower_case,
}
use flare_hack.Hex.{hex_chars, with_prefix}
use flare_hack.Encoding.{HexError, zeros, string_to_bytes32_hex}

abbrev pub empty_bytes32 : Text
empty_bytes32 = with_prefix (hex_chars (zeros 32))

-- A row of `handlers`.
pub record Registered (H : Type 0) : Type 0 where
  pub op_type : Text
  pub op_command : Text
  pub handler : H

-- Lowercase and 0x-prefix a hex identifier.
unfoldable pub normalize : Text → Text
normalize [] = empty_bytes32
normalize (c ∷ h) =
    let lower = to_lower_case (c ∷ h) in
    if starts_with lower (codes "0x") then lower else with_prefix lower

module _ {H : Type 0} where
  -- `Framework.handle`, which throws what `stringToBytes32Hex` throws
  unfoldable pub handle :
      Text → Text → H → List (Registered H) → Except HexError (List (Registered H))
  handle op_type op_command handler handlers = do
    t ← string_to_bytes32_hex op_type
    c ← string_to_bytes32_hex op_command
    ok (handlers ++ record { op_type = t; op_command = c; handler = handler } ∷ [])

  -- One `for` loop of `lookup`: the first handler registered for exactly the two identifiers.
  unfoldable pub find_handler : Text → Text → List (Registered H) → Option H
  find_handler t c [] = none
  find_handler t c (r ∷ handlers) =
      if (r.op_type === t) && (r.op_command === c)
      then some r.handler
      else find_handler t c handlers

  abbrev pub or_else : Option H → Option H → Option H
  or_else (some h) other = some h
  or_else none other = other

  -- `Framework.lookup`
  unfoldable pub lookup : Text → Text → List (Registered H) → Option H
  lookup op_type op_command handlers =
      let t = normalize op_type in
      or_else (find_handler t (normalize op_command) handlers)
        (find_handler t empty_bytes32 handlers)
