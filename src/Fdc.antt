-- ===== src/Fdc.antt =====
-- packages/executor/src/fdc.ts: which answers of the verifier and of the DA layer count.
pub mod Laws
pub mod Client
pub mod Paid
pub mod Wired
use flare_hack.Prelude.{
  ℕ, zero, suc, ◌-◌, ◌/◌, Bool, true, false, ◌||◌, Option, none, some, [], ◌∷◌, if◌then◌else◌,
  Except, ok, err, ◌>>=◌, ◌>>◌, Text, codes, ◌===◌, starts_with,
}
use flare_hack.Json.{Json, null, boolean, string, object, Fields, get_field}
use flare_hack.Dict.{Dict, get, set}

-- An error of the class VerifierNotReadyError, with its status and its detail, of the class
-- DaLayerNotReadyError, or of another.
pub data FdcError : Type 0 where
  verifier_not_ready : Text → Option Json → FdcError
  da_layer_not_ready : FdcError
  other_error : FdcError

abbrev pub is_retryable : FdcError → Bool
is_retryable (verifier_not_ready status detail) = true
is_retryable da_layer_not_ready = true
is_retryable other_error = false

-- `res.ok`, and `JSON.parse` of the text, which is `none` where it throws.
pub record Answer : Type 0 where
  pub ok_status : Bool
  pub body : Option Json

-- `parsed.status && !parsed.status.startsWith("OK") && parsed.status !== "VALID"` throws for a value
-- that is no string and not falsy; the detail of the error is `parsed.errorMessage`.
unfoldable pub check_status : Option Json → Option Json → Except FdcError Unit
check_status detail none = ok tt
check_status detail (some null) = ok tt
check_status detail (some (boolean false)) = ok tt
check_status detail (some (string [])) = ok tt
check_status detail (some (string (c ∷ s))) =
    if starts_with (c ∷ s) (codes "OK") || ((c ∷ s) === codes "VALID")
    then ok tt
    else err (verifier_not_ready (c ∷ s) detail)
check_status detail (some _) = err other_error

-- The request, which the program takes for hex text.
unfoldable pub non_empty : FdcError → Option Json → Except FdcError Text
non_empty e (some (string (c ∷ s))) = ok (c ∷ s)
non_empty e _ = err e

abbrev pub parsed_fields : Option Json → Except FdcError Fields
parsed_fields (some (object fields)) = ok fields
parsed_fields _ = err other_error

abbrev require_ok : Bool → FdcError → Except FdcError Unit
require_ok true e = ok tt
require_ok false e = err e

-- `prepareRequest`, given the verifier's answer
unfoldable pub prepare_request : Answer → Except FdcError Text
prepare_request answer = do
  served ← require_ok answer.ok_status other_error
  parsed ← parsed_fields answer.body
  ready ← check_status (get_field (codes "errorMessage") parsed) (get_field (codes "status") parsed)
  non_empty other_error (get_field (codes "abiEncodedRequest") parsed)

-- `fetchProof`, given the DA layer's answer; `decode` is `decodeAbiParameters` on the response type
unfoldable pub fetch_proof : (Text → Option Text) → Answer → Except FdcError Text
fetch_proof decode answer = do
  served ← require_ok answer.ok_status da_layer_not_ready
  raw ← parsed_fields answer.body
  response ← non_empty da_layer_not_ready (get_field (codes "response_hex") raw)
  elim (decode response) [ none ↦ err other_error | some proof ↦ ok proof ]

-- The voting round of a block, by the integer division of bigints; `none` where it throws. A block
-- before the first round is not met.
unfoldable pub round_of : ℕ → ℕ → ℕ → Option ℕ
round_of timestamp first_round_start_ts zero = none
round_of timestamp first_round_start_ts (suc d) = some ((timestamp - first_round_start_ts) / suc d)

-- `resolve`: the registry is asked once for a name.
abbrev resolve_cached :
    (Text → Option Text) → Text → Dict Text → Option Text → Option Text × Dict Text
resolve_cached registry name cache (some address) = (some address, cache)
resolve_cached registry name cache none = elim (registry name) [
  | none ↦ (none, cache)
  | some address ↦ (some address, set name address cache)
]

unfoldable pub resolve : (Text → Option Text) → Text → Dict Text → Option Text × Dict Text
resolve registry name cache = resolve_cached registry name cache (get name cache)
