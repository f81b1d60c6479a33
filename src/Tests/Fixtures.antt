-- ===== src/Tests/Fixtures.antt =====
-- Concrete stand-ins for viem and for JSON.
use mathlib.Core.Path.{subst}
use flare_hack.Prelude.{
  ◌≡◌, refl, sym, ◌↔◌, Bool, true, false, ◌&&◌, Option, none, some, [], ◌∷◌, arith, ◌==◌,
  if◌then◌else◌, length, all, pos, Text, Bytes, codes,
}
use flare_hack.Hex.{IsHexText, is_hex_digit, with_prefix}
use flare_hack.Json.{Json, JsonCodec, number, string, object, field, end, finite}
use flare_hack.Viem.{Viem, IsDigest}

abbrev pub zero_digest : Text
zero_digest = codes "0x0000000000000000000000000000000000000000000000000000000000000000"

-- `IsHexText`, decided.
abbrev pub is_hex_text : Text → Bool
is_hex_text [] = false
is_hex_text (c ∷ []) = false
is_hex_text (c ∷ d ∷ s) = (c == b'0') && ((d == b'x') && all is_hex_digit s)

pub is_hex_text_iff : (s : Text) → (is_hex_text s ≡ true) ↔ IsHexText s
is_hex_text_iff [] = (λ h. cc, λ h. absurd h)
is_hex_text_iff (c ∷ []) = (λ h. cc, λ h. absurd h)
is_hex_text_iff (c ∷ d ∷ s) =
    (λ h. (ground arith, ground arith, ground arith), λ h. let (x, y, z) = h in ground arith)

-- A hash that is the same for all bytes.
abbrev pub sample_hash : Text → Option Text
sample_hash s = if is_hex_text s then some zero_digest else none

pub sample_hash-eq : (s d : Text) → sample_hash s ≡ some d → d ≡ zero_digest
sample_hash-eq s d h = ground arith

pub zero_digest-IsDigest : IsDigest zero_digest
zero_digest-IsDigest = ((refl, refl, refl), refl, refl)

pub sample_is_address :
    (s : Text) → (is_hex_text s && (length s == 42)) ≡ true → IsHexText s × (length s ≡ 42)
sample_is_address s h = ((is_hex_text_iff s).0 (ground arith), ground arith)

abbrev pub sample_viem : Viem
sample_viem = record {
  is_hex = is_hex_text;
  is_hex_iff = is_hex_text_iff;
  is_address = λ s. is_hex_text s && (length s == 42);
  is_address-IsHexText = sample_is_address;
  keccak256 = sample_hash;
  keccak256-IsHexText = λ s h. (zero_digest, rw ((is_hex_text_iff s).1 h) refl);
  keccak256-IsDigest = λ s d h. subst IsDigest (sym (sample_hash-eq s d h)) zero_digest-IsDigest;
}

abbrev arm_json : Json
arm_json = object (
    field (codes "userOpData") (string (codes "0x00")) (
      field (codes "trigger")
        (object (
          field (codes "kind") (string (codes "TIME"))
            (field (codes "notBefore") (number (finite (pos 5))) end)))
        (field (codes "deadline") (number (finite (pos 100))) end)))

abbrev claim_json : Json
claim_json = object (field (codes "commitment") (string zero_digest) end)

abbrev action_json : Json
action_json = object (
    field (codes "data")
      (object (
        field (codes "id") (string (codes "1"))
          (field (codes "message") (string (codes "0x44")) end)))
      end)

abbrev data_fixed_json : Json
data_fixed_json = object (
    field (codes "opType")
      (string
        (with_prefix (codes "4c41544348000000000000000000000000000000000000000000000000000000")))
      (field (codes "opCommand")
        (string
          (with_prefix (codes "5354415455530000000000000000000000000000000000000000000000000000")))
        (field (codes "originalMessage") (string (codes "0x43")) end)))

-- A parser that knows four texts, and a printer that prints nothing.
abbrev parse_sample : Bytes → Option Json
parse_sample (b ∷ []) =
    if b == b'A'
    then some arm_json
    else if b == b'B'
    then some action_json
    else if b == b'C'
    then some claim_json
    else if b == b'D'
    then some data_fixed_json
    else none
parse_sample _ = none

abbrev pub sample_codec : JsonCodec
sample_codec = record { parse = parse_sample; print = λ j. [] }
