-- ===== src/Viem.antt =====
-- The functions of the package viem that the program calls, and what it relies on of them.
use flare_hack.Prelude.{◌≡◌, ◌↔◌, Bool, true, Option, some, length, Text, to_lower_case}
use flare_hack.Hex.{IsHexText}

-- A 32-byte hash as viem prints it: `0x` and 64 digits in lower case.
abbrev pub IsDigest : Text → Type 0
IsDigest s = IsHexText s × (length s ≡ 66) × (to_lower_case s ≡ s)

pub record Viem : Type 0 where
  -- isHex
  pub is_hex : Text → Bool
  pub is_hex_iff : (s : Text) → (is_hex s ≡ true) ↔ IsHexText s
  -- isAddress: 40 digits, which in mixed case carry a checksum
  pub is_address : Text → Bool
  pub is_address-IsHexText : (s : Text) → is_address s ≡ true → IsHexText s × (length s ≡ 42)
  -- keccak256 of the bytes that a hex string names; `none` where it throws
  pub keccak256 : Text → Option Text
  pub keccak256-IsHexText : (s : Text) → IsHexText s → (d : Text) × (keccak256 s ≡ some d)
  pub keccak256-IsDigest : (s d : Text) → keccak256 s ≡ some d → IsDigest d
