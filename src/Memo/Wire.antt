-- ===== src/Memo/Wire.antt =====
-- packages/sdk/src/memo.ts: memos in the MemoData form of the XRP Ledger.
use flare_hack.Prelude.{
  ◌%◌, ◌≡◌, refl, ap, ◌∙◌, true, false, none, [], ◌∷◌, arith, length, all, All, ok, Text, Bytes,
  codes, starts_with, to_upper_case,
}
use flare_hack.Hex.{IsByte, is_hex_digit, hex_chars, parse_pairs, with_prefix}
use flare_hack.Hex.RoundTrip.{parse_pairs-to_upper_case, hex_chars-is_hex_digit, length-hex_chars}
use flare_hack.Viem.{Viem}
use flare_hack.Memo.{hex_to_bytes}
use flare_hack.Memo.Encode.{from_xrpl_memo_hex, to_xrpl_memo_hex}

pub upper-is_hex_digit :
    (s : Text) → all is_hex_digit s ≡ true → all is_hex_digit (to_upper_case s) ≡ true
upper-is_hex_digit [] h = refl
upper-is_hex_digit (c ∷ s) h = ground (arith, upper-is_hex_digit s)

pub upper-length : (s : Text) → length (to_upper_case s) ≡ length s
upper-length [] = refl
upper-length (c ∷ s) = omega (arith, upper-length s)

-- No text of hex digits begins with 0x.
starts_with-0x : (s : Text) → all is_hex_digit s ≡ true → starts_with s (codes "0x") ≡ false
unfolding starts_with
starts_with-0x [] h = refl
starts_with-0x (c ∷ []) h = ground arith
starts_with-0x (c ∷ d ∷ s) h = ground arith

hex_to_bytes-digits :
    (viem : Viem) (s : Text)
    → all is_hex_digit s ≡ true
    → length s % 2 ≡ 0
    → hex_to_bytes viem (with_prefix s) none ≡ ok (parse_pairs s)
unfolding hex_to_bytes
hex_to_bytes-digits viem s h even =
    rw (((viem.is_hex_iff (with_prefix s)).1 (refl, refl, h)), even) refl

-- Any bytes, put into the upper-case form of MemoData, are read back as the same bytes.
pub from_xrpl_memo_hex-to_xrpl_memo_hex :
    (viem : Viem) (memo : Bytes)
    → All IsByte memo
    → from_xrpl_memo_hex viem (to_xrpl_memo_hex memo) ≡ ok memo
unfolding from_xrpl_memo_hex to_xrpl_memo_hex
from_xrpl_memo_hex-to_xrpl_memo_hex viem memo h =
    let s = to_upper_case (hex_chars memo) in
    let digits : all is_hex_digit s ≡ true =
      upper-is_hex_digit (hex_chars memo) (hex_chars-is_hex_digit memo h) in
    let even : length s % 2 ≡ 0 =
      omega (arith, upper-length (hex_chars memo), length-hex_chars memo) in
    rw (starts_with-0x s digits)
      (hex_to_bytes-digits viem s digits even ∙ ap ok (parse_pairs-to_upper_case memo h))
