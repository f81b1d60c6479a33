-- ===== src/Scripts/Released.antt =====
-- scripts/recover-mint.ts: what the recovery payment says.
use flare_hack.Prelude.{
  ℕ, ◌*◌, ◌≡◌, refl, sym, ap, ◌∙◌, inl, inr, true, ◌&&◌, Option, some, [], ◌∷◌, arith, ◌==◌,
  if◌then◌else◌, Bool-cases, length, drop, all, length-append, ok, Text, Bytes, codes, starts_with,
  to_upper_case,
}
use flare_hack.Hex.{is_hex_digit, parse_pairs, with_prefix}
use flare_hack.Hex.RoundTrip.{length-parse_pairs}
use flare_hack.Viem.{Viem}
use flare_hack.Endian.{be_bytes}
use flare_hack.Endian.RoundTrip.{length-be_bytes}
use flare_hack.Memo.Invert.{concat_two}
use flare_hack.Memo.{
  Opcode, memo_length, ignore_memo, encode_header, hex_to_bytes, assert_length, concat,
}
use flare_hack.Memo.Encode.{encode_ignore_memo, to_xrpl_memo_hex}
use flare_hack.Memo.Decode.{decode_memo, ignored_tx_id}
use flare_hack.Memo.Instruction.{canonical, ignore, encode}
use flare_hack.Memo.RoundTrip.{decode_memo-encode}
use flare_hack.Memo.Shape.{encode-IsWellSized}
use flare_hack.Memo.Wire.{upper-length, upper-is_hex_digit}
use flare_hack.Watcher.{buffer_from_hex}
use flare_hack.Prepare.Payment.{buffer_from_hex-to_xrpl_memo_hex}
use flare_hack.Pipeline.{normalize_xrpl_tx_id}
use flare_hack.Scripts.Recover.{recovery_header}

some_injective : {a b : Text} → ◌≡◌ {A = Option Text} (some a) (some b) → a ≡ b
some_injective h = cc

-- A normalised hash is 32 bytes of hex text.
normalize_xrpl_tx_id-digits :
    (arg : Text) {tx : Text}
    → normalize_xrpl_tx_id arg ≡ some tx
    → (s : Text) × (tx ≡ with_prefix s) × (length s ≡ 64) × (all is_hex_digit s ≡ true)
unfolding normalize_xrpl_tx_id
normalize_xrpl_tx_id-digits arg {tx} e =
    let clean = if starts_with arg (codes "0x") then drop 2 arg else arg in
    elim (Bool-cases (length clean == 64 && all is_hex_digit clean)) [
      | inl good ↦ (
        to_upper_case clean,
        some_injective (sym e ∙ rw good refl),
        ground (arith, upper-length clean, good),
        upper-is_hex_digit clean (ground (arith, good)),
      )
      | inr bad ↦ absurd (ground (arith, e, bad))
    ]

assert_length-ok :
    (opcode : Opcode) (n : ℕ) (memo : Bytes)
    → memo_length opcode ≡ some n
    → length memo ≡ n
    → assert_length opcode memo ≡ ok memo
unfolding assert_length
assert_length-ok opcode n memo e h = rw e (ground (arith, h))

hex_to_bytes-hash :
    (viem : Viem) (s : Text)
    → length s ≡ 64
    → all is_hex_digit s ≡ true
    → hex_to_bytes viem (with_prefix s) (some 32) ≡ ok (parse_pairs s)
unfolding hex_to_bytes
hex_to_bytes-hash viem s n h =
    let hex : viem.is_hex (with_prefix s) ≡ true =
      (viem.is_hex_iff (with_prefix s)).1 (refl, refl, h) in
    let half : 2 * length (parse_pairs s) ≡ 64 = length-parse_pairs s (rw n refl) ∙ n in
    rw hex (ground (arith, n, half))

abbrev ignoring : Text → Bytes
ignoring s = concat ((0xe0 ∷ 0 ∷ be_bytes 8 0) ∷ parse_pairs s ∷ [])

encode_ignore_memo-digits :
    (viem : Viem) (s : Text)
    → length s ≡ 64
    → all is_hex_digit s ≡ true
    → encode_ignore_memo viem recovery_header (with_prefix s) ≡ ok (ignoring s)
unfolding encode_ignore_memo encode_header
encode_ignore_memo-digits viem s n h = rw (hex_to_bytes-hash viem s n h) (
    assert_length-ok ignore_memo 42 (ignoring s) refl (
      ap length (concat_two (0xe0 ∷ 0 ∷ be_bytes 8 0) (parse_pairs s))
      ∙ omega (
        arith,
        length-append (0xe0 ∷ 0 ∷ be_bytes 8 0) (parse_pairs s),
        length-parse_pairs s (rw n refl),
        n,
        length-be_bytes 8 0,
      )))

-- For every stuck transaction that the script accepts, the recovery memo can be encoded, and what is put on the ledger is read as the instruction to ignore exactly that transaction, with wallet 0 and no fee.
pub recovery-ignores :
    (viem : Viem) (arg : Text) {tx : Text}
    → normalize_xrpl_tx_id arg ≡ some tx
    → (memo : Bytes) × (encode_ignore_memo viem recovery_header tx ≡ ok memo)
      × (decode_memo (buffer_from_hex (to_xrpl_memo_hex memo))
          ≡ ok (record {
            wallet_id = 0;
            executor_fee_uba = 0;
            payload = ignored_tx_id (canonical tx);
          }))
recovery-ignores viem arg {tx} e =
    let (s, same, n, h) = normalize_xrpl_tx_id-digits arg e in
    let encoded : encode_ignore_memo viem recovery_header tx ≡ ok (ignoring s) =
      ap (encode_ignore_memo viem recovery_header) same ∙ encode_ignore_memo-digits viem s n h in
    let made : encode viem recovery_header (ignore tx) ≡ ok (ignoring s) =
      unfold encode in encoded in
    let (bytes, _, _) = encode-IsWellSized viem recovery_header (ignore tx) made in
    (
      ignoring s,
      encoded,
      ap decode_memo (buffer_from_hex-to_xrpl_memo_hex (ignoring s) bytes)
          ∙ decode_memo-encode viem recovery_header (ignore tx) made,
    )
