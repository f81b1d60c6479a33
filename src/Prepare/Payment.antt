-- ===== src/Prepare/Payment.antt =====
-- The payment of a request, as the executor reads it from the ledger.
use flare_hack.Prelude.{
  ◌≡◌, refl, ap, ◌∙◌, true, some, [], ◌∷◌, arith, drop, all, All, ok, Text, Bytes, codes, ◌===◌,
  to_upper_case,
}
use flare_hack.Json.{Json, string, array, object, Fields, Items, nil, cons, end, field, get_field}
use flare_hack.Decimal.{to_decimal}
use flare_hack.Hex.{IsByte, is_hex_digit, hex_chars, parse_pairs}
use flare_hack.Hex.RoundTrip.{parse_pairs-to_upper_case, hex_chars-is_hex_digit}
use flare_hack.Viem.{Viem, IsDigest}
use flare_hack.Memo.{MemoHeader}
use flare_hack.Memo.Encode.{encode_execute_committed_memo, to_xrpl_memo_hex}
use flare_hack.Memo.Decode.{DecodedMemo, decode_memo, user_op_hash}
use flare_hack.Memo.Instruction.{canonical, commit, encode, message}
use flare_hack.Memo.RoundTrip.{decode_memo-encode}
use flare_hack.Memo.Shape.{encode-IsWellSized}
use flare_hack.Memo.Wire.{upper-is_hex_digit}
use flare_hack.Watcher.{buffer_from_hex, commitment_from_memos, commitment_from_items, property}
use flare_hack.Prepare.{XrplPayment}

abbrev pub items_of : Text → Items
items_of memo_data =
    cons
      (object (field (codes "Memo") (object (field (codes "MemoData") (string memo_data) end)) end))
      nil

-- `Memos: [{ Memo: { MemoData } }]`
abbrev pub memos_json : Text → Json
memos_json memo_data = array (items_of memo_data)

-- `xrplPayment`, as the transaction that is signed
abbrev pub payment_json : XrplPayment → Fields
payment_json p = field (codes "TransactionType") (string (codes "Payment")) (
    field (codes "Account") (string p.account) (
      field (codes "Destination") (string p.destination) (
        field (codes "Amount") (string (to_decimal p.amount))
          (field (codes "Memos") (memos_json p.memo_data) end))))

buffer_from_hex-parse_pairs :
    (s : Text) → all is_hex_digit s ≡ true → buffer_from_hex s ≡ parse_pairs s
unfolding buffer_from_hex parse_pairs
buffer_from_hex-parse_pairs [] h = refl
buffer_from_hex-parse_pairs (c ∷ []) h = refl
buffer_from_hex-parse_pairs (c ∷ d ∷ s) h = ground (arith, buffer_from_hex-parse_pairs s)

-- Node reads the bytes of a memo from its MemoData.
pub buffer_from_hex-to_xrpl_memo_hex :
    (memo : Bytes) → All IsByte memo → buffer_from_hex (to_xrpl_memo_hex memo) ≡ memo
unfolding to_xrpl_memo_hex
buffer_from_hex-to_xrpl_memo_hex memo h =
    buffer_from_hex-parse_pairs (to_upper_case (hex_chars memo))
      (upper-is_hex_digit (hex_chars memo) (hex_chars-is_hex_digit memo h))
    ∙ parse_pairs-to_upper_case memo h

pub canonical-IsDigest : (s : Text) → IsDigest s → canonical s ≡ s
canonical-IsDigest [] h = absurd h.0
canonical-IsDigest (c ∷ []) h = absurd h.0
canonical-IsDigest (c ∷ d ∷ s) (hex, n, low) = cc (hex.0, hex.1, ap (drop 2) low)

commitment_of_items :
    (memo_data : Text) (memo : Bytes) (hash : Text) (d : DecodedMemo)
    → buffer_from_hex memo_data ≡ memo
    → decode_memo memo ≡ ok d
    → d.payload ≡ user_op_hash hash
    → commitment_from_items (items_of memo_data) ≡ some hash
unfolding commitment_from_items property get_field ◌===◌
commitment_of_items memo_data memo hash d b e c = rw (b, e, c) refl

commitment_of_memo :
    (tx : Fields) (memo_data : Text) (hash : Text)
    → get_field (codes "Memos") tx ≡ some (memos_json memo_data)
    → commitment_from_items (items_of memo_data) ≡ some hash
    → commitment_from_memos (object tx) ≡ some hash
unfolding commitment_from_memos property
commitment_of_memo tx memo_data hash m e = rw (m, commitment_from_memos) e

-- The watcher reads the commitment back from a transaction with the memo that carries it.
pub commitment-encode :
    (viem : Viem) (h : MemoHeader) (hash : Text) (tx : Fields) {memo : Bytes}
    → IsDigest hash
    → encode_execute_committed_memo viem h hash ≡ ok memo
    → get_field (codes "Memos") tx ≡ some (memos_json (to_xrpl_memo_hex memo))
    → commitment_from_memos (object tx) ≡ some hash
commitment-encode viem h hash tx {memo} digest e carried =
    let made : encode viem h (commit hash) ≡ ok memo = unfold encode in e in
    commitment_of_memo tx (to_xrpl_memo_hex memo) hash carried (
      commitment_of_items (to_xrpl_memo_hex memo) memo hash (message h (commit hash))
        (buffer_from_hex-to_xrpl_memo_hex memo (encode-IsWellSized viem h (commit hash) made).0)
        (decode_memo-encode viem h (commit hash) made)
        (ap user_op_hash (canonical-IsDigest hash digest)))
