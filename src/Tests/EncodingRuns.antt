-- ===== src/Tests/EncodingRuns.antt =====
-- Runs of the memo codec and of the hex encoding.
use flare_hack.Prelude.{
  negsuc, ◌===◌, ◌≡◌, refl, true, Option, some, [], ◌∷◌, arith, pos, ok, Text, Bytes, codes,
  starts_with,
}
use flare_hack.Endian.{be_bytes}
use flare_hack.Encoding.{hex_to_bytes}
use flare_hack.Memo.{MemoHeader, integer, encode_header}
use flare_hack.Trigger.{price, gte, decode_feed, read_feed, is_triggered}
use flare_hack.Trigger.Quote.{encoded_quote, decode_feed-encoded_quote}
use flare_hack.Trigger.FailClosed.{Quoted, is_triggered-Quoted}
use flare_hack.Memo.Encode.{encode_execute_committed_memo}
use flare_hack.Memo.Decode.{decode_memo}
use flare_hack.Memo.Instruction.{commit, encode, message}
use flare_hack.Memo.RoundTrip.{decode_memo-encode}
use flare_hack.Tests.Fixtures.{sample_viem, zero_digest}

abbrev header : MemoHeader
header = record { wallet_id = some (integer (pos 7)); executor_fee_uba = pos 1000 }

abbrev committed : Bytes
committed = 0xfe ∷ 7 ∷ 0 ∷ 0 ∷ 0 ∷ 0 ∷ 0 ∷ 0 ∷ 3 ∷ 232 ∷ be_bytes 32 0

encode-committed : encode sample_viem header (commit zero_digest) ≡ ok committed
unfolding encode encode_execute_committed_memo encode_header flare_hack.Memo.hex_to_bytes
    flare_hack.Hex.parse_pairs flare_hack.Memo.assert_length flare_hack.Memo.concat
    flare_hack.Endian.be_loop
encode-committed = refl

decode_memo-encode_example : decode_memo committed ≡ ok (message header (commit zero_digest))
decode_memo-encode_example =
    decode_memo-encode sample_viem header (commit zero_digest) encode-committed

read-ab : hex_to_bytes (some (codes "0XAB")) ≡ ok (171 ∷ [])
unfolding hex_to_bytes flare_hack.Prelude.starts_with flare_hack.Hex.parse_pairs
read-ab = refl

abbrev quote : Text → Option Text
quote call = some (
    codes
      "0x000000000000000000000000000000000000000000000000000000000000000500000000000000000000000000000000000000000000000000000000000000020000000000000000000000000000000000000000000000000000000000000009")

met : (is_triggered (price (codes "0x01") gte (codes "5")) 7 (λ id. read_feed quote id 7)).0 ≡ true
unfolding is_triggered read_feed flare_hack.Trigger.decode_feed ◌===◌ starts_with
    flare_hack.Trigger.word_at flare_hack.Trigger.decimal_number flare_hack.Hex.hex_number
    flare_hack.BigInt.big_hex flare_hack.BigInt.trim_end
met = refl

is_triggered-Quoted_example : Quoted quote (codes "0x01") gte (codes "5")
is_triggered-Quoted_example = is_triggered-Quoted quote (codes "0x01") gte (codes "5") 7 met

decode_feed-encoded_quote_example :
    decode_feed 7000 (encoded_quote 2500000 (negsuc 1) 0)
    ≡ some (record { value = 2500000; decimals = negsuc 1; timestamp = 7 })
decode_feed-encoded_quote_example =
    decode_feed-encoded_quote 7000 2500000 (negsuc 1) 0 (omega arith) (omega arith) (omega arith)
