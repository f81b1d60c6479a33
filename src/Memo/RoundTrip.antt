-- ===== src/Memo/RoundTrip.antt =====
-- packages/sdk/src/memo.ts: what an encoder built, `decodeMemo` reads.
use flare_hack.Prelude.{◌≡◌, ok, Bytes}
use flare_hack.Viem.{Viem}
use flare_hack.Memo.{Opcode, MemoHeader}
use flare_hack.Memo.Decode.{Payload, decode_memo}
use flare_hack.Memo.Layout.{header_wallet, header_fee, decode_memo-memo_of}
use flare_hack.Memo.Instruction.{Instruction, encode, meaning, message}
use flare_hack.Memo.Built.{Built, opcode_for, encode-Built}

-- The decoder's answer to a memo whose payload it reads.
decode_memo-Built :
    (opcode : Opcode) (h : MemoHeader) (d : Payload) {memo : Bytes}
    → Built opcode h d memo
    → decode_memo memo
      ≡ ok (record { wallet_id = header_wallet h; executor_fee_uba = header_fee h; payload = d })
decode_memo-Built opcode h d b = rw (
  ← b.same,
  decode_memo-memo_of opcode (header_wallet h) (header_fee h) b.body b.fee_fits,
  b.reads,
)

-- Whatever an encoder returns, the decoder reads as the instruction that was encoded, with the wallet id and the fee of the header.
pub decode_memo-encode :
    (viem : Viem) (h : MemoHeader) (i : Instruction) {memo : Bytes}
    → encode viem h i ≡ ok memo
    → decode_memo memo ≡ ok (message h i)
decode_memo-encode viem h i e =
    decode_memo-Built (opcode_for i) h (meaning i) (encode-Built viem h i e)
