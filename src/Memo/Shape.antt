-- ===== src/Memo/Shape.antt =====
-- packages/sdk/src/memo.ts: the sizes of encoded memos.
use flare_hack.Prelude.{ℕ, ◌+◌, ◌≤◌, ◌≡◌, arith, length, All, All-append, ok, Bytes}
use flare_hack.Hex.{IsByte}
use flare_hack.Endian.{be_bytes}
use flare_hack.Endian.RoundTrip.{be_bytes-IsByte}
use flare_hack.Viem.{Viem}
use flare_hack.Memo.{
  Opcode, execute_inline, opcode_byte, memo_length, MemoHeader, xrpl_memo_max_bytes,
}
use flare_hack.Memo.Layout.{header_wallet, header_fee, memo_of}
use flare_hack.Memo.Instruction.{Instruction, encode}
use flare_hack.Memo.Reads.{length-memo_of}
use mathlib.Core.Path.{subst}
use flare_hack.Memo.Built.{HasLength, opcode_for, encode-Built}

-- A list of bytes that a payment can carry, with the length that the opcode prescribes.
abbrev pub IsWellSized : Opcode → Bytes → Type 0
IsWellSized opcode memo =
    All IsByte memo
    × HasLength (memo_length opcode) (length memo)
    × (length memo ≤ xrpl_memo_max_bytes)

opcode_byte-IsByte : (opcode : Opcode) → IsByte (opcode_byte opcode)
opcode_byte-IsByte execute_inline = omega arith
opcode_byte-IsByte _ = omega arith

short : (opcode : Opcode) (n : ℕ) → HasLength (memo_length opcode) n → n ≤ xrpl_memo_max_bytes
short execute_inline n h = omega arith
short _ n h = omega arith

-- Whatever an encoder returns consists of bytes, has exactly the length that MEMO_LENGTH prescribes for its opcode, and is at most 1,024 bytes long, also for an inline operation, for which no length is prescribed.
pub encode-IsWellSized :
    (viem : Viem) (h : MemoHeader) (i : Instruction) {memo : Bytes}
    → encode viem h i ≡ ok memo
    → IsWellSized (opcode_for i) memo
encode-IsWellSized viem h i e =
    let b = encode-Built viem h i e in
    let w = header_wallet h in
    let fee = header_fee h in
    let n : length (memo_of (opcode_for i) w fee b.body) ≡ 10 + length b.body =
      length-memo_of (opcode_for i) w fee b.body in
    subst (IsWellSized (opcode_for i)) b.same (
      (
        opcode_byte-IsByte (opcode_for i),
        (b.wallet_fits, All-append IsByte (be_bytes 8 fee) b.body (be_bytes-IsByte 8 fee) b.bytes),
      ),
      rw n b.counted,
      rw n (short (opcode_for i) (10 + length b.body) b.counted),
    )
