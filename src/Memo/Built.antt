-- ===== src/Memo/Built.antt =====
-- packages/sdk/src/memo.ts: every encoder builds a memo of the layout of its opcode.
use flare_hack.Prelude.{
  ℕ, ◌+◌, ◌^◌, ◌≤◌, ◌<◌, ◌≡◌, refl, sym, ap, ◌∙◌, Option, none, some, [], ◌∷◌, ◌++◌, append-nil,
  arith, length, All, length-append, All-append, ℤ, ok, >>=-eq-ok, Text, Bytes,
}
use mathlib.Core.Path.{ap₂}
use flare_hack.Hex.{IsByte}
use flare_hack.Endian.{be_bytes}
use flare_hack.Endian.RoundTrip.{be_number-be_bytes, length-be_bytes, be_bytes-IsByte}
use flare_hack.Viem.{Viem}
use flare_hack.Memo.{
  Opcode, execute_inline, execute_committed, ignore_memo, set_nonce, set_replacement_fee,
  set_executor, remove_executor, memo_length, MemoHeader, check_uint, max_uint64, concat,
  nonce_not_uint256, new_fee_not_uint64,
}
use flare_hack.Memo.Encode.{
  encode_execute_committed_memo, encode_execute_inline_memo, encode_set_executor_memo,
  encode_remove_executor_memo, encode_ignore_memo, encode_set_nonce_memo,
  encode_replacement_fee_memo, max_uint256,
}
use flare_hack.Memo.Decode.{
  Payload, user_op_data, user_op_hash, ignored_tx_id, new_nonce, replacement_fee, executor,
  decode_payload,
}
use flare_hack.Memo.Layout.{header_wallet, header_fee, memo_of, check_uint-eq-ok}
use flare_hack.Memo.Instruction.{
  Instruction, commit, execute, pin, ignore, unpin, nonce, bump, encode, meaning,
}
use flare_hack.Memo.Invert.{
  header_of, header_then, hex_then, count_of, assert_length-eq-ok, concat_two, concat_three,
  under_cap-eq-ok, pin_tests,
}
use flare_hack.Memo.Reads.{
  read_inline, read_committed, read_ignore, read_executor, read_nonce, read_removed, read_bump,
}

-- The opcode that an instruction is encoded with.
abbrev pub opcode_for : Instruction → Opcode
opcode_for (commit hash) = execute_committed
opcode_for (execute op) = execute_inline
opcode_for (pin address) = set_executor
opcode_for (ignore tx) = ignore_memo
opcode_for unpin = remove_executor
opcode_for (nonce n) = set_nonce
opcode_for (bump tx fee) = set_replacement_fee

abbrev pub HasLength : Option ℕ → ℕ → Type 0
HasLength none n = n ≤ 1024
HasLength (some m) n = n ≡ m

-- The memo is the header and a payload of bytes, of the length of its opcode; the decoder reads the
-- payload as `d`.
pub record Built (opcode : Opcode) (h : MemoHeader) (d : Payload) (memo : Bytes) : Type 0 where
  pub body : Bytes
  pub same : memo_of opcode (header_wallet h) (header_fee h) body ≡ memo
  pub wallet_fits : header_wallet h < 256
  pub fee_fits : header_fee h < 256 ^ 8
  pub bytes : All IsByte body
  pub counted : HasLength (memo_length opcode) (10 + length body)
  pub reads : decode_payload opcode (memo_of opcode (header_wallet h) (header_fee h) body) ≡ ok d

built :
    (opcode : Opcode) (h : MemoHeader) (p : Bytes) (d : Payload) {memo : Bytes}
    → header_wallet h < 256
    → header_fee h < 256 ^ 8
    → memo_of opcode (header_wallet h) (header_fee h) p ≡ memo
    → All IsByte p
    → HasLength (memo_length opcode) (10 + length p)
    → decode_payload opcode (memo_of opcode (header_wallet h) (header_fee h) p) ≡ ok d
    → Built opcode h d memo
built opcode h p d byte fits same bytes counted reads = record {
  body = p;
  same = same;
  wallet_fits = byte;
  fee_fits = fits;
  bytes = bytes;
  counted = counted;
  reads = reads;
}

module _ (viem : Viem) (h : MemoHeader) where
  commit_lem :
      (s : Text) {memo : Bytes}
      → encode_execute_committed_memo viem h s ≡ ok memo
      → Built execute_committed h (meaning (commit s)) memo
  unfolding encode_execute_committed_memo
  commit_lem s e =
      let (byte, fits, e1) = header_then execute_committed h _ e in
      let (p, bytes, hex, counted, e2) = hex_then viem s (some 32) _ e1 in
      let same =
        sym (concat_two (header_of execute_committed h) p)
        ∙ assert_length-eq-ok execute_committed _ e2 in
      built execute_committed h p _ byte fits same bytes (omega (arith, count_of 32 p counted))
        (read_committed _ _ p (count_of 32 p counted) ∙ ap (λ t. ok (user_op_hash t)) hex)

  ignore_lem :
      (s : Text) {memo : Bytes}
      → encode_ignore_memo viem h s ≡ ok memo
      → Built ignore_memo h (meaning (ignore s)) memo
  unfolding encode_ignore_memo
  ignore_lem s e =
      let (byte, fits, e1) = header_then ignore_memo h _ e in
      let (p, bytes, hex, counted, e2) = hex_then viem s (some 32) _ e1 in
      let same =
        sym (concat_two (header_of ignore_memo h) p) ∙ assert_length-eq-ok ignore_memo _ e2 in
      built ignore_memo h p _ byte fits same bytes (omega (arith, count_of 32 p counted))
        (read_ignore _ _ p (count_of 32 p counted) ∙ ap (λ t. ok (ignored_tx_id t)) hex)

  execute_lem :
      (s : Text) {memo : Bytes}
      → encode_execute_inline_memo viem h s ≡ ok memo
      → Built execute_inline h (meaning (execute s)) memo
  unfolding encode_execute_inline_memo
  execute_lem s e =
      let (byte, fits, e1) = header_then execute_inline h _ e in
      let (p, bytes, hex, _, e2) = hex_then viem s none _ e1 in
      let m = concat (header_of execute_inline h ∷ p ∷ []) in
      let same = sym (concat_two (header_of execute_inline h) p) ∙ (under_cap-eq-ok m e2).0 in
      let short : 10 + length p ≤ 1024 = omega (
        arith,
        (under_cap-eq-ok m e2).1,
        ap length (concat_two (header_of execute_inline h) p),
        length-append (header_of execute_inline h) p,
        length-be_bytes 8 (header_fee h),
      ) in
      built execute_inline h p _ byte fits same bytes short
        (read_inline _ _ p ∙ ap (λ t. ok (user_op_data t)) hex)

  pin_lem :
      (s : Text) {memo : Bytes}
      → encode_set_executor_memo viem h s ≡ ok memo
      → Built set_executor h (meaning (pin s)) memo
  pin_lem s e =
      let (byte, fits, e1) = header_then set_executor h _ (pin_tests viem h s e).2 in
      let (p, bytes, hex, counted, e2) = hex_then viem s (some 20) _ e1 in
      let same =
        sym (concat_two (header_of set_executor h) p) ∙ assert_length-eq-ok set_executor _ e2 in
      built set_executor h p _ byte fits same bytes (omega (arith, count_of 20 p counted))
        (read_executor _ _ p (count_of 20 p counted) ∙ ap (λ t. ok (executor t)) hex)

  unpin_lem :
      {memo : Bytes}
      → encode_remove_executor_memo viem h ≡ ok memo
      → Built remove_executor h (meaning unpin) memo
  unfolding encode_remove_executor_memo
  unpin_lem e =
      let (byte, fits, e1) = header_then remove_executor h _ e in
      built remove_executor h [] _ byte fits
        (append-nil (header_of remove_executor h) ∙ assert_length-eq-ok remove_executor _ e1) tt
        refl (read_removed _ _)

  nonce_lem :
      (n : ℤ) {memo : Bytes}
      → encode_set_nonce_memo viem h n ≡ ok memo
      → Built set_nonce h (meaning (nonce n)) memo
  unfolding encode_set_nonce_memo
  nonce_lem n e =
      let (x, checked, e0) = >>=-eq-ok (check_uint max_uint256 nonce_not_uint256 n) _ e in
      let (value, bound) = check_uint-eq-ok max_uint256 nonce_not_uint256 n checked in
      let (byte, fits, e1) = header_then set_nonce h _ e0 in
      let p = be_bytes 32 x in
      let same = sym (concat_two (header_of set_nonce h) p) ∙ assert_length-eq-ok set_nonce _ e1 in
      let number = be_number-be_bytes 32 x (omega arith) ∙ value in
      built set_nonce h p _ byte fits same (be_bytes-IsByte 32 x)
        (omega (arith, length-be_bytes 32 x))
        (read_nonce _ _ p (length-be_bytes 32 x) (be_bytes-IsByte 32 x)
          ∙ ap (λ t. ok (new_nonce t)) number)

  bump_lem :
      (s : Text) (z : ℤ) {memo : Bytes}
      → encode_replacement_fee_memo viem h s z ≡ ok memo
      → Built set_replacement_fee h (meaning (bump s z)) memo
  unfolding encode_replacement_fee_memo
  bump_lem s z e =
      let (x, checked, e0) = >>=-eq-ok (check_uint max_uint64 new_fee_not_uint64 z) _ e in
      let (value, bound) = check_uint-eq-ok max_uint64 new_fee_not_uint64 z checked in
      let (byte, fits, e1) = header_then set_replacement_fee h _ e0 in
      let (p, bytes, hex, counted, e2) = hex_then viem s (some 32) _ e1 in
      let same =
        sym (concat_three (header_of set_replacement_fee h) p (be_bytes 8 x))
        ∙ assert_length-eq-ok set_replacement_fee _ e2 in
      let counted' : 10 + length (p ++ be_bytes 8 x) ≡ 50 =
        omega (arith, length-append p (be_bytes 8 x), length-be_bytes 8 x, count_of 32 p counted) in
      built set_replacement_fee h (p ++ be_bytes 8 x) _ byte fits same
        (All-append IsByte p (be_bytes 8 x) bytes (be_bytes-IsByte 8 x)) counted'
        (read_bump (header_wallet h) (header_fee h) x p (count_of 32 p counted) (omega arith)
          ∙ ap₂ (λ t n. ok (replacement_fee t n)) hex value)

  pub encode-Built :
      (i : Instruction) {memo : Bytes}
      → encode viem h i ≡ ok memo
      → Built (opcode_for i) h (meaning i) memo
  unfolding encode
  encode-Built (commit hash) e = commit_lem hash e
  encode-Built (execute op) e = execute_lem op e
  encode-Built (pin address) e = pin_lem address e
  encode-Built (ignore tx) e = ignore_lem tx e
  encode-Built unpin e = unpin_lem e
  encode-Built (nonce n) e = nonce_lem n e
  encode-Built (bump tx fee) e = bump_lem tx fee e
