-- ===== src/Scripts/Passes.antt =====
-- scripts/gate1.ts: a prepared request passes the assertions.
use flare_hack.Prelude.{◌≡◌, refl, ap, ◌∙◌, none, some, length, ok, Text, Bytes, ◌===◌, ===_refl}
use mathlib.Core.Path.{subst}
use flare_hack.Viem.{Viem, IsDigest}
use flare_hack.UserOp.{Abi}
use flare_hack.Json.{get_field}
use flare_hack.Memo.Encode.{encode_execute_committed_memo, to_xrpl_memo_hex}
use flare_hack.Memo.Decode.{decode_memo, DecodedMemo, user_op_hash}
use flare_hack.Memo.Instruction.{commit, encode, message}
use flare_hack.Memo.RoundTrip.{decode_memo-encode}
use flare_hack.Memo.Shape.{encode-IsWellSized}
use flare_hack.Watcher.{buffer_from_hex}
use flare_hack.Prepare.{
  Chain, OneSigClient, PrepareParams, PreparedRequest, Reads, read_inputs,
  direct_minting_payment_address, prepare, memo_header_of, request_of, sum_values,
}
use flare_hack.Prepare.Reading.{read_inputs-Kept, Kept-some, direct_minting_payment_address-kept}
use flare_hack.Prepare.Operation.{IsRequest, prepare-IsRequest}
use flare_hack.Prepare.Payment.{buffer_from_hex-to_xrpl_memo_hex, canonical-IsDigest}
use flare_hack.Scripts.Preflight.{gate1_params, checks, count_bad, preflight}

decode_memo-committed :
    (viem : Viem) (p : PrepareParams) (hash : Text) {memo : Bytes}
    → IsDigest hash
    → encode_execute_committed_memo viem (memo_header_of p) hash ≡ ok memo
    → (buffer_from_hex (to_xrpl_memo_hex memo) ≡ memo)
      × (length memo ≡ 42)
      × (d : DecodedMemo) × (decode_memo memo ≡ ok d)
      × (d.payload ≡ user_op_hash hash)
decode_memo-committed viem p hash {memo} digest e =
    let made : encode viem (memo_header_of p) (commit hash) ≡ ok memo = unfold encode in e in
    let (bytes, n, short) = encode-IsWellSized viem (memo_header_of p) (commit hash) made in
    (
      buffer_from_hex-to_xrpl_memo_hex memo bytes,
      n,
      message (memo_header_of p) (commit hash),
      decode_memo-encode viem (memo_header_of p) (commit hash) made,
      ap user_op_hash (canonical-IsDigest hash digest),
    )

checks-good :
    (q : PreparedRequest) (memo : Bytes) (d : DecodedMemo)
    → length memo ≡ 42
    → d.payload ≡ user_op_hash q.user_op_hash
    → q.user_op.sender ≡ q.personal_account
    → q.total_call_value ≡ 0
    → count_bad (checks q memo d q.xrpl_payment.destination) ≡ 0
unfolding count_bad get_field ◌===◌
checks-good q memo d n commits sender value =
    rw
      (
        n,
        commits,
        ===_refl q.user_op_hash,
        ===_refl q.xrpl_payment.destination,
        sender,
        ===_refl q.personal_account,
        value,
      )
      refl

counted :
    (chain : Chain) (c : OneSigClient) (q : PreparedRequest) (memo : Bytes) (d : DecodedMemo)
    (vault : Text)
    → buffer_from_hex q.xrpl_payment.memo_data ≡ memo
    → decode_memo memo ≡ ok d
    → (direct_minting_payment_address chain none c).0 ≡ some vault
    → preflight chain c q ≡ some (count_bad (checks q memo d vault))
unfolding preflight
counted chain c q memo d vault read decoded payee =
    let found : decode_memo (buffer_from_hex q.xrpl_payment.memo_data) ≡ ok d =
      ap decode_memo read ∙ decoded in
    rw (found, payee) (ap (λ b. some (count_bad (checks q b d vault))) read)

-- All the checks hold of what `prepare` returns for a batch without value.
request-passes :
    (viem : Viem) (abi : Abi) (counter increment address : Text) (chain : Chain) (c : OneSigClient)
    (r : Reads) (q : PreparedRequest)
    → IsRequest viem abi (gate1_params counter increment address) r q
    → (direct_minting_payment_address chain none c).0 ≡ some r.destination
    → preflight chain c q ≡ some 0
unfolding sum_values
request-passes viem abi counter increment address chain c r q request vault =
    let p = gate1_params counter increment address in
    let (read, n, d, decoded, commits) =
      decode_memo-committed viem p request.op.user_op_hash
        (viem.keccak256-IsDigest request.op.user_op_data request.op.user_op_hash
          request.built.hashed)
        request.encoded in
    subst (λ v. preflight chain c v ≡ some 0) request.same
      (counted chain c (request_of p r request.op request.memo) request.memo d r.destination read
          decoded vault
        ∙ ap some (
            checks-good (request_of p r request.op request.memo) request.memo d n commits
              (ap (λ o. o.sender) request.built.same) refl))

-- Whatever request the client prepares for the counter, the script's seven assertions hold of it, on the client as `prepare` leaves it: none of them keeps the script from sending the payment.
pub preflight-prepare :
    (viem : Viem) (abi : Abi) (counter increment address : Text) (chain : Chain) (c : OneSigClient)
    {q : PreparedRequest}
    → (prepare viem abi chain (gate1_params counter increment address) c).0 ≡ ok q
    → preflight chain (prepare viem abi chain (gate1_params counter increment address) c).1 q
      ≡ some 0
unfolding prepare
preflight-prepare viem abi counter increment address chain c {q} e =
    let (r, reads, request) =
      prepare-IsRequest viem abi chain (gate1_params counter increment address) c e in
    let (known, payee) =
      Kept-some chain (read_inputs chain address c) (read_inputs-Kept chain address c) reads in
    let after = (read_inputs chain address c).1 in
    request-passes viem abi counter increment address chain after r q request
      (direct_minting_payment_address-kept chain after known ∙ payee)
