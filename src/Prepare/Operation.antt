-- ===== src/Prepare/Operation.antt =====
-- packages/sdk/src/prepare.ts: what a request is built from.
use flare_hack.Prelude.{
  ℕ, ◌≡◌, inl, inr, Option, none, some, List, [], ◌∷◌, Option-cases, Except, ok, err, bind_ensures,
  Text, Bytes, ok_injective,
}
use mathlib.Core.Path.{subst}
use flare_hack.Viem.{Viem}
use flare_hack.Memo.Encode.{encode_execute_committed_memo}
use flare_hack.UserOp.{
  Call, PackedUserOperation, Abi, PreparedUserOp, prepare_user_op, or_throw, user_op_of,
  build_user_op, encode_call_batch, encode_user_op, abi_failed, hash_failed,
}
use flare_hack.Prepare.{
  Chain, OneSigClient, PrepareParams, PreparedRequest, Reads, read_inputs, map_error,
  memo_header_of, request_of, assemble, assemble_read, prepare, user_op_failed, memo_failed,
}

or_throw-eq-ok : {E A : Type 0} (e : E) (o : Option A) {a : A} → or_throw e o ≡ ok a → o ≡ some a
or_throw-eq-ok e none h = cc
or_throw-eq-ok e (some x) h = cc

map_error-eq-ok :
    {E F A : Type 0} (f : E → F) (m : Except E A) {a : A} → map_error f m ≡ ok a → m ≡ ok a
map_error-eq-ok f (ok x) h = cc
map_error-eq-ok f (err e) h = cc

failed :
    (viem : Viem) (abi : Abi) (p : PrepareParams) (o : Option Reads) {q : PreparedRequest}
    → o ≡ none
    → assemble_read viem abi p o ≡ ok q
    → ⊥
failed viem abi p none h e = cc
failed viem abi p (some r) h e = cc

module _ (viem : Viem) (abi : Abi) where
  -- The operation that is hashed performs the calls, from the account and with the nonce given.
  pub record IsOperation (sender : Text) (nonce : ℕ) (calls : List Call) (op : PreparedUserOp)
      : Type 0 where
    pub calldata : Text
    pub performs : abi.encode_function_data calls ≡ some calldata
    pub same : op.user_op ≡ user_op_of sender nonce calldata
    pub encoded : abi.encode_abi_parameters op.user_op ≡ some op.user_op_data
    pub hashed : viem.keccak256 op.user_op_data ≡ some op.user_op_hash

  encode_call_batch-eq-ok :
      (calls : List Call) {calldata : Text}
      → encode_call_batch abi calls ≡ ok calldata
      → abi.encode_function_data calls ≡ some calldata
  unfolding encode_call_batch
  encode_call_batch-eq-ok [] h = cc
  encode_call_batch-eq-ok (c ∷ calls) h =
      or_throw-eq-ok abi_failed (abi.encode_function_data (c ∷ calls)) h

  build_user_op-eq-ok :
      (sender : Text) (nonce : ℕ) (calls : List Call) {o : PackedUserOperation}
      → build_user_op abi sender nonce calls ≡ ok o
      → (calldata : Text) × (abi.encode_function_data calls ≡ some calldata)
        × (o ≡ user_op_of sender nonce calldata)
  unfolding build_user_op
  build_user_op-eq-ok sender nonce calls {o} e =
      bind_ensures
        (λ v.
          (calldata : Text) × (abi.encode_function_data calls ≡ some calldata)
          × (v ≡ user_op_of sender nonce calldata))
        (encode_call_batch abi calls) _
        (λ calldata made same. (calldata, encode_call_batch-eq-ok calls made, cc)) e

  prepare_user_op-IsOperation :
      (sender : Text) (nonce : ℕ) (calls : List Call) {op : PreparedUserOp}
      → prepare_user_op viem abi sender nonce calls ≡ ok op
      → IsOperation sender nonce calls op
  unfolding prepare_user_op encode_user_op
  prepare_user_op-IsOperation sender nonce calls e =
      bind_ensures (IsOperation sender nonce calls) (build_user_op abi sender nonce calls) _
        (λ o built e1.
          bind_ensures (IsOperation sender nonce calls) (encode_user_op abi o) _
            (λ bytes encoded e2.
              bind_ensures (IsOperation sender nonce calls)
                (or_throw hash_failed (viem.keccak256 bytes)) _
                (λ hash hashed e3.
                  let (calldata, performs, same) = build_user_op-eq-ok sender nonce calls built in
                  subst (IsOperation sender nonce calls) (ok_injective e3) (record {
                    calldata = calldata;
                    performs = performs;
                    same = same;
                    encoded = or_throw-eq-ok abi_failed (abi.encode_abi_parameters o) encoded;
                    hashed = or_throw-eq-ok hash_failed (viem.keccak256 bytes) hashed;
                  }))
                e2)
            e1)
        e

  -- A request that is built on what was read.
  pub record IsRequest (p : PrepareParams) (r : Reads) (q : PreparedRequest) : Type 0 where
    pub op : PreparedUserOp
    pub memo : Bytes
    pub built : IsOperation r.personal_account r.nonce p.calls op
    pub encoded : encode_execute_committed_memo viem (memo_header_of p) op.user_op_hash ≡ ok memo
    pub same : request_of p r op memo ≡ q

  assemble-IsRequest :
      (p : PrepareParams) (r : Reads) {q : PreparedRequest}
      → assemble viem abi p r ≡ ok q
      → IsRequest p r q
  unfolding assemble
  assemble-IsRequest p r e =
      bind_ensures (IsRequest p r)
        (map_error user_op_failed (prepare_user_op viem abi r.personal_account r.nonce p.calls)) _
        (λ op made e1.
          bind_ensures (IsRequest p r)
            (map_error memo_failed
              (encode_execute_committed_memo viem (memo_header_of p) op.user_op_hash))
            _
            (λ memo encoded e2. record {
              op = op;
              memo = memo;
              built = prepare_user_op-IsOperation r.personal_account r.nonce p.calls (
                  map_error-eq-ok user_op_failed
                    (prepare_user_op viem abi r.personal_account r.nonce p.calls) made);
              encoded =
                  map_error-eq-ok memo_failed
                    (encode_execute_committed_memo viem (memo_header_of p) op.user_op_hash) encoded;
              same = ok_injective e2;
            })
            e1)
        e

  -- The reads that a request is built on.
  pub prepare-IsRequest :
      (chain : Chain) (p : PrepareParams) (c : OneSigClient) {q : PreparedRequest}
      → (prepare viem abi chain p c).0 ≡ ok q
      → (r : Reads) × ((read_inputs chain p.xrpl_address c).0 ≡ some r) × IsRequest p r q
  unfolding prepare
  prepare-IsRequest chain p c {q} e = elim (Option-cases (read_inputs chain p.xrpl_address c).0) [
    | inl none_read ↦ absurd (failed viem abi p (read_inputs chain p.xrpl_address c).0 none_read e)
    | inr (r, all_read) ↦ (
      r,
      all_read,
      assemble-IsRequest p r (subst (λ o. assemble_read viem abi p o ≡ ok q) all_read e),
    )
  ]
