-- ===== src/Relay/Laws.antt =====
-- scripts/run-executor.ts: what the wallet is asked to sign.
use flare_hack.Prelude.{
  ℕ, ◌≡◌, refl, sym, ap, ◌∙◌, none, some, [], ◌∷◌, ok, bind_ensures, Text, Bytes, codes, ◌===◌,
  ok_injective,
}
use mathlib.Core.Path.{subst}
use flare_hack.Json.{string, object, get_field}
use flare_hack.Viem.{Viem}
use flare_hack.Memo.Encode.{encode_execute_committed_memo, to_xrpl_memo_hex}
use flare_hack.UserOp.{Abi}
use flare_hack.Prepare.{Chain, OneSigClient, PreparedRequest, prepare, Reads}
use flare_hack.Prepare.Operation.{IsRequest, prepare-IsRequest}
use flare_hack.Prepare.Payment.{memos_json, commitment-encode}
use flare_hack.Service.{PreparedForWeb}
use flare_hack.Xaman.{Payload, payload_of}
use flare_hack.Watcher.{commitment_from_memos}
use flare_hack.Relay.{
  Demo, demo_params, web_header, web_of, encode_again, prepare_for_web, sign_input,
}

module _ (viem : Viem) (abi : Abi) (chain : Chain) (demo : Demo) where
  pub encode_again-request :
      (address : Text) (r : Reads) (q : PreparedRequest)
      → IsRequest viem abi (demo_params demo address) r q
      → (memo : Bytes) × (encode_execute_committed_memo viem web_header q.user_op_hash ≡ ok memo)
        × (q.xrpl_payment.memo_data ≡ to_xrpl_memo_hex memo)
        × (encode_again viem q ≡ ok (web_of q memo))
        × (viem.keccak256 q.user_op_data ≡ some q.user_op_hash)
  unfolding encode_again
  encode_again-request address r q request =
      subst
        (λ v.
          (memo : Bytes) × (encode_execute_committed_memo viem web_header v.user_op_hash ≡ ok memo)
          × (v.xrpl_payment.memo_data ≡ to_xrpl_memo_hex memo)
          × (encode_again viem v ≡ ok (web_of v memo))
          × (viem.keccak256 v.user_op_data ≡ some v.user_op_hash))
        request.same
        (request.memo, request.encoded, refl, rw request.encoded refl, request.built.hashed)

  -- When the client prepares a request, the service's `prepare` returns it: the memo that the script encodes a second time is the one of the request's payment.
  pub prepare_for_web-prepare :
      (address : Text) (c : OneSigClient) {q : PreparedRequest}
      → (prepare viem abi chain (demo_params demo address) c).0 ≡ ok q
      → (memo : Bytes) × ((prepare_for_web viem abi chain demo address c).0 ≡ ok (web_of q memo))
        × ((web_of q memo).memo_hex ≡ q.xrpl_payment.memo_data)
  unfolding prepare_for_web
  prepare_for_web-prepare address c {q} e =
      let (r, _, request) = prepare-IsRequest viem abi chain (demo_params demo address) c e in
      let (memo, _, same, again, _) = encode_again-request address r q request in
      (memo, rw e again, sym same)

  -- The payment that Xaman shows.
  pub record IsBound (address : Text) (w : PreparedForWeb) (payload : Payload) : Type 0 where
    pub hashed : viem.keccak256 w.user_op_data ≡ some w.user_op_hash
    pub observed : commitment_from_memos (object payload.txjson) ≡ some w.user_op_hash
    pub untagged : get_field (codes "DestinationTag") payload.txjson ≡ none
    pub payer : get_field (codes "Account") payload.txjson ≡ some (string address)
    pub payee : get_field (codes "Destination") payload.txjson ≡ some (string w.destination)
    pub amount : get_field (codes "Amount") payload.txjson ≡ some (string w.amount_drops)
    pub signers : payload.signers ≡ some (address ∷ [])
    pub network : payload.force_network ≡ some (codes "TESTNET")

  payload_of-IsBound :
      (x : ℕ) (address : Text) (w : PreparedForWeb) (memo : Bytes)
      → viem.keccak256 w.user_op_data ≡ some w.user_op_hash
      → encode_execute_committed_memo viem web_header w.user_op_hash ≡ ok memo
      → w.memo_hex ≡ to_xrpl_memo_hex memo
      → IsBound (x ∷ address) w (payload_of (sign_input (x ∷ address) w))
  unfolding payload_of get_field ◌===◌
  payload_of-IsBound x address w memo hashed encoded carried = record {
    hashed = hashed;
    observed =
        commitment-encode viem web_header w.user_op_hash
          (payload_of (sign_input (x ∷ address) w)).txjson
          (viem.keccak256-IsDigest w.user_op_data w.user_op_hash hashed) encoded
          (ap (λ m. some (memos_json m)) carried);
    untagged = refl;
    payer = refl;
    payee = refl;
    amount = refl;
    signers = refl;
    network = refl;
  }

  -- Whenever the service's `prepare` succeeds, the payment that Xaman is asked to show commits to the bytes that `prepare` returned and nothing else: the hash of the bytes is the commitment that the watcher reads from that payment; it has no DestinationTag; the account that prepared is the payer and the only permitted signer; payee and amount are the prepared ones; and the wallet is held to the test network.
  pub prepare_for_web-IsBound :
      (x : ℕ) (address : Text) (c : OneSigClient) {w : PreparedForWeb}
      → (prepare_for_web viem abi chain demo (x ∷ address) c).0 ≡ ok w
      → IsBound (x ∷ address) w (payload_of (sign_input (x ∷ address) w))
  unfolding prepare_for_web
  prepare_for_web-IsBound x address c {w} e =
      bind_ensures (λ v. IsBound (x ∷ address) v (payload_of (sign_input (x ∷ address) v)))
        (prepare viem abi chain (demo_params demo (x ∷ address)) c).0 (encode_again viem)
        (λ q made again.
          let (r, _, request) =
            prepare-IsRequest viem abi chain (demo_params demo (x ∷ address)) c made in
          let (memo, encoded, same, it, hashed) = encode_again-request (x ∷ address) r q request in
          subst (λ v. IsBound (x ∷ address) v (payload_of (sign_input (x ∷ address) v)))
            (ok_injective (sym it ∙ again))
            (payload_of-IsBound x address (web_of q memo) memo hashed encoded refl))
        e
