-- ===== src/Latch/Secrecy.antt =====
-- extension/typescript/src/app/handlers.ts: what the four commands give away of an armed intent.
use flare_hack.Prelude.{
  ℕ, ◌+◌, ◌≡◌, refl, sym, ap, ◌∙◌, ◌≢◌, inl, inr, Option, none, some, Bool-cases, Except, ok, err,
  Except-cases, Text, codes, to_lower_case,
}
use flare_hack.Viem.{Viem}
use flare_hack.Json.{JsonCodec}
use flare_hack.Dict.{get}
use flare_hack.Latch.{
  armed, collected, cancelled, Intent, Enclave, HandlerError, HandlerResult, success, answer,
  commitment_of,
}
use flare_hack.Latch.Arm.{ArmRequest, is_armed, new_intent, parse_arm, arm_intent, handle_arm}
use flare_hack.Latch.Commands.{
  collected_reply, put, handle_status, cancel_intent, handle_cancel, collect_intent, handle_collect,
}
use flare_hack.Latch.Views.{
  View, released_in, view, view_of, Alike, get-Alike, put-Alike, SameAnswer, some-inj,
  status_reply-view, or_else-view, state-cases, released-inj, view-state, is_armed-view,
}

module _ (codec : JsonCodec) where
  answer-Alike :
      {A : Type 0} (r : Except HandlerError A) (f g : A → HandlerResult × Enclave) (a b : Enclave)
      → Alike a b
      → ((x : A) → SameAnswer (f x) (g x))
      → SameAnswer (answer r f a) (answer r g b)
  answer-Alike (ok x) f g a b h same = same x
  answer-Alike (err x) f g a b h same = (refl, h)

  pub status-Alike :
      (msg : Text) (a b : Enclave)
      → Alike a b
      → SameAnswer (handle_status codec msg a) (handle_status codec msg b)
  unfolding handle_status
  status-Alike msg a b h = answer-Alike (commitment_of codec msg) _ _ a b h (λ c. (
    ap (success codec) (
        status_reply-view _ _ (
          or_else-view (get (to_lower_case c) a.intents) (get (to_lower_case c) b.intents)
            (get c a.intents) (get c b.intents) (get-Alike (to_lower_case c) a b h)
            (get-Alike c a b h))),
    h,
  ))

  cancel_intent-Alike :
      (c : Text) (a b : Enclave) (o p : Option Intent)
      → Alike a b
      → view_of o ≡ view_of p
      → SameAnswer (cancel_intent codec c a o) (cancel_intent codec c b p)
  unfolding cancel_intent
  cancel_intent-Alike c a b none none h e = (refl, h)
  cancel_intent-Alike c a b none (some j) h e = cc
  cancel_intent-Alike c a b (some i) none h e = cc
  cancel_intent-Alike c a b (some i) (some j) h e =
      let v = some-inj e in
      let same = sym (view-state i j v) in
      elim (state-cases i.state) [
        | inl at ↦
            rw (at, same ∙ at)
              (
                refl,
                put-Alike c _ _ a b h (
                    ap {A = View}
                      (λ v. record v { state = cancelled; released = some (codes "0x") }) v),
              )
        | inr (inl at) ↦ rw (at, same ∙ at) (refl, h)
        | inr (inr (inl at)) ↦ rw (at, same ∙ at) (refl, h)
        | inr (inr (inr (inl at))) ↦ rw (at, same ∙ at) (refl, h)
        | inr (inr (inr (inr at))) ↦ rw (at, same ∙ at) (refl, h)
      ]

  collected_reply-view :
      (i j : Intent) → view i ≡ view j → i.state ≢ armed → collected_reply i ≡ collected_reply j
  collected_reply-view i j e out =
      let payload : i.user_op_data ≡ j.user_op_data =
        released-inj i.state i.user_op_data j.user_op_data out (
          ap {A = View} (λ v. v.released) e
          ∙ ap (λ t. released_in t j.user_op_data) (sym (view-state i j e))) in
      let time : i.fired_at ≡ j.fired_at = ap {A = View} (λ v. v.fired_at) e in cc

  collect-put :
      (c : Text) (i j : Intent) (a b : Enclave)
      → Alike a b
      → view i ≡ view j
      → i.state ≢ armed
      → SameAnswer
          (success codec (collected_reply i), put c (record i { state = collected }) a)
          (success codec (collected_reply j), put c (record j { state = collected }) b)
  collect-put c i j a b h e out =
      let payload : i.user_op_data ≡ j.user_op_data =
        released-inj i.state i.user_op_data j.user_op_data out (
          ap {A = View} (λ v. v.released) e
          ∙ ap (λ t. released_in t j.user_op_data) (sym (view-state i j e))) in
      (
        ap (success codec) (collected_reply-view i j e out),
        put-Alike c _ _ a b h (
            ap {A = View} (λ v. record v { state = collected; released = some i.user_op_data }) e
            ∙ ap {A = Text} (λ p. record (view j) { state = collected; released = some p })
                payload),
      )

  collect_intent-Alike :
      (c : Text) (a b : Enclave) (o p : Option Intent)
      → Alike a b
      → view_of o ≡ view_of p
      → SameAnswer (collect_intent codec c a o) (collect_intent codec c b p)
  unfolding collect_intent
  collect_intent-Alike c a b none none h e = (refl, h)
  collect_intent-Alike c a b none (some j) h e = cc
  collect_intent-Alike c a b (some i) none h e = cc
  collect_intent-Alike c a b (some i) (some j) h e =
      let v = some-inj e in
      let same = sym (view-state i j v) in
      elim (state-cases i.state) [
        | inl at ↦ simp (at, same ∙ at) (refl, h)
        | inr (inl at) ↦ simp (at, same ∙ at) (collect-put c i j a b h v (λ x. cc))
        | inr (inr (inl at)) ↦ simp (at, same ∙ at) (collect-put c i j a b h v (λ x. cc))
        | inr (inr (inr (inl at))) ↦ simp (at, same ∙ at) (refl, h)
        | inr (inr (inr (inr at))) ↦ simp (at, same ∙ at) (refl, h)
      ]

  pub cancel-Alike :
      (msg : Text) (a b : Enclave)
      → Alike a b
      → SameAnswer (handle_cancel codec msg a) (handle_cancel codec msg b)
  unfolding handle_cancel
  cancel-Alike msg a b h =
      answer-Alike (commitment_of codec msg) _ _ a b h
        (λ c. cancel_intent-Alike c a b (get c a.intents) (get c b.intents) h (get-Alike c a b h))

  pub collect-Alike :
      (msg : Text) (a b : Enclave)
      → Alike a b
      → SameAnswer (handle_collect codec msg a) (handle_collect codec msg b)
  unfolding handle_collect
  collect-Alike msg a b h =
      answer-Alike (commitment_of codec msg) _ _ a b h
        (λ c. collect_intent-Alike c a b (get c a.intents) (get c b.intents) h (get-Alike c a b h))

  module _ (viem : Viem) (max_deadline max_date : ℕ) where
    new_intent-view :
        (now m n : ℕ) (r : ArmRequest) → view (new_intent now m r) ≡ view (new_intent now n r)
    new_intent-view now m n r = refl

    pub arm-Alike :
        (now : ℕ) (msg : Text) (a b : Enclave)
        → Alike a b
        → SameAnswer
            (handle_arm viem codec max_deadline max_date now msg a)
            (handle_arm viem codec max_deadline max_date now msg b)
    unfolding handle_arm arm_intent
    arm-Alike now msg a b h = elim (Except-cases (parse_arm viem codec max_deadline now msg)) [
      | inr (x, bad) ↦ rw bad (refl, h)
      | inl (r, good) ↦
          let same = sym (
            is_armed-view (get r.commitment a.intents) (get r.commitment b.intents)
              (get-Alike r.commitment a b h)) in
          elim (Bool-cases (is_armed (get r.commitment a.intents))) [
            | inl waits ↦ rw (good, waits, same ∙ waits) (refl, h)
            | inr free ↦
                rw (good, free, same ∙ free)
                  (
                    refl,
                    let p =
                          put-Alike r.commitment (new_intent now a.armed_total r)
                            (new_intent now b.armed_total r) a b h refl in
                        record {
                          same_views = p.same_views;
                          same_armed_total = ap (λ n. n + 1) h.same_armed_total;
                          same_fired_total = h.same_fired_total;
                        },
                  )
          ]
    ]
