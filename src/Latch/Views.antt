-- ===== src/Latch/Views.antt =====
-- extension/typescript/src/app/handlers.ts: what an observer of the replies can know of the state.
use flare_hack.Prelude.{
  ℕ, ◌≡◌, refl, sym, ap, ◌∙◌, ◌≢◌, ◌⊎◌, inl, inr, Option, none, some, [], ◌∷◌, arith, Bool-cases,
  Text, ◌===◌,
}
use flare_hack.Dict.{Dict, get, set}
use flare_hack.Latch.{IntentState, armed, fired, collected, cancelled, expired, Intent, Enclave}
use flare_hack.Latch.Arm.{is_armed}
use flare_hack.Latch.Commands.{
  status_reply, or_else, put, count_states, counts_armed, counts_fired, report_state,
}

-- An intent without its trigger, and without its payload while it is armed.
pub record View : Type 0 where
  pub state : IntentState
  pub armed_at : ℕ
  pub deadline : ℕ
  pub fired_at : Option ℕ
  pub released : Option Text

abbrev pub released_in : IntentState → Text → Option Text
released_in armed payload = none
released_in _ payload = some payload

abbrev pub view : Intent → View
view i = record {
  state = i.state;
  armed_at = i.armed_at;
  deadline = i.deadline;
  fired_at = i.fired_at;
  released = released_in i.state i.user_op_data;
}

abbrev pub view_of : Option Intent → Option View
view_of none = none
view_of (some i) = some (view i)

abbrev pub views : Dict Intent → Dict View
views [] = []
views ((k, i) ∷ m) = (k, view i) ∷ views m

-- The two differ at most in the triggers, and in the payloads of armed intents.
pub record Alike (a b : Enclave) : Type 0 where
  pub same_views : views a.intents ≡ views b.intents
  pub same_armed_total : a.armed_total ≡ b.armed_total
  pub same_fired_total : a.fired_total ≡ b.fired_total

get-views : (k : Text) (m : Dict Intent) → get k (views m) ≡ view_of (get k m)
unfolding get
get-views k [] = refl
get-views k ((j, i) ∷ m) = elim (Bool-cases (j === k)) [
  | inl same ↦ rw same refl
  | inr other ↦ rw other (get-views k m)
]

set-views : (k : Text) (i : Intent) (m : Dict Intent) → views (set k i m) ≡ set k (view i) (views m)
unfolding set
set-views k i [] = refl
set-views k i ((j, v) ∷ m) = elim (Bool-cases (j === k)) [
  | inl same ↦ rw same refl
  | inr other ↦ rw other (ap (λ r. (j, view v) ∷ r) (set-views k i m))
]

pub get-Alike :
    (k : Text) (a b : Enclave) → Alike a b → view_of (get k a.intents) ≡ view_of (get k b.intents)
get-Alike k a b h = sym (get-views k a.intents) ∙ (ap (get k) h.same_views ∙ get-views k b.intents)

pub put-Alike :
    (k : Text) (i j : Intent) (a b : Enclave)
    → Alike a b
    → view i ≡ view j
    → Alike (put k i a) (put k j b)
put-Alike k i j a b h e = record {
  same_views =
      set-views k i a.intents
      ∙ (ap (λ v. set k v (views a.intents)) e
          ∙ (ap (set k (view j)) h.same_views ∙ sym (set-views k j b.intents)));
  same_armed_total = h.same_armed_total;
  same_fired_total = h.same_fired_total;
}

-- Two runs of a handler that an observer of the replies cannot tell apart, now or later.
abbrev pub SameAnswer {ℓ} : {R : Type ℓ} → R × Enclave → R × Enclave → Type ℓ
SameAnswer (r, a) (s, b) = (r ≡ s) × Alike a b

pub some-inj {ℓ} : {A : Type ℓ} {x y : A} → some x ≡ some y → x ≡ y
some-inj e = cc

pub status_reply-view :
    (o p : Option Intent) → view_of o ≡ view_of p → status_reply o ≡ status_reply p
status_reply-view none none e = refl
status_reply-view none (some j) e = cc
status_reply-view (some i) none e = cc
status_reply-view (some i) (some j) e = cc

pub or_else-view :
    (o p q r : Option Intent)
    → view_of o ≡ view_of p
    → view_of q ≡ view_of r
    → view_of (or_else o q) ≡ view_of (or_else p r)
or_else-view none none q r d e = e
or_else-view none (some j) q r d e = cc
or_else-view (some i) none q r d e = cc
or_else-view (some i) (some j) q r d e = d

pub state-cases :
    (s : IntentState)
    → (s ≡ armed) ⊎ ((s ≡ fired) ⊎ ((s ≡ collected) ⊎ ((s ≡ cancelled) ⊎ (s ≡ expired))))
state-cases armed = inl refl
state-cases fired = inr (inl refl)
state-cases collected = inr (inr (inl refl))
state-cases cancelled = inr (inr (inr (inl refl)))
state-cases expired = inr (inr (inr (inr refl)))

pub released-inj :
    (s : IntentState) (p q : Text) → s ≢ armed → released_in s p ≡ released_in s q → p ≡ q
released-inj armed p q out e = elim (out refl) [ ]
released-inj fired p q out e = cc
released-inj collected p q out e = cc
released-inj cancelled p q out e = cc
released-inj expired p q out e = cc

pub view-state : (i j : Intent) → view i ≡ view j → i.state ≡ j.state
view-state i j e = ap (λ v. v.state) e

pub is_armed-view : (o p : Option Intent) → view_of o ≡ view_of p → is_armed o ≡ is_armed p
is_armed-view none none e = refl
is_armed-view none (some j) e = cc
is_armed-view (some i) none e = cc
is_armed-view (some i) (some j) e = rw (view-state i j (some-inj e)) refl

count_states-views :
    (f : IntentState → ℕ) (m n : Dict Intent)
    → views m ≡ views n
    → count_states f m ≡ count_states f n
unfolding count_states
count_states-views f [] [] e = refl
count_states-views f [] (y ∷ n) e = cc
count_states-views f (x ∷ m) [] e = cc
count_states-views f ((k, i) ∷ m) ((l, j) ∷ n) e =
    let s : i.state ≡ j.state = cc in
    let rest : views m ≡ views n = cc in ground (arith, ap f s, count_states-views f m n rest)

pub report-Alike : (a b : Enclave) → Alike a b → report_state a ≡ report_state b
unfolding report_state
report-Alike a b h =
    let x = count_states-views counts_armed a.intents b.intents h.same_views in
    let y = count_states-views counts_fired a.intents b.intents h.same_views in
    let z = h.same_armed_total in let w = h.same_fired_total in cc
