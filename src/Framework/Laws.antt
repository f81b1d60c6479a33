-- ===== src/Framework/Laws.antt =====
-- extension/typescript/src/base/types.ts: what `lookup` finds.
use mathlib.Core.Path.{subst}
use flare_hack.Prelude.{
  ◌≡◌, refl, sym, ◌∙◌, inl, inr, ◌&&◌, none, some, List, [], ◌∷◌, ◌++◌, arith, Bool-cases,
  Option-cases, All, All-append, Except, ok, bind_ensures, Text, ◌===◌, ===_refl,
}
use flare_hack.Encoding.{string_to_bytes32_hex}
use flare_hack.Framework.{Registered, normalize, handle, find_handler, lookup, empty_bytes32}

some-inj {ℓ} : {A : Type ℓ} {x y : A} → some x ≡ some y → x ≡ y
some-inj e = cc

ok-inj {ℓ} : {E A : Type ℓ} {x y : A} → ◌≡◌ {A = Except E A} (ok x) (ok y) → x ≡ y
ok-inj e = cc

-- How the identifiers of a request match those of a registration.
pub record Names (op_type op_command t c : Text) : Type 0 where
  pub type_named : string_to_bytes32_hex op_type ≡ ok (normalize t)
  pub command_named : string_to_bytes32_hex op_command ≡ ok (normalize c)

module _ {H : Type 0} where
  abbrev pub AllHandlers : (H → Type 0) → List (Registered H) → Type 0
  AllHandlers P handlers = All (λ r. P r.handler) handlers

  find_handler-AllHandlers :
      (P : H → Type 0) (t c : Text) (handlers : List (Registered H)) {h : H}
      → AllHandlers P handlers
      → find_handler t c handlers ≡ some h
      → P h
  unfolding find_handler
  find_handler-AllHandlers P t c [] all_of e = cc
  find_handler-AllHandlers P t c (r ∷ handlers) (p, all_of) e =
      elim (Bool-cases ((r.op_type === t) && (r.op_command === c))) [
        | inl found ↦ subst P (some-inj (rw found at e)) p
        | inr other ↦ find_handler-AllHandlers P t c handlers all_of (rw other at e)
      ]

  -- What all registered handlers have, the handler that is looked up has.
  pub lookup-AllHandlers :
      (P : H → Type 0) (t c : Text) (handlers : List (Registered H)) {h : H}
      → AllHandlers P handlers
      → lookup t c handlers ≡ some h
      → P h
  unfolding lookup
  lookup-AllHandlers P t c handlers all_of e =
      elim (Option-cases (find_handler (normalize t) (normalize c) handlers)) [
        | inl absent ↦
            find_handler-AllHandlers P (normalize t) empty_bytes32 handlers all_of (rw absent at e)
        | inr (g, found) ↦
            find_handler-AllHandlers P (normalize t) (normalize c) handlers all_of
              (found ∙ rw found at e)
      ]

  pub handle-AllHandlers :
      (P : H → Type 0) (t c : Text) (h : H) (handlers : List (Registered H))
      {after : List (Registered H)}
      → handle t c h handlers ≡ ok after
      → AllHandlers P handlers
      → P h
      → AllHandlers P after
  unfolding handle
  handle-AllHandlers P t c h handlers e all_of p =
      bind_ensures (AllHandlers P) (string_to_bytes32_hex t) _
        (λ t32 at_t. bind_ensures (AllHandlers P) (string_to_bytes32_hex c) _ (λ c32 at_c q.
          subst (AllHandlers P) (ok-inj q)
            (All-append (λ r. P r.handler) handlers _ all_of (p, tt))))
        e

  find_handler-append :
      (t c : Text) (xs ys : List (Registered H))
      → find_handler t c xs ≡ none
      → find_handler t c (xs ++ ys) ≡ find_handler t c ys
  unfolding find_handler
  find_handler-append t c [] ys e = refl
  find_handler-append t c (r ∷ xs) ys e = ground (arith, find_handler-append t c xs ys)

  find_handler-keeps :
      (t c : Text) (xs ys : List (Registered H)) {h : H}
      → find_handler t c xs ≡ some h
      → find_handler t c (xs ++ ys) ≡ some h
  unfolding find_handler
  find_handler-keeps t c [] ys e = cc
  find_handler-keeps t c (r ∷ xs) ys e =
      elim (Bool-cases ((r.op_type === t) && (r.op_command === c))) [
        | inl found ↦ rw found (rw found at e)
        | inr other ↦ rw other (find_handler-keeps t c xs ys (rw other at e))
      ]

  -- What a registration appends.
  record Appended (op_type op_command : Text) (h : H) (handlers after : List (Registered H))
      : Type 0 where
    t32 : Text
    c32 : Text
    at_t : string_to_bytes32_hex op_type ≡ ok t32
    at_c : string_to_bytes32_hex op_command ≡ ok c32
    same : after ≡ handlers ++ record { op_type = t32; op_command = c32; handler = h } ∷ []

  handle-Appended :
      (op_type op_command : Text) (h : H) (handlers : List (Registered H))
      {after : List (Registered H)}
      → handle op_type op_command h handlers ≡ ok after
      → Appended op_type op_command h handlers after
  unfolding handle
  handle-Appended op_type op_command h handlers e =
      bind_ensures (Appended op_type op_command h handlers) (string_to_bytes32_hex op_type) _
        (λ t32 at_t.
          bind_ensures (Appended op_type op_command h handlers) (string_to_bytes32_hex op_command) _
            (λ c32 at_c q. record {
              t32 = t32;
              c32 = c32;
              at_t = at_t;
              at_c = at_c;
              same = sym (ok-inj q);
            }))
        e

  -- A registration that does not throw is found for the identifiers that it names, in whatever case
  -- they are written and with or without their prefix, when no handler was registered for exactly
  -- these before; a handler for every command of the type does not hide it.
  pub lookup-handle :
      (op_type op_command : Text) (h : H) (handlers : List (Registered H))
      {after : List (Registered H)} (t c : Text)
      → handle op_type op_command h handlers ≡ ok after
      → Names op_type op_command t c
      → find_handler (normalize t) (normalize c) handlers ≡ none
      → lookup t c after ≡ some h
  unfolding lookup find_handler
  lookup-handle op_type op_command h handlers t c e names absent =
      let a = handle-Appended op_type op_command h handlers e in
      let r : Registered H = record { op_type = a.t32; op_command = a.c32; handler = h } in
      let t_same : normalize t ≡ a.t32 = ok-inj (sym names.type_named ∙ a.at_t) in
      let c_same : normalize c ≡ a.c32 = ok-inj (sym names.command_named ∙ a.at_c) in
      rw
        (
          a.same,
          find_handler-append (normalize t) (normalize c) handlers (r ∷ []) absent,
          t_same,
          c_same,
          ===_refl a.t32,
          ===_refl a.c32,
        )
        refl

  -- What `lookup` found for exactly the identifiers of a request, it finds after every further
  -- registration.
  pub lookup-handle_earlier :
      (op_type op_command : Text) (h : H) (handlers : List (Registered H))
      {after : List (Registered H)} (t c : Text) {g : H}
      → handle op_type op_command h handlers ≡ ok after
      → find_handler (normalize t) (normalize c) handlers ≡ some g
      → lookup t c after ≡ some g
  unfolding lookup
  lookup-handle_earlier op_type op_command h handlers t c e found =
      let a = handle-Appended op_type op_command h handlers e in
      let r : Registered H = record { op_type = a.t32; op_command = a.c32; handler = h } in
      rw (a.same, find_handler-keeps (normalize t) (normalize c) handlers (r ∷ []) found) refl
