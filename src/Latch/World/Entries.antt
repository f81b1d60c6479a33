-- ===== src/Latch/World/Entries.antt =====
-- What holds of each intent in the map, and that every write keeps it.
use mathlib.Core.Path.{subst}
use flare_hack.Prelude.{
  ℕ, zero, suc, ◌+◌, ◌≤◌, ◌<◌, ◌≡◌, refl, sym, ap, ◌∙◌, ◌≢◌, ◌⊎◌, inl, inr, Bool, true, false, some,
  List, [], ◌∷◌, arith, ◌==◌, ==_iff, Bool-cases, All, Text, codes, ◌===◌, All-mono,
}
use flare_hack.Viem.{Viem}
use flare_hack.Dict.{Dict, get, set, All-get, All-set}
use flare_hack.Latch.{IntentState, cancelled, expired, Intent}
use flare_hack.Latch.Tick.{entry_at, update_object, expire, fire}
use flare_hack.Latch.Effects.{is_out, cancel, collect}
use flare_hack.Latch.World.{Check, Held}

abbrev pub is_over : IntentState → Bool
is_over cancelled = true
is_over expired = true
is_over _ = false

-- The trigger of an intent held in a check of a tick before its deadline.
pub record HasFired (checks : List Check) (i : Intent) : Type 0 where
  pub at : ℕ
  pub recorded : i.fired_at ≡ some at
  pub in_time : at < i.deadline
  pub held : Held checks i.serial i.trigger at

module _ (viem : Viem) (max_deadline : ℕ) where
  pub record IsSoundEntry (total : ℕ) (checks : List Check) (entry : Text × Intent) : Type 0 where
    pub key : entry.0 ≡ entry.1.commitment
    pub serial_lt : entry.1.serial < total
    pub wiped : is_over entry.1.state ≡ true → entry.1.user_op_data ≡ codes "0x"
    pub released : is_out entry.1.state ≡ true → HasFired checks entry.1
    pub bound :
        (entry.1.user_op_data ≡ codes "0x")
        ⊎ (viem.keccak256 entry.1.user_op_data ≡ some entry.1.commitment)
    pub after_arming : entry.1.armed_at < entry.1.deadline
    pub limited : entry.1.deadline ≤ entry.1.armed_at + max_deadline

  module _ {total : ℕ} {checks : List Check} {k : Text} {i : Intent}
      (h : IsSoundEntry total checks (k, i)) where
    pub expire-IsSoundEntry : IsSoundEntry total checks (k, expire i)
    expire-IsSoundEntry = record {
      key = h.key;
      serial_lt = h.serial_lt;
      wiped = λ _. refl;
      released = λ e. cc;
      bound = inl refl;
      after_arming = h.after_arming;
      limited = h.limited;
    }

    pub cancel-IsSoundEntry : IsSoundEntry total checks (k, cancel i)
    cancel-IsSoundEntry = record {
      key = h.key;
      serial_lt = h.serial_lt;
      wiped = λ _. refl;
      released = λ e. cc;
      bound = inl refl;
      after_arming = h.after_arming;
      limited = h.limited;
    }

    pub collect-IsSoundEntry : is_out i.state ≡ true → IsSoundEntry total checks (k, collect i)
    collect-IsSoundEntry out = record {
      key = h.key;
      serial_lt = h.serial_lt;
      wiped = λ e. cc;
      released = λ _.
          let f = h.released out in
          record { at = f.at; recorded = f.recorded; in_time = f.in_time; held = f.held };
      bound = h.bound;
      after_arming = h.after_arming;
      limited = h.limited;
    }

    pub fire-IsSoundEntry :
        (now : ℕ)
        → now < i.deadline
        → Held checks i.serial i.trigger now
        → IsSoundEntry total checks (k, fire now i)
    fire-IsSoundEntry now early held = record {
      key = h.key;
      serial_lt = h.serial_lt;
      wiped = λ e. cc;
      released = λ _. record { at = now; recorded = refl; in_time = early; held = held };
      bound = h.bound;
      after_arming = h.after_arming;
      limited = h.limited;
    }

    pub IsSoundEntry-mono : {more : ℕ} → total ≤ more → IsSoundEntry more checks (k, i)
    IsSoundEntry-mono le = record {
      key = h.key;
      serial_lt = omega (arith, h.serial_lt);
      wiped = h.wiped;
      released = h.released;
      bound = h.bound;
      after_arming = h.after_arming;
      limited = h.limited;
    }

    -- One more check takes nothing away.
    pub IsSoundEntry-check : (c : Check) → IsSoundEntry total (c ∷ checks) (k, i)
    IsSoundEntry-check c = record {
      key = h.key;
      serial_lt = h.serial_lt;
      wiped = h.wiped;
      released = λ out.
          let f = h.released out in
          record {
            at = f.at;
            recorded = f.recorded;
            in_time = f.in_time;
            held = record {
              check = f.held.check;
              made = inr f.held.made;
              of_object = f.held.of_object;
              of_trigger = f.held.of_trigger;
              at_time = f.held.at_time;
              holds = f.held.holds;
            };
          };
      bound = h.bound;
      after_arming = h.after_arming;
      limited = h.limited;
    }

-- No two entries hold the same object.
abbrev pub HasOwnSerials : Dict Intent → Type 0
HasOwnSerials [] = Unit
HasOwnSerials ((_, i) ∷ m) = All (λ e. e.1.serial ≢ i.serial) m × HasOwnSerials m

module _ (P Q : Text × Intent → Type 0) (serial : ℕ) (f : Intent → Intent) where
  -- A write through an object, entry by entry.
  pub All-update_object :
      (m : Dict Intent)
      → ((k : Text) (i : Intent) → i.serial ≡ serial → P (k, i) → Q (k, f i))
      → ((k : Text) (i : Intent) → i.serial ≢ serial → P (k, i) → Q (k, i))
      → All P m
      → All Q (update_object serial f m)
  unfolding update_object
  All-update_object [] hit miss h = tt
  All-update_object ((k, i) ∷ m) hit miss (p, h) = elim (Bool-cases (i.serial == serial)) [
    | inl same ↦
        rw same (hit k i ((==_iff i.serial serial).0 same) p, All-update_object m hit miss h)
    | inr other ↦ rw other (miss k i (λ e. ground (arith, e)) p, All-update_object m hit miss h)
  ]

-- A write that leaves the object's identity keeps the identities apart.
pub HasOwnSerials-update_object :
    (serial : ℕ) (f : Intent → Intent) (m : Dict Intent)
    → ((i : Intent) → (f i).serial ≡ i.serial)
    → HasOwnSerials m
    → HasOwnSerials (update_object serial f m)
unfolding update_object
HasOwnSerials-update_object serial f [] keep h = tt
HasOwnSerials-update_object serial f ((k, i) ∷ m) keep (p, h) =
    let apart =
      All-update_object (λ e. e.1.serial ≢ i.serial) (λ e. e.1.serial ≢ i.serial) serial f m
        (λ _ j _ ne. rw (keep j) ne) (λ _ _ _ ne. ne) p in
    let rest = HasOwnSerials-update_object serial f m keep h in
    elim (Bool-cases (i.serial == serial)) [
      | inl same ↦ rw (same, keep i) (apart, rest)
      | inr other ↦ rw other (apart, rest)
    ]

-- Setting a key to an object that no other entry holds.
pub HasOwnSerials-set :
    (k : Text) (v : Intent) (m : Dict Intent)
    → All (λ e. e.1.serial ≢ v.serial) m
    → HasOwnSerials m
    → HasOwnSerials (set k v m)
unfolding set
HasOwnSerials-set k v [] fresh h = (tt, tt)
HasOwnSerials-set k v ((j, w) ∷ m) (q, fresh) (p, h) = elim (Bool-cases (j === k)) [
  | inl same ↦ rw same (fresh, h)
  | inr other ↦ rw other (All-set _ k v m p (λ e. q (sym e)), HasOwnSerials-set k v m fresh h)
]

-- Setting a key to its own object, changed.
pub HasOwnSerials-set_self :
    (k : Text) (v : Intent) {i : Intent} (m : Dict Intent)
    → get k m ≡ some i
    → v.serial ≡ i.serial
    → HasOwnSerials m
    → HasOwnSerials (set k v m)
unfolding set get
HasOwnSerials-set_self k v [] found same h = (tt, tt)
HasOwnSerials-set_self k v {i} ((j, w) ∷ m) found same (p, h) = elim (Bool-cases (j === k)) [
  | inl hit ↦
      let at : w.serial ≡ v.serial = ground (arith, found) in
      rw hit (All-mono m (λ e ne. rw (← at) ne) p, h)
  | inr other ↦
      let found' : get k m ≡ some i = ground (arith, found) in
      rw other (
        All-set _ k v m p (rw same (All-get _ k m p found')),
        HasOwnSerials-set_self k v m found' same h,
      )
]

pub All-entry_at {κ} :
    (P : Text × Intent → Type κ) (position : ℕ) (m : Dict Intent) {i : Intent}
    → All P m
    → entry_at position m ≡ some i
    → (k : Text) × P (k, i)
All-entry_at P n [] h found = cc
All-entry_at P zero ((k, w) ∷ m) (p, h) found = (k, subst (λ x. P (k, x)) (cc) p)
All-entry_at P (suc n) ((k, w) ∷ m) (p, h) found = All-entry_at P n m h found

-- The entries that hold the object at a position are that entry.
pub entry_at_own :
    (position : ℕ) (m : Dict Intent) {i : Intent}
    → entry_at position m ≡ some i
    → HasOwnSerials m
    → All (λ e. e.1.serial ≡ i.serial → e.1 ≡ i) m
entry_at_own n [] found h = tt
entry_at_own zero ((k, w) ∷ m) {i} found (p, h) =
    let at : w ≡ i = cc in
    (λ _. at, All-mono m (λ e ne same. absurd (ne (same ∙ sym (ap (λ x. x.serial) at)))) p)
entry_at_own (suc n) ((k, w) ∷ m) found (p, h) =
    (λ same. absurd ((All-entry_at _ n m p found).1 (sym same)), entry_at_own n m found h)

-- Setting a key to its own object: what holds of the new value holds of every entry that holds the
-- object.
pub set-own :
    (Q : Intent → Type 0) (k : Text) (v : Intent) (m : Dict Intent) {i : Intent}
    → get k m ≡ some i
    → Q v
    → HasOwnSerials m
    → All (λ e. e.1.serial ≡ i.serial → Q e.1) (set k v m)
unfolding get set
set-own Q k v [] found q h = cc
set-own Q k v ((j, w) ∷ m) {i} found q (p, h) = elim (Bool-cases (j === k)) [
  | inl hit ↦
      let at : w ≡ i = ground (arith, found) in
      rw hit (λ _. q, All-mono m (λ e ne same. absurd (ne (same ∙ sym (ap (λ x. x.serial) at)))) p)
  | inr other ↦
      let found' : get k m ≡ some i = ground (arith, found) in
      rw other (λ same. absurd (All-get _ k m p found' (sym same)), set-own Q k v m found' q h)
]

-- A write through an object, seen by key.
pub get-update_object :
    (k : Text) (serial : ℕ) (f : Intent → Intent) (m : Dict Intent) {i : Intent}
    → get k m ≡ some i
    → i.serial ≡ serial
    → get k (update_object serial f m) ≡ some (f i)
unfolding get update_object
get-update_object k serial f [] found same = cc
get-update_object k serial f ((j, w) ∷ m) found same = elim (Bool-cases (j === k)) [
  | inl hit ↦ ground (arith, found)
  | inr other ↦ rw other (get-update_object k serial f m (ground (arith, found)) same)
]
