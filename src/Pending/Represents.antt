-- ===== src/Pending/Represents.antt =====
-- packages/executor/src/store.ts: the store and what it should know.
use flare_hack.Prelude.{
  ◌≡◌, refl, sym, ap, ◌∙◌, inl, inr, false, Option, none, some, [], ◌∷◌, arith, if◌then◌else◌,
  Bool-cases, drop, Text, ◌===◌, ===_refl, ===_iff,
}
use flare_hack.Dict.{Dict, get, set, get-set}
use flare_hack.Hex.{with_prefix}
use flare_hack.Viem.{Viem, IsDigest}
use flare_hack.Pending.{PendingUserOp, PendingStore, file_name, read_file, fetch_cached, fetch}
use flare_hack.Pending.Sound.{file_name-SameDigits}
use flare_hack.Pending.Abstract.{Operation, registers, gets, restarts, Known}

-- The store knows what it should, as far as commitments go.
abbrev pub Represents : PendingStore → Known → Type 0
Represents store k =
    (d : Text)
    → IsDigest d
    → ((fetch d store).0 ≡ k.live d) × (read_file (file_name d) store ≡ k.durable d)

-- Reads ask for digests, as `decodeMemo` prints them.
abbrev pub AsksDigest : Operation → Type 0
AsksDigest (registers now can entry) = Unit
AsksDigest (gets c) = IsDigest c
AsksDigest restarts = Unit

abbrev found_by : Option PendingUserOp → Option PendingUserOp → Option PendingUserOp
found_by (some r) file = some r
found_by none file = file

abbrev pub found_in : Text → PendingStore → Option PendingUserOp
found_in d store = found_by (get d store.memory) (read_file (file_name d) store)

fetch_cached-found :
    (key : Text) (store : PendingStore) (cached file : Option PendingUserOp)
    → (fetch_cached key store cached file).0 ≡ found_by cached file
fetch_cached-found key store (some r) file = refl
fetch_cached-found key store none none = refl
fetch_cached-found key store none (some r) = refl

pub fetch-found :
    (d : Text) (store : PendingStore) → IsDigest d → (fetch d store).0 ≡ found_in d store
unfolding fetch
fetch-found d store h =
    rw (h.2) (fetch_cached-found d store (get d store.memory) (read_file (file_name d) store))

prefixed : (c : Text) → IsDigest c → c ≡ with_prefix (drop 2 c)
prefixed [] h = absurd h.0
prefixed (a ∷ []) h = absurd h.0
prefixed (a ∷ b ∷ c) h = cc (h.0.0, h.0.1)

-- Commitments with one file name are one commitment.
file_name-injective :
    (viem : Viem) (c d : Text) → IsDigest c → IsDigest d → file_name c ≡ file_name d → c ≡ d
file_name-injective viem c d h k e =
    let same : drop 2 c ≡ drop 2 d =
      sym (ap (drop 2) h.2) ∙ (file_name-SameDigits viem c d e ∙ ap (drop 2) k.2) in
    prefixed c h ∙ (ap with_prefix same ∙ sym (prefixed d k))

file_name-=== :
    (viem : Viem) (c d : Text) → IsDigest c → IsDigest d → (file_name c === file_name d) ≡ (c === d)
file_name-=== viem c d h k = elim (Bool-cases (c === d)) [
  | inl same ↦ rw ((===_iff c d).0 same) (===_refl (file_name d) ∙ sym (===_refl d))
  | inr other ↦ elim (Bool-cases (file_name c === file_name d)) [
    | inl e ↦ absurd (
        ground (
          arith,
          other,
          (===_iff c d).1
              (file_name-injective viem c d h k ((===_iff (file_name c) (file_name d)).0 e)),
        ))
    | inr e ↦ e ∙ sym other
  ]
]

pub read_file-set :
    (viem : Viem) (c d : Text) (r : Option PendingUserOp) (store : PendingStore)
    (memory : Dict PendingUserOp)
    → IsDigest c
    → IsDigest d
    → read_file (file_name d) (record { memory = memory; files = set (file_name c) r store.files })
      ≡ (if c === d then r else read_file (file_name d) store)
read_file-set viem c d r store memory h k =
    rw (get-set (file_name c) (file_name d) r store.files, file_name-=== viem c d h k, read_file)
      (elim (Bool-cases (c === d)) [ inl same ↦ rw same refl | inr other ↦ rw other refl ])

pub found_in-set :
    (c d : Text) (r : PendingUserOp) (store : PendingStore) (files : Dict (Option PendingUserOp))
    → ((c === d) ≡ false
        → read_file (file_name d) (record { memory = set c r store.memory; files = files })
          ≡ read_file (file_name d) store)
    → found_in d (record { memory = set c r store.memory; files = files })
      ≡ (if c === d then some r else found_in d store)
found_in-set c d r store files same_file = elim (Bool-cases (c === d)) [
  | inl same ↦ rw (get-set c d r store.memory, same, found_in) refl
  | inr other ↦ rw (get-set c d r store.memory, other, same_file other, found_in) refl
]
