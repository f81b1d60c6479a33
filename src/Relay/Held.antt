-- ===== src/Relay/Held.antt =====
-- packages/executor/src/store.ts: what is registered is found again.
use flare_hack.Prelude.{ℕ, ◌≡◌, refl, false, some, [], ◌∷◌, arith, Text, ===_refl, to_lower_case}
use flare_hack.Disk.{Write, written, refused, cut}
use flare_hack.Dict.{get, get-set}
use flare_hack.Viem.{Viem}
use flare_hack.Pending.{
  PendingUserOp, PendingStore, Entry, pending_of, register, is_mismatch, put, fetch,
}

is_mismatch-same : (c : Text) → is_mismatch (some c) c ≡ false
unfolding is_mismatch
is_mismatch-same [] = refl
is_mismatch-same (x ∷ c) = rw (===_refl (to_lower_case (x ∷ c))) refl

get-put :
    (can : Write) (r : PendingUserOp) (store : PendingStore)
    → get (to_lower_case r.commitment) (put can r store).1.memory ≡ some r
get-put written r store = ground (
  arith,
  get-set (to_lower_case r.commitment) (to_lower_case r.commitment) r store.memory,
  ===_refl (to_lower_case r.commitment),
)
get-put refused r store = ground (
  arith,
  get-set (to_lower_case r.commitment) (to_lower_case r.commitment) r store.memory,
  ===_refl (to_lower_case r.commitment),
)
get-put cut r store = ground (
  arith,
  get-set (to_lower_case r.commitment) (to_lower_case r.commitment) r store.memory,
  ===_refl (to_lower_case r.commitment),
)

-- What is registered under its own hash is held in the memory, however the write of its file goes.
pub get-register :
    (viem : Viem) (now : ℕ) (can : Write) (entry : Entry) (store : PendingStore) (c : Text)
    → viem.keccak256 entry.user_op_data ≡ some c
    → entry.claimed ≡ some c
    → get (to_lower_case c) (register viem now can entry store).1.memory
      ≡ some (pending_of now entry c)
unfolding register
get-register viem now can entry store c hashed claimed =
    rw (hashed, claimed, is_mismatch-same c) (get-put can (pending_of now entry c) store)

pub fetch-held :
    (c : Text) (store : PendingStore) {r : PendingUserOp}
    → get (to_lower_case c) store.memory ≡ some r
    → fetch c store ≡ (some r, store)
unfolding fetch
fetch-held c store h = rw h refl
