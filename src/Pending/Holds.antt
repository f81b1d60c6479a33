-- ===== src/Pending/Holds.antt =====
-- packages/executor/src/store.ts: what a read leaves in the memory.
use flare_hack.Prelude.{
  ◌≡◌, refl, Option, none, some, arith, Text, ===_refl, ===_iff, to_lower_case,
}
use flare_hack.Dict.{Dict, get, set, get-set}
use flare_hack.Pending.{PendingUserOp, PendingStore, file_name, read_file, fetch_cached, fetch}

-- Whatever `a` holds, `b` holds too.
abbrev pub Extends : Dict PendingUserOp → Dict PendingUserOp → Type 0
Extends a b = (key : Text) (r : PendingUserOp) → get key a ≡ some r → get key b ≡ some r

pub Extends-refl : (a : Dict PendingUserOp) → Extends a a
Extends-refl a key r h = h

abbrev pub Holds : Text → PendingStore → Option PendingUserOp × PendingStore → Type 0
Holds c before (none, after) = Extends before.memory after.memory
Holds c before (some r, after) =
    Extends before.memory after.memory × (get (to_lower_case c) after.memory ≡ some r)

set-Extends :
    (key : Text) (r : PendingUserOp) (m : Dict PendingUserOp)
    → get key m ≡ none
    → Extends m (set key r m)
set-Extends key r m new k s h = ground (arith, get-set key k r m, ===_iff key k)

fetch_cached-Holds :
    (c : Text) (store : PendingStore) (cached file : Option PendingUserOp)
    → get (to_lower_case c) store.memory ≡ cached
    → Holds c store (fetch_cached (to_lower_case c) store cached file)
fetch_cached-Holds c store (some r) file h = (Extends-refl store.memory, h)
fetch_cached-Holds c store none none h = Extends-refl store.memory
fetch_cached-Holds c store none (some r) h = (
  set-Extends (to_lower_case c) r store.memory h,
  ground (
    arith,
    get-set (to_lower_case c) (to_lower_case c) r store.memory,
    ===_refl (to_lower_case c),
  ),
)

-- A read forgets nothing, and what it finds is in the memory afterwards.
pub fetch-Holds : (c : Text) (store : PendingStore) → Holds c store (fetch c store)
unfolding fetch
fetch-Holds c store =
    fetch_cached-Holds c store (get (to_lower_case c) store.memory) (read_file (file_name c) store)
      refl
