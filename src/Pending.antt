-- ===== src/Pending.antt =====
-- packages/executor/src/store.ts: the pending user operations, in memory and on disk.
pub mod Sound
pub mod Holds
pub mod Abstract
pub mod Represents
pub mod Refines
pub mod Listing
use flare_hack.Prelude.{
  ℕ, ◌-◌, Bool, false, not, Option, none, some, List, [], ◌∷◌, ◌++◌, leb, if◌then◌else◌, length,
  drop, Except, ok, err, Text, codes, ◌===◌, to_lower_case,
}
use flare_hack.Disk.{Write, written, refused, cut}
use flare_hack.Dict.{Dict, get, set}
use flare_hack.Viem.{Viem}

pub record PendingUserOp : Type 0 where
  pub commitment : Text
  pub user_op_data : Text
  pub personal_account : Text
  pub nonce : Text
  pub total_call_value : Text
  pub label : Text
  pub registered_at : ℕ

-- The argument of `register`.
pub record Entry : Type 0 where
  pub claimed : Option Text
  pub user_op_data : Text
  pub personal_account : Text
  pub nonce : Text
  pub total_call_value : Text
  pub label : Text

-- A file holds a record, or (`none`) text that `JSON.parse` refuses.
pub record PendingStore : Type 0 where
  pub memory : Dict PendingUserOp
  pub files : Dict (Option PendingUserOp)

pub data StoreError : Type 0 where
  hash_failed write_failed : StoreError
  commitment_mismatch : Text → Text → StoreError

abbrev pub file_name : Text → Text
file_name commitment = drop 2 commitment ++ codes ".json"

-- `entry.commitment && entry.commitment.toLowerCase() !== commitment.toLowerCase()`
unfoldable pub is_mismatch : Option Text → Text → Bool
is_mismatch none commitment = false
is_mismatch (some []) commitment = false
is_mismatch (some (c ∷ claim)) commitment =
    not (to_lower_case (c ∷ claim) === to_lower_case commitment)

abbrev pub claim_text : Option Text → Text
claim_text none = []
claim_text (some claim) = claim

abbrev pub pending_of : ℕ → Entry → Text → PendingUserOp
pending_of now entry commitment = record {
  commitment = commitment;
  user_op_data = entry.user_op_data;
  personal_account = entry.personal_account;
  nonce = entry.nonce;
  total_call_value = entry.total_call_value;
  label = entry.label;
  registered_at = now;
}

-- `this.#memory.set`, `mkdir` and `writeFile`, of which the last two may throw. A file that was cut
-- holds text that is no JSON.
abbrev pub put : Write → PendingUserOp → PendingStore → Except StoreError Text × PendingStore
put written r store = (
  ok r.commitment,
  record {
    memory = set (to_lower_case r.commitment) r store.memory;
    files = set (file_name r.commitment) (some r) store.files;
  },
)
put refused r store =
    (err write_failed, record store { memory = set (to_lower_case r.commitment) r store.memory })
put cut r store = (
  err write_failed,
  record {
    memory = set (to_lower_case r.commitment) r store.memory;
    files = set (file_name r.commitment) none store.files;
  },
)

abbrev pub register_digest :
    ℕ → Write → Entry → PendingStore → Option Text → Except StoreError Text × PendingStore
register_digest now writing entry store none = (err hash_failed, store)
register_digest now writing entry store (some commitment) =
    if is_mismatch entry.claimed commitment
    then (err (commitment_mismatch (claim_text entry.claimed) commitment), store)
    else put writing (pending_of now entry commitment) store

unfoldable pub register :
    Viem → ℕ → Write → Entry → PendingStore → Except StoreError Text × PendingStore
register viem now writing entry store =
    register_digest now writing entry store (viem.keccak256 entry.user_op_data)

-- `readFile` and `JSON.parse`; `none` where either throws
abbrev pub read_file : Text → PendingStore → Option PendingUserOp
read_file name store = elim (get name store.files) [ none ↦ none | some content ↦ content ]

abbrev pub fetch_cached :
    Text
    → PendingStore
    → Option PendingUserOp
    → Option PendingUserOp
    → Option PendingUserOp × PendingStore
fetch_cached key store (some cached) file = (some cached, store)
fetch_cached key store none none = (none, store)
fetch_cached key store none (some r) = (some r, record store { memory = set key r store.memory })

-- `PendingStore.get`, which fills the memory from the disk
unfoldable pub fetch : Text → PendingStore → Option PendingUserOp × PendingStore
fetch commitment store =
    let key = to_lower_case commitment in
    fetch_cached key store (get key store.memory) (read_file (file_name commitment) store)

-- `s.endsWith(".json")`
abbrev pub is_json_name : Text → Bool
is_json_name name = drop (length name - 5) name === codes ".json"

abbrev pub with_first :
    Option PendingUserOp → Option (List PendingUserOp) → Option (List PendingUserOp)
with_first (some r) (some out) = some (r ∷ out)
with_first (some r) none = none
with_first none out = none

-- The loop of `list`; `none` where a file is no JSON.
unfoldable pub read_all : Dict (Option PendingUserOp) → Option (List PendingUserOp)
read_all [] = some []
read_all ((name, content) ∷ files) =
    let out = read_all files in if is_json_name name then with_first content out else out

-- `sort` by the later time first; it is stable
unfoldable pub insert_by_time : PendingUserOp → List PendingUserOp → List PendingUserOp
insert_by_time r [] = r ∷ []
insert_by_time r (s ∷ out) =
    if leb s.registered_at r.registered_at then r ∷ s ∷ out else s ∷ insert_by_time r out

unfoldable pub sort_by_time : List PendingUserOp → List PendingUserOp
sort_by_time [] = []
sort_by_time (r ∷ out) = insert_by_time r (sort_by_time out)

unfoldable pub list : PendingStore → List PendingUserOp
list store = elim (read_all store.files) [ none ↦ [] | some out ↦ sort_by_time out ]
