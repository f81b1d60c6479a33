-- ===== src/Pending/Listing.antt =====
-- packages/executor/src/store.ts: what `list` shows of the directory.
use mathlib.Core.Path.{subst}
use mathlib.Core.List.{Perm}
use mathlib.Core.List.Perm
use flare_hack.Prelude.{
  ℕ, ◌≤◌, ◌≡◌, ◌≢◌, refl, inl, inr, true, if◌then◌else◌, Option, none, some, List, [], ◌∷◌, All,
  arith, Bool-cases, leb, Text,
}
use flare_hack.Dict.{Dict}
use flare_hack.Pending.{
  PendingUserOp, PendingStore, is_json_name, with_first, read_all, insert_by_time, sort_by_time,
  list,
}

-- The records in the files of the directory that are named like one.
abbrev pub records : Dict (Option PendingUserOp) → List PendingUserOp
records [] = []
records ((name, none) ∷ files) = records files
records ((name, some r) ∷ files) =
    let rest = records files in if is_json_name name then r ∷ rest else rest

-- A file that is named like a record holds one.
abbrev pub IsReadable : Text × Option PendingUserOp → Type 0
IsReadable (name, content) = is_json_name name ≡ true → content ≢ none

-- The later of two records stands first.
abbrev pub IsLatestFirst : List PendingUserOp → Type 0
IsLatestFirst [] = Unit
IsLatestFirst (r ∷ out) = All (λ s. s.registered_at ≤ r.registered_at) out × IsLatestFirst out

pub data Listing (files : Dict (Option PendingUserOp)) : List PendingUserOp → Type 0 where
  complete :
      {out : List PendingUserOp}
      → All IsReadable files
      → Perm out (records files)
      → IsLatestFirst out
      → Listing files out
  unreadable : ¬ All IsReadable files → Listing files []

insert_by_time-perm :
    (r : PendingUserOp) (out : List PendingUserOp) → Perm (insert_by_time r out) (r ∷ out)
unfolding insert_by_time
insert_by_time-perm r [] = Perm.rfl
insert_by_time-perm r (s ∷ out) = elim (Bool-cases (leb s.registered_at r.registered_at)) [
  | inl later ↦ rw later Perm.rfl
  | inr earlier ↦
      rw earlier (Perm.trans (Perm.cons s (insert_by_time-perm r out)) (Perm.swap r s out))
]

insert_by_time-below :
    (t : ℕ) (r : PendingUserOp) (out : List PendingUserOp)
    → r.registered_at ≤ t
    → All (λ s. s.registered_at ≤ t) out
    → All (λ s. s.registered_at ≤ t) (insert_by_time r out)
unfolding insert_by_time
insert_by_time-below t r [] h below = (h, tt)
insert_by_time-below t r (s ∷ out) h (below, rest) =
    elim (Bool-cases (leb s.registered_at r.registered_at)) [
      | inl later ↦ rw later (h, (below, rest))
      | inr earlier ↦ rw earlier (below, insert_by_time-below t r out h rest)
    ]

below_trans :
    (t u : ℕ) (out : List PendingUserOp)
    → t ≤ u
    → All (λ s. s.registered_at ≤ t) out
    → All (λ s. s.registered_at ≤ u) out
below_trans t u [] h below = tt
below_trans t u (s ∷ out) h (below, rest) = (omega arith, below_trans t u out h rest)

insert_by_time-IsLatestFirst :
    (r : PendingUserOp) (out : List PendingUserOp)
    → IsLatestFirst out
    → IsLatestFirst (insert_by_time r out)
unfolding insert_by_time
insert_by_time-IsLatestFirst r [] sorted = (tt, tt)
insert_by_time-IsLatestFirst r (s ∷ out) (below, sorted) =
    elim (Bool-cases (leb s.registered_at r.registered_at)) [
      | inl later ↦
          let h : s.registered_at ≤ r.registered_at = ground arith in
          rw later ((h, below_trans s.registered_at r.registered_at out h below), (below, sorted))
      | inr earlier ↦ rw earlier (
        insert_by_time-below s.registered_at r out (ground arith) below,
        insert_by_time-IsLatestFirst r out sorted,
      )
    ]

sort_by_time-Sorted :
    (out : List PendingUserOp) → Perm (sort_by_time out) out × IsLatestFirst (sort_by_time out)
unfolding sort_by_time
sort_by_time-Sorted [] = (Perm.rfl, tt)
sort_by_time-Sorted (r ∷ out) =
    let (same, sorted) = sort_by_time-Sorted out in
    (
      Perm.trans (insert_by_time-perm r (sort_by_time out)) (Perm.cons r same),
      insert_by_time-IsLatestFirst r (sort_by_time out) sorted,
    )

-- The loop reads all records, or stops at a file that holds none.
data ReadAll (files : Dict (Option PendingUserOp)) : Option (List PendingUserOp) → Type 0 where
  all_read : All IsReadable files → ReadAll files (some (records files))
  stopped : ¬ All IsReadable files → ReadAll files none

ReadAll-records :
    (files : Dict (Option PendingUserOp)) {out : List PendingUserOp}
    → All IsReadable files
    → records files ≡ out
    → ReadAll files (some out)
ReadAll-records files h same = subst (λ o. ReadAll files (some o)) same (all_read h)

read_more :
    (name : Text) (content : Option PendingUserOp) (files : Dict (Option PendingUserOp))
    (rest : Option (List PendingUserOp))
    → ReadAll files rest
    → ReadAll
        ((name, content) ∷ files)
        (if is_json_name name then with_first content rest else rest)
read_more name none files _ (all_read h) = elim (Bool-cases (is_json_name name)) [
  | inl named ↦ rw named (stopped (λ all. all.0 named refl))
  | inr other ↦ rw other (all_read ((λ named same. cc), h))
]
read_more name (some r) files _ (all_read h) = elim (Bool-cases (is_json_name name)) [
  | inl named ↦
      rw named (ReadAll-records ((name, some r) ∷ files) ((λ e same. cc), h) (rw named refl))
  | inr other ↦
      rw other (ReadAll-records ((name, some r) ∷ files) ((λ e same. cc), h) (rw other refl))
]
read_more name none files _ (stopped h) = elim (Bool-cases (is_json_name name)) [
  | inl named ↦ rw named (stopped (λ all. h all.1))
  | inr other ↦ rw other (stopped (λ all. h all.1))
]
read_more name (some r) files _ (stopped h) = elim (Bool-cases (is_json_name name)) [
  | inl named ↦ rw named (stopped (λ all. h all.1))
  | inr other ↦ rw other (stopped (λ all. h all.1))
]

read_all-ReadAll : (files : Dict (Option PendingUserOp)) → ReadAll files (read_all files)
unfolding read_all
read_all-ReadAll [] = all_read tt
read_all-ReadAll ((name, content) ∷ files) =
    read_more name content files (read_all files) (read_all-ReadAll files)

read-Listing :
    (files : Dict (Option PendingUserOp)) (read : Option (List PendingUserOp))
    → ReadAll files read
    → Listing files (elim read [ none ↦ [] | some out ↦ sort_by_time out ])
read-Listing files _ (all_read h) =
    let (same, sorted) = sort_by_time-Sorted (records files) in complete h same sorted
read-Listing files _ (stopped h) = unreadable h

-- What `list` shows is all that the directory holds: when every file whose name ends in `.json` holds a record, it is a rearrangement of these records, the latest registered first; when one of them cannot be read or parsed, the listing is empty.
pub list-Listing : (store : PendingStore) → Listing store.files (list store)
unfolding list
list-Listing store = read-Listing store.files (read_all store.files) (read_all-ReadAll store.files)
