-- ===== src/Pending/Sound.antt =====
-- packages/executor/src/store.ts: no payload is held under a commitment that is not its hash.
use flare_hack.Prelude.{
  ℕ, zero, suc, ◌≡◌, refl, sym, ap, ◌∙◌, inl, inr, Option, none, some, [], ◌∷◌, ◌++◌, arith,
  Bool-cases, Option-cases, length, take, drop, All, length-append, take-append, Text, codes,
  to_lower_case,
}
use flare_hack.Disk.{Write, written, refused, cut}
use flare_hack.Dict.{All-get, get, All-set}
use flare_hack.Viem.{Viem}
use flare_hack.Pending.{
  read_file, fetch_cached, fetch, PendingUserOp, Entry, PendingStore, file_name, is_mismatch,
  pending_of, put, register,
}

-- The same digits behind the prefix.
abbrev pub SameDigits : Text → Text → Type 0
SameDigits a b = drop 2 (to_lower_case a) ≡ drop 2 (to_lower_case b)

module _ (viem : Viem) where
  -- The record's commitment is the hash of its bytes.
  abbrev pub IsHonest : PendingUserOp → Type 0
  IsHonest r = viem.keccak256 r.user_op_data ≡ some r.commitment

  abbrev pub IsHonestEntry : Text × PendingUserOp → Type 0
  IsHonestEntry (key, r) = SameDigits key r.commitment × IsHonest r

  abbrev pub IsHonestFile : Text × Option PendingUserOp → Type 0
  IsHonestFile (name, none) = Unit
  IsHonestFile (name, some r) = (name ≡ file_name r.commitment) × IsHonest r

  abbrev pub IsHonestStore : PendingStore → Type 0
  IsHonestStore store = All IsHonestEntry store.memory × All IsHonestFile store.files

  lower_idem : (s : Text) → to_lower_case (to_lower_case s) ≡ to_lower_case s
  lower_idem [] = refl
  lower_idem (c ∷ s) = ground (arith, lower_idem s)

  put-IsHonestStore :
      (can : Write) (r : PendingUserOp) (store : PendingStore)
      → IsHonest r
      → IsHonestStore store
      → IsHonestStore (put can r store).1
  put-IsHonestStore written r store h (m, f) = (
    All-set IsHonestEntry (to_lower_case r.commitment) r store.memory m
        (ap (drop 2) (lower_idem r.commitment), h),
    All-set IsHonestFile (file_name r.commitment) (some r) store.files f (refl, h),
  )
  put-IsHonestStore cut r store h (m, f) = (
    All-set IsHonestEntry (to_lower_case r.commitment) r store.memory m
        (ap (drop 2) (lower_idem r.commitment), h),
    All-set IsHonestFile (file_name r.commitment) none store.files f tt,
  )
  put-IsHonestStore refused r store h (m, f) = (
    All-set IsHonestEntry (to_lower_case r.commitment) r store.memory m
        (ap (drop 2) (lower_idem r.commitment), h),
    f,
  )

  -- `register` keeps the store honest whatever it is given and however the write of the file
  -- goes.
  pub register-IsHonestStore :
      (now : ℕ) (can : Write) (entry : Entry) (store : PendingStore)
      → IsHonestStore store
      → IsHonestStore (register viem now can entry store).1
  unfolding register
  register-IsHonestStore now can entry store h =
      elim (Option-cases (viem.keccak256 entry.user_op_data)) [
        | inl bad ↦ rw bad h
        | inr (d, good) ↦ elim (Bool-cases (is_mismatch entry.claimed d)) [
          | inl wrong ↦ rw (good, wrong) h
          | inr right ↦
              rw (good, right) (put-IsHonestStore can (pending_of now entry d) store good h)
        ]
      ]

  append_cancel : (xs ys zs : Text) → xs ++ zs ≡ ys ++ zs → xs ≡ ys
  append_cancel xs ys zs e =
      let same_length : length ys ≡ length xs =
        omega (arith, ap length e, length-append xs zs, length-append ys zs) in
      sym (take-append xs zs refl) ∙ (ap (take (length xs)) e ∙ take-append ys zs same_length)

  lower-drop : (n : ℕ) (s : Text) → drop n (to_lower_case s) ≡ to_lower_case (drop n s)
  lower-drop zero s = refl
  lower-drop (suc n) [] = refl
  lower-drop (suc n) (c ∷ s) = lower-drop n s

  pub file_name-SameDigits : (c d : Text) → file_name c ≡ file_name d → SameDigits c d
  file_name-SameDigits c d e =
      lower-drop 2 c
      ∙ (ap to_lower_case (append_cancel (drop 2 c) (drop 2 d) (codes ".json") e)
          ∙ sym (lower-drop 2 d))

  -- What a read of the store answers.
  abbrev pub Answers : Text → Option PendingUserOp → Type 0
  Answers c none = Unit
  Answers c (some r) = SameDigits c r.commitment × IsHonest r

  abbrev pub Fetched : Text → Option PendingUserOp × PendingStore → Type 0
  Fetched c (found, after) = Answers c found × IsHonestStore after

  read_file-Answers :
      (c : Text) (store : PendingStore)
      → IsHonestStore store
      → Answers c (read_file (file_name c) store)
  read_file-Answers c store (m, f) = elim (Option-cases (get (file_name c) store.files)) [
    | inl absent ↦ rw (absent, Answers) tt
    | inr (none, bad) ↦ rw (bad, Answers) tt
    | inr (some r, good) ↦
        rw (good, Answers)
          (let h = All-get IsHonestFile (file_name c) store.files f good in
            (file_name-SameDigits c r.commitment h.0, h.1))
  ]

  memory-Answers :
      (c : Text) (store : PendingStore)
      → IsHonestStore store
      → Answers c (get (to_lower_case c) store.memory)
  memory-Answers c store (m, f) = elim (Option-cases (get (to_lower_case c) store.memory)) [
    | inl absent ↦ rw (absent, Answers) tt
    | inr (r, good) ↦
        rw (good, Answers)
          (let h = All-get IsHonestEntry (to_lower_case c) store.memory m good in
            (sym (ap (drop 2) (lower_idem c)) ∙ h.0, h.1))
  ]

  fetch_cached-Fetched :
      (c : Text) (store : PendingStore) (cached file : Option PendingUserOp)
      → IsHonestStore store
      → Answers c cached
      → Answers c file
      → Fetched c (fetch_cached (to_lower_case c) store cached file)
  fetch_cached-Fetched c store (some r) file h a b = (a, h)
  fetch_cached-Fetched c store none none h a b = (tt, h)
  fetch_cached-Fetched c store none (some r) h a b = (
    b,
    (
      All-set IsHonestEntry (to_lower_case c) r store.memory h.0
          (ap (drop 2) (lower_idem c) ∙ b.0, b.1),
      h.1,
    ),
  )

  -- What an honest store gives for a commitment, from the memory or from a file, has a payload
  -- that hashes to the digits asked for, up to their case; and the store stays honest.
  pub fetch-Fetched :
      (c : Text) (store : PendingStore) → IsHonestStore store → Fetched c (fetch c store)
  unfolding fetch
  fetch-Fetched c store h =
      fetch_cached-Fetched c store (get (to_lower_case c) store.memory)
        (read_file (file_name c) store) h (memory-Answers c store h) (read_file-Answers c store h)
