-- ===== src/Pending/Refines.antt =====
-- packages/executor/src/store.ts: the store keeps its promise.
use flare_hack.Prelude.{
  ℕ, ◌≡◌, refl, sym, ap, ◌∙◌, inl, inr, Option, none, some, List, [], ◌∷◌, Bool-cases, Option-cases,
  All, Text, to_lower_case, ◌===◌, ===_iff,
}
use mathlib.Core.Path.{ap₂}
use flare_hack.Dict.{get, set}
use flare_hack.Disk.{Write, written, refused, cut}
use flare_hack.Viem.{Viem, IsDigest}
use flare_hack.Pending.{
  PendingUserOp, Entry, PendingStore, file_name, is_mismatch, pending_of, put, register, read_file,
  fetch_cached, fetch,
}
use flare_hack.Pending.Abstract.{
  Operation, registers, gets, restarts, Output, registered, found, Known, update, learn, promised,
  performed, outputs,
}
use flare_hack.Pending.Represents.{
  Represents, AsksDigest, found_in, fetch-found, read_file-set, found_in-set,
}

module _ (viem : Viem) where
  -- A write that touches the file, and leaves this in it.
  written-Represents :
      (content : Option PendingUserOp) (r : PendingUserOp) (store : PendingStore) (k : Known)
      → IsDigest r.commitment
      → Represents store k
      → Represents
          (record {
            memory = set (to_lower_case r.commitment) r store.memory;
            files = set (file_name r.commitment) content store.files;
          })
          (record {
            live = update r.commitment (some r) k.live;
            durable = update r.commitment content k.durable;
          })
  written-Represents content r store k h rep d digest =
      let files = set (file_name r.commitment) content store.files in
      let memory = set r.commitment r store.memory in
      let (live, durable) = rep d digest in
      let file = read_file-set viem r.commitment d content store memory h digest in
      rw (h.2) (
        fetch-found d (record { memory = memory; files = files }) digest
            ∙ (found_in-set r.commitment d r store files (λ other. file ∙ rw other refl)
                ∙ rw (sym (fetch-found d store digest) ∙ live) refl),
        file ∙ rw durable refl,
      )

  put-Represents :
      (can : Write) (r : PendingUserOp) (store : PendingStore) (k : Known)
      → IsDigest r.commitment
      → Represents store k
      → Represents (put can r store).1 (learn can r k).1
  put-Represents written r store k h rep d digest =
      written-Represents (some r) r store k h rep d digest
  put-Represents cut r store k h rep d digest = written-Represents none r store k h rep d digest
  put-Represents refused r store k h rep d digest =
      let (live, durable) = rep d digest in
      rw (h.2) (
        fetch-found d (record store { memory = set r.commitment r store.memory }) digest
            ∙ (found_in-set r.commitment d r store store.files (λ other. refl)
                ∙ rw (sym (fetch-found d store digest) ∙ live) refl),
        durable,
      )

  -- The caller sees the same, and the store knows what it should.
  abbrev pub Agrees : Output × PendingStore → Output × Known → Type 0
  Agrees (seen, store) (due, k) = (seen ≡ due) × Represents store k

  put-Agrees :
      (can : Write) (r : PendingUserOp) (store : PendingStore) (k : Known)
      → IsDigest r.commitment
      → Represents store k
      → Agrees (registered (put can r store).0, (put can r store).1) (learn can r k)
  put-Agrees written r store k h rep = (refl, put-Represents written r store k h rep)
  put-Agrees refused r store k h rep = (refl, put-Represents refused r store k h rep)
  put-Agrees cut r store k h rep = (refl, put-Represents cut r store k h rep)

  register-Agrees :
      (now : ℕ) (can : Write) (entry : Entry) (store : PendingStore) (k : Known)
      → Represents store k
      → Agrees
          (performed viem (registers now can entry) store)
          (promised viem (registers now can entry) k)
  unfolding promised performed register
  register-Agrees now can entry store k rep =
      elim (Option-cases (viem.keccak256 entry.user_op_data)) [
        | inl bad ↦ rw bad (refl, rep)
        | inr (c, good) ↦ elim (Bool-cases (is_mismatch entry.claimed c)) [
          | inl wrong ↦ rw (good, wrong) (refl, rep)
          | inr right ↦
              rw (good, right)
                (put-Agrees can (pending_of now entry c) store k
                  (viem.keccak256-IsDigest entry.user_op_data c good) rep)
        ]
      ]

  fetch_cached-found_in :
      (c d : Text) (store : PendingStore) (cached file : Option PendingUserOp)
      → get c store.memory ≡ cached
      → read_file (file_name c) store ≡ file
      → found_in d (fetch_cached c store cached file).1 ≡ found_in d store
  fetch_cached-found_in c d store (some r) file e f = refl
  fetch_cached-found_in c d store none none e f = refl
  fetch_cached-found_in c d store none (some r) e f =
      found_in-set c d r store store.files (λ other. refl) ∙ elim (Bool-cases (c === d)) [
        | inl same ↦ rw same (rw (← (===_iff c d).0 same, e, f, found_in) refl)
        | inr other ↦ rw other refl
      ]

  fetch_cached-files :
      (c : Text) (store : PendingStore) (cached file : Option PendingUserOp)
      → (fetch_cached c store cached file).1.files ≡ store.files
  fetch_cached-files c store (some r) file = refl
  fetch_cached-files c store none none = refl
  fetch_cached-files c store none (some r) = refl

  fetch-after :
      (c d : Text) (store : PendingStore)
      → IsDigest c
      → (found_in d (fetch c store).1 ≡ found_in d store)
        × (read_file (file_name d) (fetch c store).1 ≡ read_file (file_name d) store)
  unfolding fetch
  fetch-after c d store h = rw (h.2) (
    fetch_cached-found_in c d store (get c store.memory) (read_file (file_name c) store) refl refl,
    rw (fetch_cached-files c store (get c store.memory) (read_file (file_name c) store), read_file)
        refl,
  )

  fetch-Agrees :
      (c : Text) (store : PendingStore) (k : Known)
      → IsDigest c
      → Represents store k
      → Agrees (performed viem (gets c) store) (promised viem (gets c) k)
  unfolding promised performed
  fetch-Agrees c store k digest rep = (
    ap found (rep c digest).0,
    λ d h. (
      fetch-found d (fetch c store).1 h
          ∙ ((fetch-after c d store digest).0 ∙ (sym (fetch-found d store h) ∙ (rep d h).0)),
      (fetch-after c d store digest).1 ∙ (rep d h).1,
    ),
  )

  restart-Agrees :
      (store : PendingStore) (k : Known)
      → Represents store k
      → Agrees (performed viem restarts store) (promised viem restarts k)
  unfolding promised performed get
  restart-Agrees store k rep = (
    refl,
    λ d digest.
        (fetch-found d (record store { memory = [] }) digest ∙ (rep d digest).1, (rep d digest).1),
  )

  performed-Agrees :
      (o : Operation) (store : PendingStore) (k : Known)
      → AsksDigest o
      → Represents store k
      → Agrees (performed viem o store) (promised viem o k)
  performed-Agrees (registers now can entry) store k asks rep =
      register-Agrees now can entry store k rep
  performed-Agrees (gets c) store k asks rep = fetch-Agrees c store k asks rep
  performed-Agrees restarts store k asks rep = restart-Agrees store k rep

  -- Whatever sequence of registrations, reads and restarts a store goes through, its callers see what the abstract store promises: a registration with a right claim is known at once under its own commitment and no other, is known after a restart if its file was written, else what could last be written under this commitment is, or nothing when the failed write had emptied the file, and a refused claim changes nothing; a read changes nothing either. The store starts from any memory and files that represent what is known, and reads ask for digests.
  pub outputs-performed :
      (ops : List Operation) (store : PendingStore) (k : Known)
      → All AsksDigest ops
      → Represents store k
      → outputs (performed viem) ops store ≡ outputs (promised viem) ops k
  outputs-performed [] store k asks rep = refl
  outputs-performed (o ∷ ops) store k (asks, rest) rep =
      let (same, next) = performed-Agrees o store k asks rep in
      ap₂ (λ a out. a ∷ out) same
        (outputs-performed ops (performed viem o store).1 (promised viem o k).1 rest next)
