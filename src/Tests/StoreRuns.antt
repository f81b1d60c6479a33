-- ===== src/Tests/StoreRuns.antt =====
-- Runs of the store against its abstract view.
use flare_hack.Prelude.{ℕ, some, ◌≡◌, refl, none, List, [], ◌∷◌, codes}
use flare_hack.Disk.{written, refused, cut}
use flare_hack.Pending.{Entry, PendingUserOp, PendingStore, fetch, list}
use flare_hack.Pending.Abstract.{
  Operation, registers, gets, restarts, Known, promised, performed, outputs,
}
use flare_hack.Pending.Represents.{Represents}
use flare_hack.Pending.Refines.{outputs-performed}
use flare_hack.Pending.Listing.{Listing, list-Listing}
use flare_hack.Tests.Fixtures.{sample_viem, zero_digest, zero_digest-IsDigest}

abbrev empty_store : PendingStore
empty_store = record { memory = []; files = [] }

abbrev unknown : Known
unknown = record { live = λ d. none; durable = λ d. none }

empty-Represents : Represents empty_store unknown
unfolding fetch flare_hack.Dict.get
empty-Represents d h = (refl, refl)

abbrev entry : Entry
entry = record {
  claimed = none;
  user_op_data = codes "0x00";
  personal_account = codes "0x11";
  nonce = codes "1";
  total_call_value = codes "0";
  label = codes "first";
}

-- A registration that is written, one that is not, a read, a restart, and a read again.
abbrev history : List Operation
history =
    registers 1 written entry
    ∷ registers 2 refused (record entry { label = codes "second" })
    ∷ gets zero_digest
    ∷ restarts
    ∷ gets zero_digest
    ∷ registers 3 cut entry
    ∷ restarts
    ∷ gets zero_digest
    ∷ []

outputs-performed_example :
    outputs (performed sample_viem) history empty_store
    ≡ outputs (promised sample_viem) history unknown
outputs-performed_example =
    outputs-performed sample_viem history empty_store unknown
      (
        tt,
        (
          tt,
          (
            zero_digest-IsDigest,
            (tt, (zero_digest-IsDigest, (tt, (tt, (zero_digest-IsDigest, tt))))),
          ),
        ),
      )
      empty-Represents

abbrev stamped : ℕ → PendingUserOp
stamped time = record {
  commitment = zero_digest;
  user_op_data = codes "0x00";
  personal_account = codes "0x11";
  nonce = codes "1";
  total_call_value = codes "0";
  label = codes "first";
  registered_at = time;
}

-- Two records in the wrong order, and a file of another kind.
abbrev full_store : PendingStore
full_store = record {
  memory = [];
  files =
      (codes "a.json", some (stamped 1))
      ∷ (codes "notes", none)
      ∷ (codes "b.json", some (stamped 2))
      ∷ [];
}

latest_first : list full_store ≡ stamped 2 ∷ stamped 1 ∷ []
unfolding list flare_hack.Pending.read_all flare_hack.Prelude.◌===◌ flare_hack.Pending.sort_by_time
    flare_hack.Pending.insert_by_time
latest_first = refl

list-Listing_example : Listing full_store.files (list full_store)
list-Listing_example = list-Listing full_store
