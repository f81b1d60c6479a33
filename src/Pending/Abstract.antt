-- ===== src/Pending/Abstract.antt =====
-- packages/executor/src/store.ts: what the store promises, without its memory, its files and their
-- names.
use flare_hack.Prelude.{
  ℕ, Option, none, some, List, [], ◌∷◌, if◌then◌else◌, Except, ok, err, Text, ◌===◌,
}
use flare_hack.Disk.{Write, written, refused, cut}
use flare_hack.Viem.{Viem}
use flare_hack.Pending.{
  PendingUserOp, Entry, PendingStore, StoreError, hash_failed, write_failed, commitment_mismatch,
  is_mismatch, claim_text, pending_of, register, fetch,
}

-- What can happen to a store: its two operations, and a restart of the process.
pub data Operation : Type 0 where
  registers : ℕ → Write → Entry → Operation
  gets : Text → Operation
  restarts : Operation

-- What the caller sees.
pub data Output : Type 0 where
  registered : Except StoreError Text → Output
  found : Option PendingUserOp → Output
  nothing : Output

-- What is known under each commitment, and what a restart would leave of it.
pub record Known : Type 0 where
  pub live : Text → Option PendingUserOp
  pub durable : Text → Option PendingUserOp

abbrev pub update :
    Text → Option PendingUserOp → (Text → Option PendingUserOp) → Text → Option PendingUserOp
update c r m d = if c === d then r else m d

-- A registration whose claim is right: it is live at once, and durable if it was written. A write
-- that throws leaves what was durable, or, when it had emptied the file, nothing under this
-- commitment.
abbrev pub learn : Write → PendingUserOp → Known → Output × Known
learn written r k = (
  registered (ok r.commitment),
  record {
    live = update r.commitment (some r) k.live;
    durable = update r.commitment (some r) k.durable;
  },
)
learn refused r k =
    (registered (err write_failed), record k { live = update r.commitment (some r) k.live })
learn cut r k = (
  registered (err write_failed),
  record {
    live = update r.commitment (some r) k.live;
    durable = update r.commitment none k.durable;
  },
)

abbrev pub promised_registration : ℕ → Write → Entry → Known → Option Text → Output × Known
promised_registration now can entry k none = (registered (err hash_failed), k)
promised_registration now can entry k (some c) =
    if is_mismatch entry.claimed c
    then (registered (err (commitment_mismatch (claim_text entry.claimed) c)), k)
    else learn can (pending_of now entry c) k

-- What an operation must do.
unfoldable pub promised : Viem → Operation → Known → Output × Known
promised viem (registers now can entry) k =
    promised_registration now can entry k (viem.keccak256 entry.user_op_data)
promised viem (gets c) k = (found (k.live c), k)
promised viem restarts k = (nothing, record k { live = k.durable })

-- What it does.
unfoldable pub performed : Viem → Operation → PendingStore → Output × PendingStore
performed viem (registers now can entry) store =
    let r = register viem now can entry store in (registered r.0, r.1)
performed viem (gets c) store = let r = fetch c store in (found r.0, r.1)
performed viem restarts store = (nothing, record store { memory = [] })

-- The outputs of a sequence of operations.
abbrev pub outputs : {S : Type 0} → (Operation → S → Output × S) → List Operation → S → List Output
outputs step [] s = []
outputs step (o ∷ ops) s = (step o s).0 ∷ outputs step ops (step o s).1
