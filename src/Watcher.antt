-- ===== src/Watcher.antt =====
-- packages/executor/src/watcher.ts: finding the committed payments among the vault's transactions.
pub mod Laws
pub mod Once
use flare_hack.Prelude.{
  ℕ, ◌+◌, ◌*◌, max, Bool, true, false, not, ◌&&◌, ◌||◌, Option, none, some, List, [], ◌∷◌, ltb,
  if◌then◌else◌, ℤ, pos, negsuc, Except, ok, err, Text, Bytes, codes, ◌===◌,
}
use flare_hack.Json.{Json, string, array, object, Items, nil, cons, get_field}
use flare_hack.Hex.{is_hex_digit, digit_value}
use flare_hack.Memo.{MemoError}
use flare_hack.Memo.Decode.{user_op_hash, DecodedMemo, decode_memo}
use flare_hack.Pending.{PendingUserOp, PendingStore, fetch}

-- `Buffer.from(data, "hex")`, which stops at the first pair that is not two digits
unfoldable pub buffer_from_hex : Text → Bytes
buffer_from_hex [] = []
buffer_from_hex (c ∷ []) = []
buffer_from_hex (c ∷ d ∷ s) =
    let rest = buffer_from_hex s in
    if is_hex_digit c && is_hex_digit d then (digit_value c * 16 + digit_value d) ∷ rest else []

-- `value?.name`; the program reads no property that a string, a number or an array has
unfoldable pub property : Text → Option Json → Option Json
property name (some (object fields)) = get_field name fields
property name _ = none

abbrev pub committed_hash : Except MemoError DecodedMemo → Option Text
committed_hash (ok decoded) = elim decoded.payload [ user_op_hash hash ↦ some hash | _ ↦ none ]
committed_hash (err e) = none

abbrev pub hash_of_data : Option Json → Option Text
hash_of_data (some (string digits)) = committed_hash (decode_memo (buffer_from_hex digits))
hash_of_data _ = none

abbrev pub text_or : Option Text → Option Text → Option Text
text_or (some a) b = some a
text_or none b = b

-- The loop over the memos.
unfoldable pub commitment_from_items : Items → Option Text
commitment_from_items nil = none
commitment_from_items (cons wrapper rest) =
    text_or (hash_of_data (property (codes "MemoData") (property (codes "Memo") (some wrapper))))
      (commitment_from_items rest)

-- `commitmentFromMemos`
unfoldable pub commitment_from_memos : Json → Option Text
commitment_from_memos tx = elim (property (codes "Memos") (some tx)) [
  | some (array memos) ↦ commitment_from_items memos
  | _ ↦ none
]

pub record AccountTxEntry : Type 0 where
  pub hash : Option Text
  pub ledger_index : Option ℕ
  pub validated : Option Bool
  pub tx_json : Option Json
  pub tx : Option Json

pub record ObservedPayment : Type 0 where
  pub xrpl_tx_id : Text
  pub commitment : Text
  pub amount : Option Json
  pub sender : Option Json
  pub ledger_index : ℕ

pub record Watcher : Type 0 where
  pub last_ledger : ℕ
  pub seen : List Text
  pub store : PendingStore

abbrev pub initial : PendingStore → Watcher
initial store = record { last_ledger = 0; seen = []; store = store }

-- `setStartLedger`
abbrev pub set_start_ledger : ℕ → Watcher → Watcher
set_start_ledger index w = record w { last_ledger = index }

-- `seen.has(hash)`
unfoldable pub has : Text → List Text → Bool
has h [] = false
has h (k ∷ seen) = (k === h) || has h seen

abbrev pub json_or : Option Json → Option Json → Option Json
json_or (some a) b = some a
json_or none b = b

abbrev string_or_none : Option Json → Option Text
string_or_none (some (string s)) = some s
string_or_none _ = none

abbrev pub or_zero : Option ℕ → ℕ
or_zero none = 0
or_zero (some n) = n

abbrev pub is_false : Option Bool → Bool
is_false (some false) = true
is_false _ = false

-- `tx["TransactionType"] === "Payment"`, on an object
abbrev pub is_payment : Option Json → Bool
is_payment tx = elim (string_or_none (property (codes "TransactionType") tx)) [
  | some kind ↦ kind === codes "Payment"
  | none ↦ false
]

abbrev pub hash_of : AccountTxEntry → Option Json → Option Text
hash_of entry tx = text_or entry.hash (string_or_none (property (codes "hash") tx))

-- `hashEarly && this.#seen.has(hashEarly)`
abbrev pub is_seen : Option Text → List Text → Bool
is_seen none seen = false
is_seen (some []) seen = false
is_seen (some (c ∷ hash)) seen = has (c ∷ hash) seen

abbrev pub Found : Type 0
Found = Option ObservedPayment × Watcher

abbrev pub observe_hash : Option Json → Text → ℕ → Watcher → Option Text → Found
observe_hash tx commitment index w none = (none, w)
observe_hash tx commitment index w (some []) = (none, w)
observe_hash tx commitment index w (some (c ∷ hash)) = (
  some (record {
    xrpl_tx_id = c ∷ hash;
    commitment = commitment;
    amount = property (codes "Amount") tx;
    sender = property (codes "Account") tx;
    ledger_index = index;
  }),
  record w { seen = (c ∷ hash) ∷ w.seen },
)

abbrev pub observe_pending :
    Option Json → Text → ℕ → Watcher → Option Text → Option PendingUserOp × PendingStore → Found
observe_pending tx commitment index w hash (none, store) = (none, record w { store = store })
observe_pending tx commitment index w hash (some pending, store) =
    observe_hash tx commitment index (record w { store = store }) hash

abbrev pub observe_commitment : Option Json → ℕ → Watcher → Option Text → Option Text → Found
observe_commitment tx index w hash none = (none, w)
observe_commitment tx index w hash (some commitment) =
    observe_pending tx commitment index w hash (fetch commitment w.store)

abbrev pub commitment_in : Option Json → Option Text
commitment_in none = none
commitment_in (some tx) = commitment_from_memos tx

-- One turn of the loop in `poll`.
unfoldable pub observe : AccountTxEntry → Watcher → Found
observe entry w =
    let tx = json_or entry.tx_json entry.tx in
    let index = or_zero entry.ledger_index in
    let hash = hash_of entry tx in
    if is_false entry.validated || not (is_payment tx)
    then (none, w)
    else if is_seen hash w.seen
    then (none, record w { last_ledger = max index w.last_ledger })
    else observe_commitment tx index (record w { last_ledger = max index w.last_ledger }) hash
        (commitment_in tx)

abbrev pub with_found :
    Option ObservedPayment → List ObservedPayment × Watcher → List ObservedPayment × Watcher
with_found none r = r
with_found (some p) (found, w) = (p ∷ found, w)

-- The loop in `poll`.
unfoldable pub observe_all : List AccountTxEntry → Watcher → List ObservedPayment × Watcher
observe_all [] w = ([], w)
observe_all (entry ∷ rest) w = let o = observe entry w in with_found o.0 (observe_all rest o.1)

-- `ledger_index_min` of the request: the cursor, or -1 for the oldest ledger
abbrev pub ledger_index_min : Watcher → ℤ
ledger_index_min w = if ltb 0 w.last_ledger then pos w.last_ledger else negsuc 0

-- `poll`, given how the node answers `account_tx` from a ledger on: `none` where the call throws,
-- and an inner `none` where the answer has no transactions.
unfoldable pub poll :
    (ℤ → Option (Option (List AccountTxEntry))) → Watcher → Option (List ObservedPayment) × Watcher
poll account_tx w = elim (account_tx (ledger_index_min w)) [
  | none ↦ (none, w)
  | some none ↦ (some [], w)
  | some (some entries) ↦ let r = observe_all entries w in (some r.0, r.1)
]
