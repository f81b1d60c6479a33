-- ===== src/Tests/WatcherRuns.antt =====
-- Runs of the store and of the watcher.
use flare_hack.Prelude.{◌≡◌, refl, true, Option, none, some, List, [], ◌∷◌, map, ℤ, Text, codes}
use flare_hack.Disk.{written, refused}
use flare_hack.Json.{string, array, object, cons, nil, field, end}
use flare_hack.Pending.{Entry, PendingStore, register, fetch}
use flare_hack.Pending.Sound.{IsHonestStore, Fetched, register-IsHonestStore, fetch-Fetched}
use flare_hack.Watcher.{AccountTxEntry, initial, poll}
use flare_hack.Watcher.Laws.{AreNew, Polled, poll-Polled}
use flare_hack.Watcher.Once.{polled, registered, started, watch, watch-AreNew}
use flare_hack.Tests.Fixtures.{sample_viem, zero_digest}

abbrev entry : Entry
entry = record {
  claimed = some zero_digest;
  user_op_data = codes "0x00";
  personal_account = codes "0x11";
  nonce = codes "3";
  total_call_value = codes "5";
  label = codes "mint";
}

abbrev no_store : PendingStore
no_store = record { memory = []; files = [] }

no_store-IsHonestStore : IsHonestStore sample_viem no_store
no_store-IsHonestStore = (tt, tt)

abbrev store : PendingStore
store = (register sample_viem 4 written entry no_store).1

store-IsHonestStore : IsHonestStore sample_viem store
store-IsHonestStore =
    register-IsHonestStore sample_viem 4 written entry no_store no_store-IsHonestStore

register-IsHonestStore_example :
    IsHonestStore sample_viem (register sample_viem 9 refused entry store).1
register-IsHonestStore_example =
    register-IsHonestStore sample_viem 9 refused entry store store-IsHonestStore

fetch-Fetched_example : Fetched sample_viem zero_digest (fetch zero_digest store)
fetch-Fetched_example = fetch-Fetched sample_viem zero_digest store store-IsHonestStore

-- A payment with a memo that commits to the digest.
abbrev pub payment : Text → AccountTxEntry
payment hash = record {
  hash = some hash;
  ledger_index = some 12;
  validated = some true;
  tx_json = some (
      object (
        field (codes "TransactionType") (string (codes "Payment")) (
          field (codes "Memos")
            (array (
              cons
                (object (
                  field (codes "Memo")
                    (object (
                      field (codes "MemoData")
                        (string (
                          codes
                            "FE0700000000000003E80000000000000000000000000000000000000000000000000000000000000000"))
                        end))
                    end))
                nil))
            end)));
  tx = none;
}

abbrev pub account_tx : ℤ → Option (Option (List AccountTxEntry))
account_tx from =
    some (some (payment (codes "AA") ∷ payment (codes "BB") ∷ payment (codes "AA") ∷ []))

reports_two :
    map
      (λ p. p.xrpl_tx_id)
      (watch sample_viem
        (registered 4 written entry ∷ polled account_tx ∷ polled account_tx ∷ [])
        (initial no_store))
    ≡ codes "AA" ∷ codes "BB" ∷ []
unfolding watch poll flare_hack.Watcher.observe_all flare_hack.Watcher.observe
    flare_hack.Watcher.property flare_hack.Json.get_field flare_hack.Prelude.◌===◌
    flare_hack.Watcher.has flare_hack.Watcher.commitment_from_memos
    flare_hack.Watcher.commitment_from_items flare_hack.Memo.Decode.decode_memo
    flare_hack.Watcher.buffer_from_hex flare_hack.Memo.assert_length fetch flare_hack.Dict.get
    register flare_hack.Pending.is_mismatch flare_hack.Dict.set flare_hack.Hex.hex_chars
reports_two = refl

poll-Polled_example : Polled sample_viem (initial store) (poll account_tx (initial store))
poll-Polled_example = poll-Polled sample_viem account_tx (initial store) store-IsHonestStore

watch-AreNew_example : AreNew [] (
    watch sample_viem
      (registered 4 written entry ∷ polled account_tx ∷ started 0 ∷ polled account_tx ∷ [])
      (initial no_store))
watch-AreNew_example =
    watch-AreNew sample_viem
      (registered 4 written entry ∷ polled account_tx ∷ started 0 ∷ polled account_tx ∷ [])
      (initial no_store) no_store-IsHonestStore
