-- ===== src/Service/Laws.antt =====
-- packages/executor/src/service.ts: what a tick drops.
use flare_hack.Prelude.{◌≡◌, ◌⊎◌, false, none, List, All, ◌===◌}
use flare_hack.BigInt.{big_int}
use flare_hack.Viem.{Viem}
use flare_hack.Pending.{PendingUserOp}
use flare_hack.Watcher.{ObservedPayment, Watcher}

-- No payment of the second list has the hash of one of the first.
abbrev pub NoneAgain : List ObservedPayment → List ObservedPayment → Type 0
NoneAgain dropped found =
    All (λ g. All (λ q. (q.xrpl_tx_id === g.xrpl_tx_id) ≡ false) dropped) found

-- A value or a nonce that is registered is no integer for `BigInt`.
abbrev pub HasNoInteger : PendingUserOp → Type 0
HasNoInteger r = (big_int r.total_call_value ≡ none) ⊎ (big_int r.nonce ≡ none)
