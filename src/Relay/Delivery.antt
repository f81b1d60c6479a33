-- ===== src/Relay/Delivery.antt =====
-- packages/sdk/src/prepare.ts, scripts/run-executor.ts, and packages/executor/src/service.ts,
-- store.ts and watcher.ts together: the way of an operation from its preparation to its job.
use flare_hack.Prelude.{◌≡◌, pos, Option, List, ℤ, Text}
use flare_hack.Dict.{Dict}
use flare_hack.UserOp.{Abi}
use flare_hack.Prepare.{Chain, PreparedRequest}
use flare_hack.Pipeline.{Job, Services}
use flare_hack.Pipeline.Run.{CreateParams, new_job, create}
use flare_hack.Service.{PreparedForWeb, ExecutorService, Wiring}
use flare_hack.Service.Tick.{go_live, watch_once}
use flare_hack.Watcher.{AccountTxEntry, Watcher}
use flare_hack.Relay.{Demo}
use flare_hack.Relay.Observed.{Carries, observed_of, saw}

-- The job's parameters, as they were prepared.
abbrev pub params_from : Text → PreparedRequest → CreateParams
params_from tx_id q = record {
  xrpl_tx_id = tx_id;
  user_op_data = q.user_op_data;
  total_call_value = pos q.total_call_value;
  personal_account = q.personal_account;
  nonce = pos q.nonce;
}

-- The new job of a payment, as `save` writes it.
abbrev pub made_job : Services → Text → CreateParams → Job
made_job sv tx p = record (new_job tx p) { updated_at = sv.now }

module _ (w : Wiring) (abi : Abi) (chain : Chain) (demo : Demo) (sv : Services) where
  -- The payment's life from `POST /prepare` to its job.
  abbrev pub Delivered :
      Text
      → AccountTxEntry
      → (ℤ → Option (Option (List AccountTxEntry)))
      → ExecutorService
      → ExecutorService
      → PreparedRequest
      → PreparedForWeb
      → Type 0
  Delivered tx_id e account_tx s ready q web =
      (t : Carries web e tx_id)
      → watch_once sv account_tx ready
        ≡ go_live (observed_of t.tx e tx_id q.user_op_hash)
            (record ready { watcher = saw e tx_id ready.watcher })
            (create sv (params_from tx_id q) s.files)
