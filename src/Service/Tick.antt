-- ===== src/Service/Tick.antt =====
-- packages/executor/src/service.ts: `#tick`, a tick during which no request is handled.
use flare_hack.Prelude.{
  Bool, true, false, not, ◌&&◌, Option, none, some, List, [], ◌∷◌, if◌then◌else◌, ℤ,
}
use flare_hack.BigInt.{big_int}
use flare_hack.Dict.{Dict, get, set}
use flare_hack.Pending.{PendingUserOp, fetch}
use flare_hack.Watcher.{AccountTxEntry, ObservedPayment, poll}
use flare_hack.Pipeline.{Job, Services, Stepped, step}
use flare_hack.Pipeline.Run.{CreateParams, create, is_terminal}
use flare_hack.Service.{ExecutorService, with_store}

abbrev params_with : ObservedPayment → PendingUserOp → Option ℤ → Option ℤ → Option CreateParams
params_with p r (some value) (some nonce) = some (record {
  xrpl_tx_id = p.xrpl_tx_id;
  user_op_data = r.user_op_data;
  total_call_value = value;
  personal_account = r.personal_account;
  nonce = nonce;
})
params_with p r _ _ = none

abbrev pub params_of : ObservedPayment → PendingUserOp → Option CreateParams
params_of p r = params_with p r (big_int r.total_call_value) (big_int r.nonce)

-- The service, and whether an exception has been thrown.
abbrev pub Admitted : Type 0
Admitted = Bool × ExecutorService

abbrev pub go_live : ObservedPayment → ExecutorService → Option Stepped → Admitted
go_live p s none = (true, s)
go_live p s (some made) =
    if made.thrown
    then (true, record s { files = made.files })
    else (false, record s { files = made.files; live = set p.xrpl_tx_id made.job s.live })

abbrev pub create_job :
    Services → ObservedPayment → ExecutorService → Option CreateParams → Admitted
create_job sv p s none = (true, s)
create_job sv p s (some params) = go_live p s (create sv params s.files)

abbrev pub admit_found :
    Services → ObservedPayment → ExecutorService → Option PendingUserOp → Admitted
admit_found sv p s none = (false, s)
admit_found sv p s (some r) = create_job sv p s (params_of p r)

abbrev is_live : Option Job → Bool
is_live none = false
is_live (some job) = true

-- One round of the first loop.
unfoldable pub admit : Services → ObservedPayment → ExecutorService → Admitted
admit sv p s =
    let f = fetch p.commitment s.watcher.store in
    if is_live (get p.xrpl_tx_id s.live)
    then (false, s)
    else admit_found sv p (with_store s f.1) f.0

-- The first loop, which an exception leaves.
unfoldable pub admit_all : Services → List ObservedPayment → ExecutorService → Admitted
admit_all sv [] s = (false, s)
admit_all sv (p ∷ found) s =
    let a = admit sv p s in let rest = admit_all sv found a.1 in if a.0 then a else rest

abbrev pub admit_polled : Services → ExecutorService → Option (List ObservedPayment) → Admitted
admit_polled sv s none = (true, s)
admit_polled sv s (some found) = admit_all sv found s

-- The `try` block around it.
unfoldable pub watch_once :
    Services → (ℤ → Option (Option (List AccountTxEntry))) → ExecutorService → Admitted
watch_once sv account_tx s =
    let r = poll account_tx s.watcher in admit_polled sv (record s { watcher = r.1 }) r.0

-- `#live` after the step of one job: a step that throws has changed the job in place.
unfoldable pub advance_live : Services → Dict Job → Dict Job → Dict Job × Dict Job
advance_live sv [] files = ([], files)
advance_live sv ((id, job) ∷ live) files =
    let r = step sv job files in
    let rest = advance_live sv live r.files in
    if not r.thrown && is_terminal r.job.state then rest else ((id, r.job) ∷ rest.0, rest.1)

-- `#tick`
unfoldable pub service_tick :
    Services → (ℤ → Option (Option (List AccountTxEntry))) → ExecutorService → ExecutorService
service_tick sv account_tx s =
    let a = (watch_once sv account_tx s).1 in
    let l = advance_live sv a.live a.files in record a { live = l.0; files = l.1 }
