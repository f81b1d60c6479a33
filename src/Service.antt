-- ===== src/Service.antt =====
-- packages/executor/src/service.ts: the requests that the executor answers, and its tick.
pub mod Routes
pub mod Tick
pub mod Honest
pub mod Laws
use flare_hack.Prelude.{
  ℕ, Bool, ◌||◌, Option, none, some, List, [], ◌∷◌, if◌then◌else◌, drop, Except, ok, err, Text,
  codes, ◌===◌, starts_with, to_upper_case,
}
use flare_hack.Disk.{Write}
use flare_hack.Json.{Json, null, string, object, get_field}
use flare_hack.Dict.{Dict, get}
use flare_hack.Viem.{Viem}
use flare_hack.Pending.{PendingUserOp, Entry, PendingStore, StoreError, register}
use flare_hack.Watcher.{Watcher}
use flare_hack.Pipeline.{JobState, Job}

pub record PreparedForWeb : Type 0 where
  pub personal_account : Text
  pub nonce : Text
  pub label : Text
  pub user_op_data : Text
  pub user_op_hash : Text
  pub total_call_value : Text
  pub memo_hex : Text
  pub destination : Text
  pub amount_drops : Text

-- The store is the watcher's; the files are those of the pipeline.
pub record ExecutorService : Type 0 where
  pub watcher : Watcher
  pub live : Dict Job
  pub files : Dict Job

-- A signing request, as the Xaman client returns it.
pub record SignRequest : Type 0 where
  pub uuid : Text
  pub next : Text
  pub qr : Text

-- What the service is wired to; an operation that is not wired is `none`, and so is, inside, a call
-- that throws.
pub record Wiring : Type 0 where
  pub viem : Viem
  pub now : ℕ
  pub writing : Write
  pub prepare : Option (Text → Option PreparedForWeb)
  pub read_vault_balance : Option (Text → Option Text)
  pub create_sign_in_request : Option (Option SignRequest)
  pub get_sign_request : Option (Text → Option Json)
  pub create_sign_request : Option (Text → PreparedForWeb → Option SignRequest)
  pub core_vault_address : Text
  pub index_html : Option Text

-- A body of a type that `#handle` casts it to: each member is a string, or it is not there. A body
-- with a member of another type is not met.
pub record Body : Type 0 where
  pub user_op_data : Option Text
  pub commitment : Option Text
  pub personal_account : Option Text
  pub nonce : Option Text
  pub total_call_value : Option Text
  pub label : Option Text
  pub xrpl_address : Option Text

-- A request: its query parameters, and its body as `readBody` parses it, `none` where that throws.
pub record Request : Type 0 where
  pub method : Text
  pub pathname : Text
  pub query : Text → Option Text
  pub body : Option Body

-- A row of `GET /pending`.
pub record PendingRow : Type 0 where
  pub commitment : Text
  pub label : Text
  pub personal_account : Text
  pub registered_at : ℕ

pub record StatusReply : Type 0 where
  pub state : JobState
  pub round_id : Option ℕ
  pub flare_tx_hash : Option Text
  pub execution_allowed_at : Option ℕ
  pub last_error : Option Text

-- The replies; `failed_with_500` is the reply to a request whose handling threw.
pub data Reply : Type 0 where
  no_content failed_with_500 not_found : Reply
  bad_request unavailable missing : Text → Reply
  registered : Text → Reply
  status : StatusReply → Reply
  pending : List PendingRow → Reply
  page : Text → Reply
  config : Bool → Text → Reply
  sign_in : SignRequest → Reply
  xaman : Json → Reply
  prepared : PreparedForWeb → Option SignRequest → Reply
  balance : Text → Reply
  health : ℕ → Reply

-- `x ?? d`
abbrev pub or_default : Option Text → Text → Text
or_default none d = d
or_default (some x) d = x

-- A text that is not there is tested like an empty one.
abbrev pub or_empty : Option Text → Text
or_empty x = or_default x []

-- A member `x?: string`: null is read as if it was not there; `none` for another type.
abbrev pub string_member : Option Json → Option (Option Text)
string_member none = some none
string_member (some null) = some none
string_member (some (string s)) = some (some s)
string_member (some _) = none

infixl 5 ◌>>=◌
abbrev ◌>>=◌ : {A B : Type 0} → Option A → (A → Option B) → Option B
none >>= f = none
some a >>= f = f a

-- The body, where the parsed value is an object of the type it is cast to
unfoldable pub body_of : Json → Option Body
body_of (object fields) = do
  user_op_data ← string_member (get_field (codes "userOpData") fields)
  commitment ← string_member (get_field (codes "commitment") fields)
  personal_account ← string_member (get_field (codes "personalAccount") fields)
  nonce ← string_member (get_field (codes "nonce") fields)
  total_call_value ← string_member (get_field (codes "totalCallValue") fields)
  label ← string_member (get_field (codes "label") fields)
  xrpl_address ← string_member (get_field (codes "xrplAddress") fields)
  some (record {
    user_op_data = user_op_data;
    commitment = commitment;
    personal_account = personal_account;
    nonce = nonce;
    total_call_value = total_call_value;
    label = label;
    xrpl_address = xrpl_address;
  })
body_of _ = none

abbrev pub with_store : ExecutorService → PendingStore → ExecutorService
with_store s store = record s { watcher = record s.watcher { store = store } }

-- An empty commitment is left out; `register` takes it like one that is not there.
abbrev pub entry_of : Body → Entry
entry_of body = record {
  claimed = body.commitment;
  user_op_data = or_empty body.user_op_data;
  personal_account = or_empty body.personal_account;
  nonce = or_default body.nonce (codes "0");
  total_call_value = or_default body.total_call_value (codes "0");
  label = or_default body.label (codes "(unlabelled)");
}

abbrev pub registered_reply : Except StoreError Text → Reply
registered_reply (ok commitment) = registered commitment
registered_reply (err e) = failed_with_500

abbrev pub register_entry :
    Wiring → Entry → ExecutorService → Except StoreError Text × ExecutorService
register_entry w entry s =
    let r = register w.viem w.now w.writing entry s.watcher.store in (r.0, with_store s r.1)

-- `POST /register`
unfoldable pub post_register : Wiring → Option Body → ExecutorService → Reply × ExecutorService
post_register w none s = (failed_with_500, s)
post_register w (some body) s =
    let entry = entry_of body in
    let r = register_entry w entry s in
    if (entry.user_op_data === []) || (entry.personal_account === [])
    then (bad_request (codes "userOpData and personalAccount are required"), s)
    else (registered_reply r.0, r.1)

-- `id.replace(/^0x/, "").toUpperCase()`
abbrev pub job_id : Text → Text
job_id tx = to_upper_case (if starts_with tx (codes "0x") then drop 2 tx else tx)

abbrev pub status_of : Option Job → Reply
status_of none = missing (codes "no job for that XRPL transaction")
status_of (some job) = status (record {
  state = job.state;
  round_id = job.round_id;
  flare_tx_hash = job.flare_tx_hash;
  execution_allowed_at = job.execution_allowed_at;
  last_error = job.last_error;
})

-- `GET /status`
abbrev pub get_status : Option Text → ExecutorService → Reply
get_status none s = bad_request (codes "tx query parameter is required")
get_status (some []) s = bad_request (codes "tx query parameter is required")
get_status (some (c ∷ tx)) s = status_of (get (job_id (c ∷ tx)) s.files)

abbrev pub row_of : PendingUserOp → PendingRow
row_of p = record {
  commitment = p.commitment;
  label = p.label;
  personal_account = p.personal_account;
  registered_at = p.registered_at;
}

abbrev pub or_500 : {A : Type 0} → (A → Reply) → Option A → Reply
or_500 f none = failed_with_500
or_500 f (some a) = f a

abbrev pub not_configured : Reply
not_configured = unavailable (codes "Xaman is not configured on this executor")

abbrev pub entry_of_prepared : PreparedForWeb → Entry
entry_of_prepared p = record {
  claimed = some p.user_op_hash;
  user_op_data = p.user_op_data;
  personal_account = p.personal_account;
  nonce = p.nonce;
  total_call_value = p.total_call_value;
  label = p.label;
}

abbrev sign_prepared : Wiring → Text → PreparedForWeb → Reply
sign_prepared w address p = elim w.create_sign_request [
  | none ↦ prepared p none
  | some sign ↦ or_500 (λ r. prepared p (some r)) (sign address p)
]

abbrev pub register_prepared :
    Wiring → Text → Option PreparedForWeb → ExecutorService → Reply × ExecutorService
register_prepared w address none s = (failed_with_500, s)
register_prepared w address (some p) s =
    let r = register_entry w (entry_of_prepared p) s in
    elim r.0 [ err e ↦ (failed_with_500, r.1) | ok commitment ↦ (sign_prepared w address p, r.1) ]

-- `POST /prepare`, behind its first test
unfoldable pub post_prepare :
    Wiring
    → (Text → Option PreparedForWeb)
    → Option Body
    → ExecutorService
    → Reply × ExecutorService
post_prepare w prepare none s = (failed_with_500, s)
post_prepare w prepare (some body) s = elim (or_empty body.xrpl_address) [
  | [] ↦ (bad_request (codes "xrplAddress is required"), s)
  | c ∷ address ↦ register_prepared w (c ∷ address) (prepare (c ∷ address)) s
]
