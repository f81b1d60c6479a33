-- ===== src/Xaman.antt =====
-- packages/executor/src/xaman.ts: the sign requests, and how their answers are read.
pub mod Laws
use flare_hack.Prelude.{
  ℕ, Bool, true, false, Option, none, some, List, [], ◌∷◌, if◌then◌else◌, take, drop, Text, codes,
  starts_with, drop_last_slash,
}
use flare_hack.Json.{string, Fields, end, field}
use flare_hack.Prepare.Payment.{memos_json}

abbrev pub xaman_api : Text
xaman_api = codes "https://xumm.app/api/v1/platform"

abbrev pub xaman_identifier_max : ℕ
xaman_identifier_max = 40

-- `toXamanIdentifier`
unfoldable pub to_xaman_identifier : Text → Text
to_xaman_identifier commitment =
    take xaman_identifier_max
      (if starts_with commitment (codes "0x") then drop 2 commitment else commitment)

pub record SignRequestInput : Type 0 where
  pub account : Option Text
  pub destination : Text
  pub amount : Text
  pub memo_data : Text
  pub instruction : Text
  pub identifier : Option Text
  pub signers : Option (List Text)
  pub expire_minutes : Option ℕ

-- The body of `POST /payload`; a key that is not set is `none`.
pub record Payload : Type 0 where
  pub txjson : Fields
  pub submit : Option Bool
  pub expire : ℕ
  pub force_network : Option Text
  pub signers : Option (List Text)
  pub instruction : Text
  pub identifier : Option Text

pub record SignRequest : Type 0 where
  pub uuid : Text
  pub next : Text
  pub qr_png : Text
  pub pushed : Bool

pub record SignRequestStatus : Type 0 where
  pub uuid : Text
  pub resolved : Bool
  pub signed : Bool
  pub cancelled : Bool
  pub expired : Bool
  pub txid : Option Text
  pub account : Option Text

-- What the API answers to `GET /payload/…`.
pub record PayloadAnswer : Type 0 where
  pub resolved : Bool
  pub signed : Bool
  pub cancelled : Bool
  pub expired : Bool
  pub txid : Option Text
  pub account : Option Text

-- The environment variables of the credentials.
pub record Env : Type 0 where
  pub api_key : Option Text
  pub api_secret : Option Text

pub record Options : Type 0 where
  pub api_key : Option Text
  pub api_secret : Option Text
  pub base_url : Option Text

pub record XamanClient : Type 0 where
  pub key : Text
  pub secret : Text
  pub base : Text

-- A string that JavaScript takes for true.
abbrev pub truthy : Option Text → Option Text
truthy none = none
truthy (some []) = none
truthy (some (c ∷ s)) = some (c ∷ s)

abbrev pub text_or : Option Text → Option Text → Option Text
text_or (some a) b = some a
text_or none b = b

abbrev pub base_or : Option Text → Text
base_or none = xaman_api
base_or (some url) = url

abbrev pub client_with : Text → Option Text → Option Text → Option XamanClient
client_with base (some key) (some secret) =
    some (record { key = key; secret = secret; base = drop_last_slash base })
client_with base _ _ = none

-- The constructor, `none` where it throws.
unfoldable pub construct : Options → Env → Option XamanClient
unfolding drop_last_slash
construct opts env =
    client_with (base_or opts.base_url) (truthy (text_or opts.api_key env.api_key))
      (truthy (text_or opts.api_secret env.api_secret))

abbrev pub both : Option Text → Option Text → Bool
both (some a) (some b) = true
both _ _ = false

-- `XamanClient.isConfigured`
unfoldable pub is_configured : Env → Bool
is_configured env = both (truthy env.api_key) (truthy env.api_secret)

-- What `fetch` brought: nothing where it threw, else whether the status is 2xx and the body as
-- `JSON.parse` reads it.
pub data Answer (A : Type 0) : Type 0 where
  unreachable : Answer A
  answered : Bool → Option A → Answer A

-- `#call`, `none` where it throws
abbrev pub call : {A : Type 0} → Answer A → Option A
call unreachable = none
call (answered true body) = body
call (answered false body) = none

abbrev pub account_field : Option Text → Fields
account_field none = end
account_field (some a) = field (codes "Account") (string a) end

-- `...(input.signers?.length ? { signers: [...input.signers] } : {})`
abbrev pub signers_of : Option (List Text) → Option (List Text)
signers_of none = none
signers_of (some []) = none
signers_of (some (a ∷ signers)) = some (a ∷ signers)

abbrev pub identifier_of : Option Text → Option Text
identifier_of none = none
identifier_of (some commitment) = some (to_xaman_identifier commitment)

abbrev pub minutes_or_ten : Option ℕ → ℕ
minutes_or_ten none = 10
minutes_or_ten (some n) = n

-- The payload of `createSignRequest`, which has no DestinationTag
unfoldable pub payload_of : SignRequestInput → Payload
payload_of input = record {
  txjson = field (codes "TransactionType") (string (codes "Payment")) (
      field (codes "Destination") (string input.destination) (
        field (codes "Amount") (string input.amount) (
          field (codes "Memos") (memos_json input.memo_data)
            (account_field (truthy input.account)))));
  submit = some true;
  expire = minutes_or_ten input.expire_minutes;
  force_network = some (codes "TESTNET");
  signers = signers_of input.signers;
  instruction = input.instruction;
  identifier = identifier_of (truthy input.identifier);
}

unfoldable pub create_sign_request :
    (Payload → Answer SignRequest) → SignRequestInput → Option SignRequest
create_sign_request post input = call (post (payload_of input))

-- The payload of `createSignInRequest`
abbrev pub sign_in_payload : Text → Payload
sign_in_payload instruction = record {
  txjson = field (codes "TransactionType") (string (codes "SignIn")) end;
  submit = none;
  expire = 10;
  force_network = none;
  signers = none;
  instruction = instruction;
  identifier = none;
}

abbrev pub instruction_or : Option Text → Text
instruction_or none = codes "Sign in to ONESIG"
instruction_or (some s) = s

unfoldable pub create_sign_in_request :
    (Payload → Answer SignRequest) → Option Text → Option SignRequest
create_sign_in_request post instruction = call (post (sign_in_payload (instruction_or instruction)))

abbrev pub status_with : Text → PayloadAnswer → SignRequestStatus
status_with uuid r = record {
  uuid = uuid;
  resolved = r.resolved;
  signed = r.signed;
  cancelled = r.cancelled;
  expired = r.expired;
  txid = truthy r.txid;
  account = truthy r.account;
}

-- `getSignRequest`
unfoldable pub get_sign_request : (Text → Answer PayloadAnswer) → Text → Option SignRequestStatus
get_sign_request fetch_payload uuid = elim (call (fetch_payload uuid)) [
  | none ↦ none
  | some r ↦ some (status_with uuid r)
]
