-- ===== src/Trigger.antt =====
-- extension/typescript/src/app/triggers.ts. Times are counts of the unit of `JsNumber`.
pub mod FailClosed
pub mod Quote
use flare_hack.Prelude.{
  ℕ, zero, suc, ◌+◌, ◌-◌, ◌*◌, ◌/◌, ◌^◌, Bool, false, ◌&&◌, ◌||◌, Option, none, some, [], ◌∷◌, ◌++◌,
  ltb, leb, ◌==◌, if◌then◌else◌, length, take, drop, all, ℤ, pos, negsuc, Except, ok, err, ◌>>=◌,
  Text, codes, ◌===◌, starts_with,
}
use flare_hack.BigInt.{big_hex}
use flare_hack.Hex.{is_hex_digit}
use flare_hack.Json.{finite, Json, number, string, array, object, Fields, get_field}

pub data Comparator : Type 0 where
  gte lte : Comparator

pub data Trigger : Type 0 where
  price : Text → Comparator → Text → Trigger
  time : ℕ → Trigger

pub record FeedReading : Type 0 where
  pub value : ℕ
  pub decimals : ℤ
  pub timestamp : ℕ

pub data TriggerError : Type 0 where
  not_an_object bad_feed_id bad_op bad_value bad_not_before unsupported_kind : TriggerError

-- `x === "text"` for a value that need not be a string
abbrev pub is_text : Option Json → Text → Bool
is_text (some (string s)) t = s === t
is_text _ t = false

abbrev pub strip_0x : Text → Text
strip_0x s = if starts_with s (codes "0x") then drop 2 s else s

-- `/^0x[0-9a-fA-F]{42}$/`
unfoldable pub is_feed_id : Text → Bool
is_feed_id s = length s == 44 && (starts_with s (codes "0x") && all is_hex_digit (drop 2 s))

abbrev pub is_digit : ℕ → Bool
is_digit c = leb b'0' c && leb c b'9'

-- `/^\d+$/`
unfoldable pub is_decimal : Text → Bool
is_decimal s = leb 1 (length s) && all is_digit s

abbrev pub check_text : (Text → Bool) → TriggerError → Option Json → Except TriggerError Text
check_text test e (some (string s)) = if test s then ok s else err e
check_text test e _ = err e

abbrev pub check_op : Option Json → Except TriggerError Comparator
check_op op =
    if is_text op (codes "GTE")
    then ok gte
    else if is_text op (codes "LTE")
    then ok lte
    else err bad_op

abbrev pub check_not_before : Option Json → Except TriggerError ℕ
check_not_before (some (number (finite (pos n)))) = if n == 0 then err bad_not_before else ok n
check_not_before _ = err bad_not_before

abbrev pub parse_price : Fields → Except TriggerError Trigger
parse_price t = do
  feed_id ← check_text is_feed_id bad_feed_id (get_field (codes "feedId") t)
  op ← check_op (get_field (codes "op") t)
  value ← check_text is_decimal bad_value (get_field (codes "value") t)
  ok (price feed_id op value)

abbrev pub parse_time : Fields → Except TriggerError Trigger
parse_time t = do
  not_before ← check_not_before (get_field (codes "notBefore") t)
  ok (time not_before)

abbrev pub parse_kind : Option Json → Fields → Except TriggerError Trigger
parse_kind kind t =
    if is_text kind (codes "PRICE")
    then parse_price t
    else if is_text kind (codes "TIME")
    then parse_time t
    else err unsupported_kind

-- An array is an object to `typeof`, and has no member `kind`.
unfoldable pub parse_trigger : Option Json → Except TriggerError Trigger
parse_trigger (some (object t)) = parse_kind (get_field (codes "kind") t) t
parse_trigger (some (array _)) = err unsupported_kind
parse_trigger _ = err not_an_object

-- The calldata of getFeedById(bytes21).
unfoldable pub pad_end : ℕ → Text → Text
pad_end zero s = s
pad_end (suc n) [] = b'0' ∷ pad_end n []
pad_end (suc n) (c ∷ s) = c ∷ pad_end n s

unfoldable pub feed_call : Text → Text
unfolding pad_end
feed_call feed_id = codes "0x93e9f806" ++ pad_end 64 (strip_0x feed_id)

-- `int8` in a word of 32 bytes
abbrev pub decimals_of : ℕ → ℤ
decimals_of raw =
    if ltb 0x7f raw
    then if ltb raw (2 ^ 256) then negsuc (2 ^ 256 - raw - 1) else pos (raw - 2 ^ 256)
    else pos raw

-- The word of 64 characters at `from`; `none` where BigInt throws.
unfoldable pub word_at : ℕ → Text → Option ℕ
word_at from hex = big_hex (take 64 (drop from hex))

abbrev pub reading_of : ℕ → Option ℕ → Option ℕ → Option ℕ → Option FeedReading
reading_of now_ms (some v) (some d) (some t) = some (record {
  value = v;
  decimals = decimals_of d;
  timestamp = if t == 0 then now_ms / 1000 else t;
})
reading_of now_ms _ _ _ = none

-- What `readFeed` makes of the node's answer.
unfoldable pub decode_feed : ℕ → Text → Option FeedReading
decode_feed now_ms result =
    let hex = strip_0x result in
    if (result === codes "") || (result === codes "0x")
    then none
    else if ltb (length hex) 192
    then none
    else reading_of now_ms (word_at 0 hex) (word_at 64 hex) (word_at 128 hex)

-- `rpc` is the `eth_call`: the field `result` of its answer, `none` if it fails or has none.
unfoldable pub read_feed : (Text → Option Text) → Text → ℕ → Option FeedReading
read_feed rpc feed_id now_ms = elim (rpc (feed_call feed_id)) [
  | none ↦ none
  | some result ↦ decode_feed now_ms result
]

-- `BigInt` of decimal digits, after what was read before.
unfoldable pub decimal_number : ℕ → Text → ℕ
decimal_number n [] = n
decimal_number n (c ∷ s) = decimal_number (n * 10 + (c - 48)) s

abbrev pub compares : Comparator → ℕ → ℕ → Bool
compares gte value threshold = leb threshold value
compares lte value threshold = leb value threshold

abbrev pub price_met : Option FeedReading → Comparator → Text → Bool × Option FeedReading
price_met none op value = (false, none)
price_met (some r) op value = (compares op r.value (decimal_number 0 value), some r)

-- `fired`, and the reading that decided it.
unfoldable pub is_triggered : Trigger → ℕ → (Text → Option FeedReading) → Bool × Option FeedReading
is_triggered (time not_before) now read = (leb not_before now, none)
is_triggered (price feed_id op value) now read = price_met (read feed_id) op value
