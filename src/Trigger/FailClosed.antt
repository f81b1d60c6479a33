-- ===== src/Trigger/FailClosed.antt =====
-- extension/typescript/src/app/triggers.ts: no price trigger is met without a well-formed answer.
use mathlib.Core.Path.{subst}
use flare_hack.Prelude.{
  ℕ, ◌≤◌, ◌≡◌, refl, ap, inl, inr, true, false, ◌||◌, Option, none, some, arith, ltb, Bool-cases,
  Option-cases, length, Text, codes, ◌===◌,
}
use flare_hack.Trigger.{
  Comparator, price, FeedReading, strip_0x, feed_call, word_at, decode_feed, read_feed, reading_of,
  decimal_number, compares, price_met, is_triggered,
}

-- The node's answer to the call for the feed has three words that are read as hex numbers, and the
-- first meets the threshold.
pub record Quoted (rpc : Text → Option Text) (feed_id : Text) (op : Comparator) (value : Text)
    : Type 0 where
  pub answer : Text
  pub quote : ℕ
  pub answered : rpc (feed_call feed_id) ≡ some answer
  pub whole : 192 ≤ length (strip_0x answer)
  pub read : word_at 0 (strip_0x answer) ≡ some quote
  pub decimals : ℕ
  pub second : word_at 64 (strip_0x answer) ≡ some decimals
  pub timestamp : ℕ
  pub third : word_at 128 (strip_0x answer) ≡ some timestamp
  pub meets : compares op quote (decimal_number 0 value) ≡ true

none-not_some {ℓ κ} : {A : Type ℓ} {B : Type κ} {x : A} → ◌≡◌ {A = Option A} none (some x) → B
none-not_some e = cc

false-not_true {ℓ} : {B : Type ℓ} → false ≡ true → B
false-not_true e = cc

-- The three words that a reading is made of.
record Words (a b c : Option ℕ) (value : ℕ) : Type 0 where
  pub first : a ≡ some value
  pub decimals : ℕ
  pub second : b ≡ some decimals
  pub timestamp : ℕ
  pub third : c ≡ some timestamp

reading_of-Words :
    (now : ℕ) (a b c : Option ℕ) {r : FeedReading}
    → reading_of now a b c ≡ some r
    → Words a b c r.value
reading_of-Words now none b c e = none-not_some e
reading_of-Words now (some v) none c e = none-not_some e
reading_of-Words now (some v) (some d) none e = none-not_some e
reading_of-Words now (some v) (some d) (some t) {r} e = record {
  first = ap {A = Option FeedReading} (λ o. elim o [ none ↦ some v | some x ↦ some x.value ]) e;
  decimals = d;
  second = refl;
  timestamp = t;
  third = refl;
}

decode_feed-some :
    (now : ℕ) (answer : Text) {r : FeedReading}
    → decode_feed now answer ≡ some r
    → (192 ≤ length (strip_0x answer))
      × Words
          (word_at 0 (strip_0x answer))
          (word_at 64 (strip_0x answer))
          (word_at 128 (strip_0x answer))
          r.value
unfolding decode_feed
decode_feed-some now answer {r} e =
    elim (Bool-cases ((answer === codes "") || (answer === codes "0x"))) [
      | inl empty ↦ (none-not_some (rw empty at e))
      | inr text ↦ elim (Bool-cases (ltb (length (strip_0x answer)) 192)) [
        | inl short ↦ (none-not_some (rw (text, short) at e))
        | inr long ↦ (
          ground arith,
          reading_of-Words now (word_at 0 (strip_0x answer)) (word_at 64 (strip_0x answer))
              (word_at 128 (strip_0x answer)) (rw (text, long) at e),
        )
      ]
    ]

read_feed-some :
    (rpc : Text → Option Text) (feed_id : Text) (now : ℕ) {r : FeedReading}
    → read_feed rpc feed_id now ≡ some r
    → (answer : Text) × (rpc (feed_call feed_id) ≡ some answer) × (decode_feed now answer ≡ some r)
unfolding read_feed
read_feed-some rpc feed_id now e = elim (Option-cases (rpc (feed_call feed_id))) [
  | inl failed ↦ (none-not_some (rw (failed, read_feed) at e))
  | inr (answer, got) ↦ (answer, got, rw (got, read_feed) at e)
]

-- A price trigger is met only when the node has answered the call for its feed with three words that
-- `BigInt` reads as hex numbers (white space at the end of a word aside), of which the first meets the
-- threshold: a call that fails, an empty answer, a short one and one with a word that is no such number
-- do not meet it.
pub is_triggered-Quoted :
    (rpc : Text → Option Text) (feed_id : Text) (op : Comparator) (value : Text) (now : ℕ)
    → (is_triggered (price feed_id op value) now (λ id. read_feed rpc id now)).0 ≡ true
    → Quoted rpc feed_id op value
unfolding is_triggered
is_triggered-Quoted rpc feed_id op value now h = elim (Option-cases (read_feed rpc feed_id now)) [
  | inl failed ↦ (false-not_true (subst (λ o. (price_met o op value).0 ≡ true) failed h))
  | inr (r, good) ↦
      let (answer, got, decoded) = read_feed-some rpc feed_id now good in
      let d = decode_feed-some now answer decoded in
      record {
        answer = answer;
        quote = r.value;
        answered = got;
        whole = d.0;
        read = d.1.first;
        decimals = d.1.decimals;
        second = d.1.second;
        timestamp = d.1.timestamp;
        third = d.1.third;
        meets = subst (λ o. (price_met o op value).0 ≡ true) good h;
      }
]
