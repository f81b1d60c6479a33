-- ===== src/Xaman/Laws.antt =====
-- packages/executor/src/xaman.ts: identifiers, and the credentials.
use flare_hack.Prelude.{
  ℕ, ◌≤◌, ◌≡◌, refl, ◌↔◌, true, Option, none, some, [], ◌∷◌, arith, if◌then◌else◌, length, take,
  drop, length-take, Text, codes, starts_with, drop_last_slash,
}
use flare_hack.Hex.{IsHexText, with_prefix}
use flare_hack.Viem.{IsDigest}
use flare_hack.Xaman.{
  xaman_identifier_max, xaman_api, to_xaman_identifier, Env, Options, XamanClient, truthy,
  construct, client_with, both, is_configured,
}

to_xaman_identifier-prefix :
    (c d : ℕ) (s : Text) → IsHexText (c ∷ d ∷ s) → to_xaman_identifier (c ∷ d ∷ s) ≡ take 40 s
unfolding to_xaman_identifier starts_with
to_xaman_identifier-prefix c d s (x, y, h) = rw (x, y) refl

-- No identifier is longer than the 40 characters that Xaman accepts.
length-to_xaman_identifier :
    (commitment : Text) → length (to_xaman_identifier commitment) ≤ xaman_identifier_max
unfolding to_xaman_identifier
length-to_xaman_identifier commitment = omega (
  arith,
  length-take 40 (if starts_with commitment (codes "0x") then drop 2 commitment else commitment),
)

-- The identifier of a commitment has exactly the 40 characters that Xaman accepts, and they are the commitment's first 160 bits, so that two commitments with one identifier agree on those.
pub to_xaman_identifier-IsDigest :
    (commitment : Text)
    → IsDigest commitment
    → (length (to_xaman_identifier commitment) ≡ xaman_identifier_max)
      × (with_prefix (to_xaman_identifier commitment) ≡ take 42 commitment)
to_xaman_identifier-IsDigest [] h = absurd h.0
to_xaman_identifier-IsDigest (c ∷ []) h = absurd h.0
to_xaman_identifier-IsDigest (c ∷ d ∷ s) (hex, n, low) =
    rw (to_xaman_identifier-prefix c d s hex) (omega (arith, length-take 40 s), cc (hex.0, hex.1))

client_with_iff :
    (base : Text) (key secret : Option Text)
    → (both key secret ≡ true)
      ↔ ((client : XamanClient) × (client_with base key secret ≡ some client))
client_with_iff base (some k) (some s) =
    ((λ _. (record { key = k; secret = s; base = drop_last_slash base }, refl)), (λ _. refl))
client_with_iff base (some k) none = ((λ h. cc), (λ h. cc (h.1)))
client_with_iff base none secret = ((λ h. cc), (λ h. cc (h.1)))

abbrev pub no_options : Options
no_options = record { api_key = none; api_secret = none; base_url = none }

-- A client can be made from the environment alone exactly when `isConfigured` says so.
pub is_configured-construct :
    (env : Env)
    → (is_configured env ≡ true)
      ↔ ((client : XamanClient) × (construct no_options env ≡ some client))
unfolding is_configured construct
is_configured-construct env = client_with_iff xaman_api (truthy env.api_key) (truthy env.api_secret)
