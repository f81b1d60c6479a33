-- ===== src/Service/Routes.antt =====
-- packages/executor/src/service.ts: `#handle`.
use flare_hack.Prelude.{
  Bool, true, false, ◌||◌, Option, none, some, [], ◌∷◌, map, if◌then◌else◌, length, drop, Text,
  codes, ◌===◌, starts_with,
}
use flare_hack.Pending.{list}
use flare_hack.Service.{
  ExecutorService, Wiring, Request, Reply, no_content, not_found, unavailable, bad_request, missing,
  pending, page, config, sign_in, xaman, balance, health, row_of, or_500, not_configured,
  get_status, post_register, post_prepare,
}

abbrev sign_in_reply : Wiring → Reply
sign_in_reply w = elim w.create_sign_in_request [
  | none ↦ not_configured
  | some r ↦ or_500 sign_in r
]

abbrev xaman_reply : Wiring → Text → Reply
xaman_reply w uuid = elim w.get_sign_request [
  | none ↦ not_configured
  | some ask ↦ or_500 xaman (ask uuid)
]

abbrev vault_reply : (Text → Option Text) → Option Text → Reply
vault_reply read none = bad_request (codes "account query parameter is required")
vault_reply read (some []) = bad_request (codes "account query parameter is required")
vault_reply read (some (c ∷ account)) = or_500 balance (read (c ∷ account))

abbrev get_vault : Wiring → Option Text → Reply
get_vault w account = elim w.read_vault_balance [
  | none ↦ unavailable (codes "vault reads are not wired")
  | some read ↦ vault_reply read account
]

abbrev page_reply : Option Text → Reply
page_reply none = missing (codes "demo page not found")
page_reply (some html) = page html

abbrev is_some : {A : Type 0} → Option A → Bool
is_some none = false
is_some (some a) = true

-- The paths of GET requests.
unfoldable pub handle_get : Wiring → Request → ExecutorService → Reply
handle_get w req s =
    if req.pathname === codes "/status"
    then get_status (req.query (codes "tx")) s
    else if req.pathname === codes "/pending"
    then pending (map row_of (list s.watcher.store))
    else if (req.pathname === codes "/") || (req.pathname === codes "/index.html")
    then page_reply w.index_html
    else if req.pathname === codes "/config"
    then config (is_some w.create_sign_in_request) w.core_vault_address
    else if starts_with req.pathname (codes "/xaman/")
    then xaman_reply w (drop 7 req.pathname)
    else if req.pathname === codes "/vault"
    then get_vault w (req.query (codes "account"))
    else if req.pathname === codes "/health"
    then health (length s.live)
    else not_found

abbrev pub prepare_reply : Wiring → Request → ExecutorService → Reply × ExecutorService
prepare_reply w req s = elim w.prepare [
  | none ↦ (unavailable (codes "prepare is not wired on this executor"), s)
  | some prepare ↦ post_prepare w prepare req.body s
]

-- The paths of POST requests.
unfoldable pub handle_post : Wiring → Request → ExecutorService → Reply × ExecutorService
handle_post w req s =
    let stored = post_register w req.body s in
    let ready = prepare_reply w req s in
    if req.pathname === codes "/register"
    then stored
    else if req.pathname === codes "/signin"
    then (sign_in_reply w, s)
    else if req.pathname === codes "/prepare"
    then ready
    else (not_found, s)

-- `#handle`, and the reply with status 500 of `start` where it throws
unfoldable pub handle_service : Wiring → Request → ExecutorService → Reply × ExecutorService
handle_service w req s =
    let posted = handle_post w req s in
    if req.method === codes "OPTIONS"
    then (no_content, s)
    else if req.method === codes "POST"
    then posted
    else if req.method === codes "GET"
    then (handle_get w req s, s)
    else (not_found, s)
