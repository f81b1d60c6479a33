-- ===== src/Service/Honest.antt =====
-- packages/executor/src/service.ts: what requests do to the store.
use flare_hack.Prelude.{
  ◌≡◌, refl, inl, inr, ◌||◌, Option, none, some, [], ◌∷◌, Bool-cases, Option-cases, Except-cases,
  Text, codes, ◌===◌,
}
use flare_hack.Pending.{Entry}
use flare_hack.Pending.Sound.{IsHonestStore, register-IsHonestStore}
use flare_hack.Service.{
  ExecutorService, PreparedForWeb, Wiring, Request, register_entry, entry_of_prepared, entry_of,
  post_register, post_prepare, register_prepared, or_empty, Body,
}
use flare_hack.Service.Routes.{prepare_reply, handle_post, handle_service}

-- The honest stores, by the hash of the wiring.
abbrev pub IsHonest : Wiring → ExecutorService → Type 0
IsHonest w s = IsHonestStore w.viem s.watcher.store

register_entry-IsHonest :
    (w : Wiring) (entry : Entry) (s : ExecutorService)
    → IsHonest w s
    → IsHonest w (register_entry w entry s).1
register_entry-IsHonest w entry s h =
    register-IsHonestStore w.viem w.now w.writing entry s.watcher.store h

post_register-IsHonest :
    (w : Wiring) (body : Option Body) (s : ExecutorService)
    → IsHonest w s
    → IsHonest w (post_register w body s).1
unfolding post_register
post_register-IsHonest w none s h = h
post_register-IsHonest w (some body) s h =
    let entry = entry_of body in
    elim (Bool-cases ((entry.user_op_data === []) || (entry.personal_account === []))) [
      | inl bad ↦ rw bad h
      | inr fine ↦ rw fine (register_entry-IsHonest w entry s h)
    ]

register_prepared-IsHonest :
    (w : Wiring) (address : Text) (p : Option PreparedForWeb) (s : ExecutorService)
    → IsHonest w s
    → IsHonest w (register_prepared w address p s).1
register_prepared-IsHonest w address none s h = h
register_prepared-IsHonest w address (some p) s h =
    elim (Except-cases (register_entry w (entry_of_prepared p) s).0) [
      | inl (c, good) ↦
          rw (good, register_prepared) (register_entry-IsHonest w (entry_of_prepared p) s h)
      | inr (x, bad) ↦
          rw (bad, register_prepared) (register_entry-IsHonest w (entry_of_prepared p) s h)
    ]

abbrev maybe_address : Option Body → Text
maybe_address none = []
maybe_address (some body) = or_empty body.xrpl_address

post_prepare-IsHonest :
    (w : Wiring) (prepare : Text → Option PreparedForWeb) (body : Option Body) (address : Text)
    (s : ExecutorService)
    → maybe_address body ≡ address
    → IsHonest w s
    → IsHonest w (post_prepare w prepare body s).1
unfolding post_prepare
post_prepare-IsHonest w prepare none address s e h = h
post_prepare-IsHonest w prepare (some body) [] s e h = rw (e, post_prepare) h
post_prepare-IsHonest w prepare (some body) (c ∷ address) s e h =
    rw (e, post_prepare) (register_prepared-IsHonest w (c ∷ address) (prepare (c ∷ address)) s h)

prepare_reply-IsHonest :
    (w : Wiring) (req : Request) (s : ExecutorService)
    → IsHonest w s
    → IsHonest w (prepare_reply w req s).1
prepare_reply-IsHonest w req s h = elim (Option-cases w.prepare) [
  | inl absent ↦ simp (absent, prepare_reply) h
  | inr (prepare, wired) ↦
      simp (wired, prepare_reply)
        (post_prepare-IsHonest w prepare req.body (maybe_address req.body) s refl h)
]

handle_post-IsHonest :
    (w : Wiring) (req : Request) (s : ExecutorService)
    → IsHonest w s
    → IsHonest w (handle_post w req s).1
unfolding handle_post
handle_post-IsHonest w req s h = elim (Bool-cases (req.pathname === codes "/register")) [
  | inl a ↦ rw a (post_register-IsHonest w req.body s h)
  | inr b ↦ elim (Bool-cases (req.pathname === codes "/signin")) [
    | inl c ↦ rw (b, c) h
    | inr d ↦ elim (Bool-cases (req.pathname === codes "/prepare")) [
      | inl i ↦ rw (b, d, i) (prepare_reply-IsHonest w req s h)
      | inr j ↦ rw (b, d, j) h
    ]
  ]
]

-- Whatever is requested, and whether or not the request is answered, every payload that the
-- executor holds afterwards is held under its own hash, if that was so before.
pub handle_service-IsHonest :
    (w : Wiring) (req : Request) (s : ExecutorService)
    → IsHonest w s
    → IsHonest w (handle_service w req s).1
unfolding handle_service
handle_service-IsHonest w req s h = elim (Bool-cases (req.method === codes "OPTIONS")) [
  | inl a ↦ rw a h
  | inr b ↦ elim (Bool-cases (req.method === codes "POST")) [
    | inl c ↦ rw (b, c) (handle_post-IsHonest w req s h)
    | inr d ↦ elim (Bool-cases (req.method === codes "GET")) [
      | inl i ↦ rw (b, d, i) h
      | inr j ↦ rw (b, d, j) h
    ]
  ]
]
