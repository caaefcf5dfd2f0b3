-- ===== src/Api/Hw/Answered.antt =====
-- A dump from the API (apps/rc-api/src/devices/hw.service.ts) over the device to the ingest
-- (apps/rc-ingest/src/ingest.service.ts) and back.
use ukpc_remote_control.Prelude.{
  ℕ, ◌≡◌, refl, ap, ◌∙◌, String, Bool, true, false, ◌+s◌, Option, none, some, List, [], ◌∷◌, arith,
  eq_refl, Number,
}
use ukpc_remote_control.Shared.Keys
use ukpc_remote_control.Shared.Json.{Json, field}
use ukpc_remote_control.Api.Redis.{Redis}
use ukpc_remote_control.Ingest.{Env, World}
use ukpc_remote_control.Ingest.Dumps.{nonce_of, may_wait, on_hw_dump}
use ukpc_remote_control.Ingest.Dumps.Answers.{stored, one_message-answers, request_apart}
use ukpc_remote_control.Api.Bounds.{clamp}
use ukpc_remote_control.Api.Sessions.{HttpError}
use ukpc_remote_control.Api.Devices.Service.{Reader, Desk}
use ukpc_remote_control.Api.Hw.{
  waiting, dumped, first_pushed, device_error, ask_free, ask_checked, ask_dump, result_of,
  take_dump,
}

module _ (r : Redis) where
  -- what the request leaves in Redis
  abbrev Registered : r.Store → r.Store → String → Type 0
  Registered s t nonce =
      (r.exists t (Keys.hw_dump_req nonce) ≡ true)
      × (r.items t (Keys.hw_dump nonce) ≡ r.items s (Keys.hw_dump nonce))

  ask_free-Registered :
      (w : Desk r) (free : Bool) (d : String) (n : ℕ) (nonce : String)
      → (ask_free r (w, free) d n nonce).1 ≡ waiting
      → Registered w.store (ask_free r (w, free) d n nonce).0.store nonce
  unfolding ask_free
  ask_free-Registered w false d n nonce h = ground (arith, h)
  ask_free-Registered w true d n nonce h = (
    r.exists-set w.store (Keys.hw_dump_req nonce) "1" 16,
    r.items-set w.store (Keys.hw_dump_req nonce) (Keys.hw_dump nonce) "1" 16
        ∙ rw (request_apart nonce nonce) refl,
  )

  ask_checked-Registered :
      (o : Option HttpError) (w : Desk r) (d : String) (n : Option Number) (nonce : String)
      → (ask_checked r o w d n nonce).1 ≡ waiting
      → Registered w.store (ask_checked r o w d n nonce).0.store nonce
  unfolding ask_checked
  ask_checked-Registered (some e) w d n nonce h = ground (arith, h)
  ask_checked-Registered none w d n nonce h =
      let throttle = "hw:dumpthr:" +s d in
      let free = r.set_nx w.store throttle "1" 3 in
      let (there, same) =
        ask_free-Registered (record w { store = free.0 }) free.1 d (clamp n 1 100 100) nonce h in
      (there, same ∙ r.items-set_nx w.store throttle (Keys.hw_dump nonce) "1" 3)

  -- A dump that the API waits for is answered with the counts of what the ingest stored, also if the device
  -- is over its limit: where the nonce is new, the device sends it back, and the answer can be parsed.
  pub dump_round :
      (reply : ℕ → ℕ → String) (parse_reply : String → ℕ × ℕ)
      → ((a b : ℕ) → parse_reply (reply a b) ≡ (a, b))
      → (rd : Reader) (w : Desk r) (d : String) (op : ℕ) (n : Option Number) (nonce : String)
      → (e : Env) (msg : Json) (raw : List Json) → r.items w.store (Keys.hw_dump nonce) ≡ []
      → e.text_of (nonce_of (field "nonce" msg)) ≡ nonce
      → may_wait (nonce_of (field "nonce" msg)) ≡ true
      → (ask_dump r rd w d op n nonce).1 ≡ waiting
      → let asked = (ask_dump r rd w d op n nonce).0 in
        let there : World r = record { store = asked.store; db = asked.db; sent = [] } in
        let counts = (stored r reply e there d msg raw).1 in
        (take_dump r parse_reply (on_hw_dump r reply e there d msg raw).store nonce).1
        ≡ dumped counts.0 counts.1
  unfolding ask_dump take_dump result_of
  dump_round reply parse_reply inverse rd w d op n nonce e msg raw fresh same waits asks =
      let asked = (ask_dump r rd w d op n nonce).0 in
      let there : World r = record { store = asked.store; db = asked.db; sent = [] } in
      let (registered, kept) = ask_checked-Registered (device_error r rd w d op) w d n nonce asks in
      let counts = (stored r reply e there d msg raw).1 in
      let answers : r.items (on_hw_dump r reply e there d msg raw).store (Keys.hw_dump nonce)
          ≡ reply counts.0 counts.1 ∷ [] =
        one_message-answers r reply e there d msg raw nonce
        ∙ rw (waits, same, registered, eq_refl (Keys.hw_dump nonce), kept, fresh) refl in
      ap (λ xs. result_of r parse_reply (first_pushed xs)) answers
      ∙ ap (λ p. dumped p.0 p.1) (inverse counts.0 counts.1)
