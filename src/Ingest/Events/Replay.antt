-- ===== src/Ingest/Events/Replay.antt =====
-- apps/rc-ingest/src/ingest.service.ts: events that come twice, and dumps asked for twice.
use ukpc_remote_control.Prelude.{
  ℕ, ◌≡◌, refl, sym, ap, ◌∙◌, String, Bool, true, false, ◌&&◌, ◌==◌, Option, none, some, List, [],
  ◌∷◌, ◌++◌, arith, eq_iff, eq_refl, differ, any, num, lookup, Bool-cases, inl, inr,
}
use ukpc_remote_control.Shared.Keys
use ukpc_remote_control.Shared.Json.{Json, field}
use ukpc_remote_control.Db.{DeviceRow, HwEventRow, units_eq, same_event, add_unique}
use ukpc_remote_control.Api.Redis.{Redis}
use ukpc_remote_control.Ingest.{Env, World, sane_ts, add_device, ensure_at, ensure_device}
use ukpc_remote_control.Ingest.Limits.{allow, allow_in}
use ukpc_remote_control.Ingest.Events.{
  event_row, is_flap, hw_event_code, event_limit, is_one_of, hw_auto_dump_codes, request_dump,
  dump_if, store_flap, store_event, hw_event, on_event,
}

units_eq_refl : (s : List ℕ) → units_eq s s ≡ true
units_eq_refl [] = refl
units_eq_refl (u ∷ us) = ground (arith, units_eq_refl us)

event_row_refl :
    (e : Env) (d : String) (msg : Json) (code : List ℕ)
    → same_event (event_row e d msg code) (event_row e d msg code) ≡ true
event_row_refl e d msg code = ground (arith, eq_refl d, units_eq_refl code)

any_last {ℓ} :
    {A : Type ℓ} (p : A → Bool) (row : A) (rows : List A)
    → p row ≡ true
    → any p (rows ++ row ∷ []) ≡ true
any_last p row [] h = ground (arith, h)
any_last p row (x ∷ rows) h = ground (arith, any_last p row rows h)

-- a row that is there is not added
add_unique_twice {ℓ} :
    {A : Type ℓ} (same : A → A → Bool) (row : A) (rows : List A)
    → same row row ≡ true
    → add_unique same row (add_unique same row rows).0 ≡ ((add_unique same row rows).0, false)
add_unique_twice same row rows h = elim (Bool-cases (any (same row) rows)) [
  | inl b ↦ rw (b, b) refl
  | inr b ↦ rw (b, any_last (same row) row rows h) refl
]

caps_apart : (a d : String) → (Keys.device_caps a == Keys.hw_auto_dump d) ≡ false
caps_apart a d = differ "d" "h" "evice:caps:" "w:autodump:" a d refl

module _ (r : Redis) where
  request_dump-db :
      (e : Env) (w : World r) (d : String) (n : ℕ) → (request_dump r e w d n).db ≡ w.db
  unfolding request_dump
  request_dump-db e w d n = ground arith

  dump_if-db : (e : Env) (b : Bool) (w : World r) (d : String) → (dump_if r e b w d).db ≡ w.db
  unfolding dump_if
  dump_if-db e false w d = refl
  dump_if-db e true w d = request_dump-db e w d 100

  allow-db : (w : World r) (key : String) (max sec : ℕ) → (allow_in r w key max sec).0.db ≡ w.db
  allow-db w key max sec = refl

  add_device-events :
      (w : World r) (d : String) (g : Option ℕ) → (add_device r w d g).db.hw_events ≡ w.db.hw_events
  unfolding add_device
  add_device-events w d none = refl
  add_device-events w d (some g) = refl

  ensure_at-events :
      (w : World r) (d : String) (o : Option DeviceRow)
      → (ensure_at r w d o).db.hw_events ≡ w.db.hw_events
  unfolding ensure_at
  ensure_at-events w d none = add_device-events w d w.db.default_group
  ensure_at-events w d (some row) = refl

  ensure_device-events :
      (w : World r) (d : String) → (ensure_device r w d).db.hw_events ≡ w.db.hw_events
  unfolding ensure_device
  ensure_device-events w d = ensure_at-events w d (lookup d w.db.devices)

  -- the events after a message that the limit lets through
  store_event-events :
      (e : Env) (w : World r) (d : String) (msg : Json) (code : List ℕ)
      → (store_event r e (w, true) d msg code).db.hw_events
        ≡ (add_unique same_event (event_row e d msg code) w.db.hw_events).0
  unfolding store_event
  store_event-events e w d msg code =
      let row = event_row e d msg code in
      let w1 = ensure_device r w d in
      let rows = add_unique same_event row w1.db.hw_events in
      ap (λ db. db.hw_events)
        (dump_if-db e (rows.1 && e.auto_dump && is_one_of hw_auto_dump_codes code)
          (record w1 { db = record w1.db { hw_events = rows.0 } }) d)
      ∙ ap (λ old. (add_unique same_event row old).0) (ensure_device-events w d)

  -- the events after a message with a code
  after : Env → String → Json → Bool → Option (List ℕ) → List HwEventRow → List HwEventRow
  after e d msg ok none rows = rows
  after e d msg false (some code) rows = rows
  after e d msg true (some code) rows = (add_unique same_event (event_row e d msg code) rows).0

  store_checked-events :
      (e : Env) (w : World r) (ok : Bool) (d : String) (msg : Json) (code : List ℕ)
      → (store_event r e (w, ok) d msg code).db.hw_events
        ≡ after e d msg ok (some code) w.db.hw_events
  unfolding store_event after
  store_checked-events e w false d msg code = refl
  store_checked-events e w true d msg code = store_event-events e w d msg code

  let_through : World r → String → Bool
  let_through w d = (allow_in r w (event_limit d) 60 600).1

  hw_event-events :
      (e : Env) (w : World r) (d : String) (msg : Json) (o : Option (List ℕ))
      → (hw_event r e w d msg o).db.hw_events ≡ after e d msg (let_through w d) o w.db.hw_events
  unfolding hw_event after let_through
  hw_event-events e w d msg none = refl
  hw_event-events e w d msg (some code) =
      store_checked-events e (allow_in r w (event_limit d) 60 600).0
        (allow_in r w (event_limit d) 60 600).1 d msg code

  on_event-events :
      (e : Env) (w : World r) (d : String) (msg : Json)
      → is_flap (field "code" msg) ≡ false
      → (on_event r e w d msg).db.hw_events
        ≡ after e d msg (let_through w d) (hw_event_code (field "code" msg)) w.db.hw_events
  unfolding on_event
  on_event-events e w d msg h = rw h (hw_event-events e w d msg (hw_event_code (field "code" msg)))

  after_twice :
      (e f : Env) (d : String) (msg : Json) (ok : Bool) (o : Option (List ℕ))
      (rows : List HwEventRow)
      → sane_ts f (field "ts" msg) ≡ sane_ts e (field "ts" msg)
      → after f d msg ok o (after e d msg true o rows) ≡ after e d msg true o rows
  unfolding after
  after_twice e f d msg ok none rows h = refl
  after_twice e f d msg false (some code) rows h = refl
  after_twice e f d msg true (some code) rows h =
      let row = event_row e d msg code in
      let same : event_row f d msg code ≡ row = ap (λ t. record row { ts = num t }) h in
      ap (λ x. (add_unique same_event x (add_unique same_event row rows).0).0) same
      ∙ ap (λ x. x.0) (add_unique_twice same_event row rows (event_row_refl e d msg code))

  -- A hardware event that comes again, once one was let through, adds no row, whatever the limit says of
  -- the second one: where both are given the same time.
  pub on_event_twice :
      (e f : Env) (w : World r) (d : String) (msg : Json)
      → is_flap (field "code" msg) ≡ false
      → (allow_in r w (event_limit d) 60 600).1 ≡ true
      → sane_ts f (field "ts" msg) ≡ sane_ts e (field "ts" msg)
      → (on_event r f (on_event r e w d msg) d msg).db.hw_events
        ≡ (on_event r e w d msg).db.hw_events
  unfolding let_through
  on_event_twice e f w d msg h ok same =
      let code = hw_event_code (field "code" msg) in
      let w1 = on_event r e w d msg in
      let first = on_event-events e w d msg h ∙ ap (λ b. after e d msg b code w.db.hw_events) ok in
      on_event-events f w1 d msg h
      ∙ ap (after f d msg (let_through w1 d) code) first
      ∙ after_twice e f d msg (let_through w1 d) code w.db.hw_events same
      ∙ sym first

  -- after a dump was asked for, none is until the key expires
  request_dump-sent :
      (e : Env) (w : World r) (d v : String) (n : ℕ)
      → r.get w.store (Keys.hw_auto_dump d) ≡ some v
      → (request_dump r e w d n).sent ≡ w.sent
  unfolding request_dump
  request_dump-sent e w d v n there =
      rw (r.set_nx_taken w.store (Keys.hw_auto_dump d) "1" v 600 there) refl

  -- the cooldown of a device
  abbrev pub IsCool : World r → String → String → Type 0
  IsCool w d v = r.get w.store (Keys.hw_auto_dump d) ≡ some v

  allow-IsCool :
      (w : World r) (key : String) (max sec : ℕ) (d v : String)
      → IsCool w d v
      → IsCool (allow_in r w key max sec).0 d v
  unfolding allow
  allow-IsCool w key max sec d v c =
      let i = r.get-incr w.store key (Keys.hw_auto_dump d) in
      let t = r.get-expire (r.incr w.store key).0 key (Keys.hw_auto_dump d) sec in
      ground (arith, i, t, c)

  -- a step that keeps the cooldown and asks for no dump
  Silent : World r → World r → String → String → Type 0
  Silent a b d v = IsCool b d v × (b.sent ≡ a.sent)

  add_device-Silent :
      (w : World r) (a : String) (g : Option ℕ) (d v : String)
      → IsCool w d v
      → Silent w (add_device r w a g) d v
  unfolding add_device Silent
  add_device-Silent w a none d v c = (c, refl)
  add_device-Silent w a (some g) d v c = (
    r.get-del_ne w.store (Keys.device_caps a) (Keys.hw_auto_dump d) (λ same.
          ground (arith, caps_apart a d, eq_iff (Keys.device_caps a) (Keys.hw_auto_dump d), same))
        ∙ c,
    refl,
  )

  ensure_at-Silent :
      (w : World r) (a : String) (o : Option DeviceRow) (d v : String)
      → IsCool w d v
      → Silent w (ensure_at r w a o) d v
  unfolding ensure_at Silent
  ensure_at-Silent w a none d v c = add_device-Silent w a w.db.default_group d v c
  ensure_at-Silent w a (some row) d v c = (c, refl)

  dump_if-sent :
      (e : Env) (b : Bool) (w : World r) (d v : String)
      → IsCool w d v
      → (dump_if r e b w d).sent ≡ w.sent
  unfolding dump_if
  dump_if-sent e false w d v c = refl
  dump_if-sent e true w d v c = request_dump-sent e w d v 100 c

  store_flap-sent :
      (e : Env) (w : World r) (ok : Bool) (d v : String) (msg : Json)
      → IsCool w d v
      → (store_flap r e (w, ok) d msg).sent ≡ w.sent
  unfolding store_flap ensure_device Silent
  store_flap-sent e w false d v msg c = refl
  store_flap-sent e w true d v msg c =
      let (cool, same) = ensure_at-Silent w d (lookup d w.db.devices) d v c in
      dump_if-sent e e.auto_dump _ d v cool ∙ same

  store_event-sent :
      (e : Env) (w : World r) (ok : Bool) (d v : String) (msg : Json) (code : List ℕ)
      → IsCool w d v
      → (store_event r e (w, ok) d msg code).sent ≡ w.sent
  unfolding store_event ensure_device Silent
  store_event-sent e w false d v msg code c = refl
  store_event-sent e w true d v msg code c =
      let (cool, same) = ensure_at-Silent w d (lookup d w.db.devices) d v c in
      dump_if-sent e _ _ d v cool ∙ same

  hw_event-sent :
      (e : Env) (w : World r) (d v : String) (msg : Json) (o : Option (List ℕ))
      → IsCool w d v
      → (hw_event r e w d msg o).sent ≡ w.sent
  unfolding hw_event
  hw_event-sent e w d v msg none c = refl
  hw_event-sent e w d v msg (some code) c =
      let limited = allow_in r w (event_limit d) 60 600 in
      store_event-sent e limited.0 limited.1 d v msg code
        (allow-IsCool w (event_limit d) 60 600 d v c)

  -- While the cooldown of a device lasts, no event of it has a dump asked for.
  pub on_event-sent :
      (e : Env) (w : World r) (d v : String) (msg : Json)
      → IsCool w d v
      → (on_event r e w d msg).sent ≡ w.sent
  unfolding on_event
  on_event-sent e w d v msg c =
      let limited = allow_in r w (event_limit d) 60 600 in
      let kept = allow-IsCool w (event_limit d) 60 600 d v c in
      elim (Bool-cases (is_flap (field "code" msg))) [
        | inl b ↦ rw b (store_flap-sent e limited.0 limited.1 d v msg kept)
        | inr b ↦ rw b (hw_event-sent e w d v msg (hw_event_code (field "code" msg)) c)
      ]
