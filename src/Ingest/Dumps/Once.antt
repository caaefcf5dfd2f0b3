-- ===== src/Ingest/Dumps/Once.antt =====
-- apps/rc-ingest/src/ingest.service.ts: how often `onHwDump` answers.
use package.text.Mathlib.TextLemmas.{append_assoc}
use ukpc_remote_control.Prelude.{
  ℕ, ◌≡◌, refl, ap, ◌∙◌, String, Bool, true, false, ◌&&◌, eq_iff, eq_refl, Bool-cases, inl, inr,
  ◌==◌, ◌+s◌, Option, none, some, List, ◌∷◌, arith, differ, differ_after, lookup, if◌then◌else◌,
}
use ukpc_remote_control.Shared.Keys
use ukpc_remote_control.Shared.Json.{Json, text, field}
use ukpc_remote_control.Db.{DeviceRow}
use ukpc_remote_control.Api.Redis.{Redis}
use ukpc_remote_control.Ingest.{Env, World, add_device, ensure_at, ensure_device, touch}
use ukpc_remote_control.Ingest.Limits.{allow, allow_in}
use ukpc_remote_control.Ingest.Dumps.Answers.{
  request_apart, answers, conn-store, stored, one_message-answers,
}
use ukpc_remote_control.Ingest.Dumps.{
  nonce_of, may_wait, take_request, store_dump, answer, on_hw_dump,
}

limit_apart : (d x : String) → (("hw:rl:dump:" +s d) == Keys.hw_dump_req x) ≡ false
limit_apart d x =
    let apart =
      differ_after "hw:" ("rl:dump:" +s d) ("dumpreq:" +s x)
        (differ "r" "d" "l:dump:" "umpreq:" d x refl) in
    ground (arith, append_assoc "hw:" "rl:dump:" d, append_assoc "hw:" "dumpreq:" x, apart)

module _ (r : Redis) (reply : ℕ → ℕ → String) (e : Env) where
  -- what is there under the key of a request
  abbrev asked : r.Store → List ℕ → Bool
  asked s nonce = r.exists s (Keys.hw_dump_req (e.text_of nonce))

  add_device-asked :
      (w : World r) (d : String) (group : Option ℕ) (nonce : List ℕ)
      → asked w.store nonce ≡ false
      → asked (add_device r w d group).store nonce ≡ false
  unfolding add_device
  add_device-asked w d none nonce h = h
  add_device-asked w d (some g) nonce h =
      let t = r.exists-del w.store (Keys.device_caps d) (Keys.hw_dump_req (e.text_of nonce)) in
      ground (arith, t, h)

  ensure_at-asked :
      (w : World r) (d : String) (o : Option DeviceRow) (nonce : List ℕ)
      → asked w.store nonce ≡ false
      → asked (ensure_at r w d o).store nonce ≡ false
  unfolding ensure_at
  ensure_at-asked w d none nonce h = add_device-asked w d w.db.default_group nonce h
  ensure_at-asked w d (some row) nonce h = h

  store_dump-asked :
      (w : World r) (ok : Bool) (d : String) (conn : Option Json) (raw : List Json) (nonce : List ℕ)
      → asked w.store nonce ≡ false
      → asked (store_dump r reply e (w, ok) d conn raw).0.store nonce ≡ false
  unfolding store_dump touch ensure_device
  store_dump-asked w false d conn raw nonce h = h
  store_dump-asked w true d conn raw nonce h =
      ap (λ s. asked s nonce) (conn-store r reply e _ d conn e.now)
      ∙ ensure_at-asked w d (lookup d w.db.devices) nonce h

  allow-asked :
      (w : World r) (d : String) (max sec : ℕ) (nonce : List ℕ)
      → asked w.store nonce ≡ false
      → asked (allow_in r w ("hw:rl:dump:" +s d) max sec).0.store nonce ≡ false
  unfolding allow
  allow-asked w d max sec nonce h =
      let key = "hw:rl:dump:" +s d in
      let req = Keys.hw_dump_req (e.text_of nonce) in
      let i = r.exists-incr w.store key req in
      let t = r.exists-expire (r.incr w.store key).0 key req sec in
      ground (arith, h, i, t, limit_apart d (e.text_of nonce))

  answer-asked :
      (nonce : List ℕ) (waited : Bool) (out : World r × (ℕ × ℕ))
      → asked out.0.store nonce ≡ false
      → asked (answer r reply e nonce waited out).store nonce ≡ false
  unfolding answer
  answer-asked nonce false (w, (count, inserted)) h = h
  answer-asked nonce true (w, (count, inserted)) h =
      let key = Keys.hw_dump (e.text_of nonce) in
      let req = Keys.hw_dump_req (e.text_of nonce) in
      let value = reply count inserted in
      let t = r.exists-expire (r.lpush w.store key value) key req 30 in
      let p = r.exists-lpush w.store key req value in
      ground (
        arith,
        h,
        t,
        p,
        request_apart (e.text_of nonce) (e.text_of nonce),
        eq_iff key req,
        eq_iff req key,
      )

  take_request-asked :
      (s : r.Store) (nonce : List ℕ)
      → may_wait nonce ≡ true
      → asked (take_request r reply s e nonce).0 nonce ≡ false
  unfolding take_request
  take_request-asked s nonce h =
      let req = Keys.hw_dump_req (e.text_of nonce) in
      let t = r.exists-del s req req in ground (arith, h, t, eq_refl req)

  -- a message uses the request of its nonce up
  on_hw_dump-asked :
      (w : World r) (d : String) (msg : Json) (raw : List Json)
      → may_wait (nonce_of (field "nonce" msg)) ≡ true
      → asked (on_hw_dump r reply e w d msg raw).store (nonce_of (field "nonce" msg)) ≡ false
  unfolding on_hw_dump
  on_hw_dump-asked w d msg raw h =
      let nonce = nonce_of (field "nonce" msg) in
      let taken = take_request r reply w.store e nonce in
      let w1 = record w { store = taken.0 } in
      let limited = allow_in r w1 ("hw:rl:dump:" +s d) 12 60 in
      answer-asked nonce taken.1 (stored r reply e w d msg raw) (
        store_dump-asked limited.0 limited.1 d (field "conn" msg) raw nonce
          (allow-asked w1 d 12 60 nonce (take_request-asked w.store nonce h)))

module _ (r : Redis) (reply : ℕ → ℕ → String) where
  repeated-answers :
      (e : Env) (later : ℕ) (w : World r) (d : String) (msg : Json) (raw : List Json) (x : String)
      → let again = record e { now = later } in
        let once = on_hw_dump r reply e w d msg raw in
        answers r reply again (on_hw_dump r reply again once d msg raw) x
        ≡ answers r reply again once x
  repeated-answers e later w d msg raw x =
      let nonce = nonce_of (field "nonce" msg) in
      let again = record e { now = later } in
      let once = on_hw_dump r reply e w d msg raw in
      let req = Keys.hw_dump_req (e.text_of nonce) in
      let none_left : (may_wait nonce && r.exists once.store req) ≡ false =
        elim (Bool-cases (may_wait nonce)) [
          | inl b ↦ let used = on_hw_dump-asked r reply e w d msg raw b in ground (arith, used)
          | inr b ↦ ground (arith, b)
        ] in
      one_message-answers r reply again once d msg raw x ∙ rw none_left refl

  -- A dump is answered exactly if the API waits for its nonce, also where the device sends too often, with
  -- the counts of what was stored, and the lists of other nonces stay as they are. It is answered once:
  -- the same dump, delivered again at whatever time, adds no answer to any list.
  pub on_hw_dump-answers :
      (e : Env) (later : ℕ) (w : World r) (d : String) (msg : Json) (raw : List Json) (x : String)
      → let nonce = nonce_of (field "nonce" msg) in
        let counts = (stored r reply e w d msg raw).1 in
        let once = on_hw_dump r reply e w d msg raw in
        let again = record e { now = later } in
        (answers r reply e once x ≡ (
          if (may_wait nonce && r.exists w.store (Keys.hw_dump_req (e.text_of nonce)))
            && Keys.hw_dump (e.text_of nonce) == Keys.hw_dump x
          then reply counts.0 counts.1 ∷ answers r reply e w x
          else answers r reply e w x))
        × (answers r reply again (on_hw_dump r reply again once d msg raw) x
            ≡ answers r reply e once x)
  on_hw_dump-answers e later w d msg raw x =
      (one_message-answers r reply e w d msg raw x, repeated-answers e later w d msg raw x)
