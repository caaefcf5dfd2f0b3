-- ===== src/Ingest/Dumps/Answers.antt =====
-- apps/rc-ingest/src/ingest.service.ts: whom `onHwDump` answers.
use package.text.Mathlib.TextLemmas.{append_assoc}
use ukpc_remote_control.Prelude.{
  ℕ, suc, ◌≡◌, ◌≤◌, ◌-◌, refl, ap, ◌∙◌, String, Bool, true, false, ◌&&◌, ◌==◌, ◌+s◌, Option, none,
  some, List, [], ◌∷◌, arith, length, length-drop, length-map, map, differ, differ_after, lookup,
  if◌then◌else◌,
}
use ukpc_remote_control.Shared.Keys
use ukpc_remote_control.Shared.Json.{Json, null, bool, number, text, array, object, field}
use ukpc_remote_control.Db.{DeviceRow, add_unique, add_all}
use ukpc_remote_control.Api.Redis.{Redis}
use ukpc_remote_control.Ingest.{Env, World, day_ms, add_device, ensure_at, ensure_device, touch}
use ukpc_remote_control.Shared.Hw.{normalize_hw_sample}
use ukpc_remote_control.Ingest.Live.{same_sample}
use ukpc_remote_control.Ingest.Limits.{allow, allow_in}
use ukpc_remote_control.Ingest.Dumps.{
  last_n, near_now, dump_row, keep_if, collect, max_dump_samples, dump_samples, nonce_of, may_wait,
  take_request, store_agent_conn, conn_of, store_dump, answer, on_hw_dump,
}

pub caps_apart : (d x : String) → (Keys.device_caps d == Keys.hw_dump x) ≡ false
caps_apart d x = differ "d" "h" "evice:caps:" "w:dump:" d x refl

pub request_apart : (a x : String) → (Keys.hw_dump_req a == Keys.hw_dump x) ≡ false
request_apart a x =
    let later =
      differ_after "hw:dump" ("req:" +s a) (":" +s x) (differ "r" ":" "eq:" "" a x refl) in
    ground (arith, append_assoc "hw:dump" "req:" a, append_assoc "hw:dump" ":" x, later)

module _ (r : Redis) (reply : ℕ → ℕ → String) (e : Env) where
  -- the answers under the key of a dump
  abbrev pub answers : World r → String → List String
  answers w x = r.items w.store (Keys.hw_dump x)

  allow-answers :
      (w : World r) (key : String) (max sec : ℕ) (x : String)
      → answers (allow_in r w key max sec).0 x ≡ answers w x
  unfolding allow
  allow-answers w key max sec x =
      let i = r.items-incr w.store key (Keys.hw_dump x) in
      let t = r.items-expire (r.incr w.store key).0 key (Keys.hw_dump x) sec in ground (arith, i, t)

  add_device-answers :
      (w : World r) (d : String) (group : Option ℕ) (x : String)
      → answers (add_device r w d group) x ≡ answers w x
  unfolding add_device
  add_device-answers w d none x = refl
  add_device-answers w d (some g) x =
      r.items-del w.store (Keys.device_caps d) (Keys.hw_dump x) ∙ rw (caps_apart d x) refl

  ensure_at-answers :
      (w : World r) (d : String) (o : Option DeviceRow) (x : String)
      → answers (ensure_at r w d o) x ≡ answers w x
  unfolding ensure_at
  ensure_at-answers w d none x = add_device-answers w d w.db.default_group x
  ensure_at-answers w d (some row) x = refl

  pub conn-store :
      (w : World r) (d : String) (o : Option Json) (now : ℕ)
      → (conn_of r reply w d o now).store ≡ w.store
  unfolding conn_of store_agent_conn
  conn-store w d none now = refl
  conn-store w d (some null) now = refl
  conn-store w d (some (bool b)) now = refl
  conn-store w d (some (number x)) now = refl
  conn-store w d (some (text s)) now = refl
  conn-store w d (some (array elems)) now = refl
  conn-store w d (some (object _)) now = refl

  store_dump-answers :
      (w : World r) (ok : Bool) (d : String) (conn : Option Json) (raw : List Json) (x : String)
      → answers (store_dump r reply e (w, ok) d conn raw).0 x ≡ answers w x
  unfolding store_dump touch ensure_device
  store_dump-answers w false d conn raw x = refl
  store_dump-answers w true d conn raw x =
      ap (λ s. r.items s (Keys.hw_dump x)) (conn-store _ d conn e.now)
      ∙ ensure_at-answers w d (lookup d w.db.devices) x

  take_request-answers :
      (s : r.Store) (nonce : List ℕ) (x : String)
      → r.items (take_request r reply s e nonce).0 (Keys.hw_dump x) ≡ r.items s (Keys.hw_dump x)
  unfolding take_request
  take_request-answers s nonce x =
      let t = r.items-del s (Keys.hw_dump_req (e.text_of nonce)) (Keys.hw_dump x) in
      ground (arith, t, request_apart (e.text_of nonce) x)

  -- the dump of a device, before the answer
  abbrev pub stored : World r → String → Json → List Json → World r × (ℕ × ℕ)
  stored w d msg raw =
      let s = (take_request r reply w.store e (nonce_of (field "nonce" msg))).0 in
      store_dump r reply e (allow_in r (record w { store = s }) ("hw:rl:dump:" +s d) 12 60) d
        (field "conn" msg) raw

  stored-answers :
      (w : World r) (d : String) (msg : Json) (raw : List Json) (x : String)
      → answers (stored w d msg raw).0 x ≡ answers w x
  stored-answers w d msg raw x =
      let s = (take_request r reply w.store e (nonce_of (field "nonce" msg))).0 in
      let w1 = record w { store = s } in
      let limit = "hw:rl:dump:" +s d in
      store_dump-answers (allow_in r w1 limit 12 60).0 (allow_in r w1 limit 12 60).1 d
        (field "conn" msg) raw x
      ∙ allow-answers w1 limit 12 60 x
      ∙ take_request-answers w.store (nonce_of (field "nonce" msg)) x

  answer-answers :
      (nonce : List ℕ) (waited : Bool) (out : World r × (ℕ × ℕ)) (x : String)
      → answers (answer r reply e nonce waited out) x ≡ (
          if waited && Keys.hw_dump (e.text_of nonce) == Keys.hw_dump x
          then reply out.1.0 out.1.1 ∷ answers out.0 x
          else answers out.0 x)
  unfolding answer
  answer-answers nonce false (w, (count, inserted)) x = refl
  answer-answers nonce true (w, (count, inserted)) x =
      let key = Keys.hw_dump (e.text_of nonce) in
      r.items-expire (r.lpush w.store key (reply count inserted)) key (Keys.hw_dump x) 30
      ∙ r.items-lpush w.store key (Keys.hw_dump x) (reply count inserted)

  waited_lem :
      (s : r.Store) (nonce : List ℕ)
      → (take_request r reply s e nonce).1
        ≡ (may_wait nonce && r.exists s (Keys.hw_dump_req (e.text_of nonce)))
  unfolding take_request
  waited_lem s nonce = ground arith

  -- what one message adds to the lists
  pub one_message-answers :
      (w : World r) (d : String) (msg : Json) (raw : List Json) (x : String)
      → let nonce = nonce_of (field "nonce" msg) in
        let counts = (stored w d msg raw).1 in
        answers (on_hw_dump r reply e w d msg raw) x ≡ (
          if (may_wait nonce && r.exists w.store (Keys.hw_dump_req (e.text_of nonce)))
            && Keys.hw_dump (e.text_of nonce) == Keys.hw_dump x
          then reply counts.0 counts.1 ∷ answers w x
          else answers w x)
  unfolding on_hw_dump
  one_message-answers w d msg raw x =
      let nonce = nonce_of (field "nonce" msg) in
      let waited = take_request r reply w.store e nonce in
      answer-answers nonce waited.1 (stored w d msg raw) x
      ∙ rw (waited_lem w.store nonce, stored-answers w d msg raw x) refl

  length-keep_if-le {ℓ} :
      {B : Type ℓ} (p : B → Bool) (o : Option B) (ys : List B)
      → length (keep_if p o ys) ≤ suc (length ys)
  length-keep_if-le p none ys = omega arith
  length-keep_if-le p (some y) ys = ground arith

  length-collect-le {ℓ κ} :
      {A : Type ℓ} {B : Type κ} (f : A → Option B) (p : B → Bool) (xs : List A)
      → length (collect f p xs) ≤ length xs
  unfolding collect
  length-collect-le f p [] = omega arith
  length-collect-le f p (x ∷ xs) =
      let ih = length-collect-le f p xs in
      omega (arith, ih, length-keep_if-le p (f x) (collect f p xs))

  add_all-le {ℓ} :
      {A : Type ℓ} (same : A → A → Bool) (more rows : List A)
      → (add_all same more rows).1 ≤ length more
  unfolding add_all
  add_all-le same [] rows = omega arith
  add_all-le same (row ∷ more) rows =
      let ih = add_all-le same more (add_unique same row rows).0 in ground (arith, ih)

  -- A dump stores at most 200 samples, and counts no more as new than it counts.
  pub store_dump_bounds :
      (checked : World r × Bool) (d : String) (conn : Option Json) (raw : List Json)
      → let counts = (store_dump r reply e checked d conn raw).1 in
        (counts.1 ≤ counts.0) × (counts.0 ≤ max_dump_samples)
  unfolding store_dump dump_samples
  store_dump_bounds (w, false) d conn raw = (omega arith, omega arith)
  store_dump_bounds (w, true) d conn raw =
      let samples = dump_samples e.now raw in
      (
        omega (
          arith,
          add_all-le same_sample (map (dump_row d) samples) (ensure_device r w d).db.hw_samples,
          length-map (dump_row d) samples,
        ),
        omega (
          arith,
          length-collect-le normalize_hw_sample (λ s. near_now day_ms e.now s.ts)
              (last_n max_dump_samples raw),
          length-drop (length raw - max_dump_samples) raw,
        ),
      )
