-- ===== src/Ingest/Dumps.antt =====
-- apps/rc-ingest/src/ingest.service.ts: `onHwDump` and `storeAgentConn`.
pub mod Answers
pub mod Once
use ukpc_remote_control.Prelude.{
  ℕ, suc, String, Bool, true, false, not, ◌&&◌, ◌||◌, ◌==◌, ◌+s◌, ◌-◌, ◌*◌, Option, none, some,
  List, [], ◌∷◌, ◌++◌, drop, length, is_empty, map, filter, codes, leb, nat_eq, Number, finite, pos,
  num, if◌then◌else◌,
}
use ukpc_remote_control.Shared.Keys
use ukpc_remote_control.Shared.Json.{Json, text, array, Elems, no_elems, elem_then, field}
use ukpc_remote_control.Shared.Hw.{HwSample, normalize_hw_sample}
use ukpc_remote_control.Shared.Conn.{AgentConnEntry, normalize_agent_conn}
use ukpc_remote_control.Db.{SampleRow, dump, ConnRow, agent, same_conn, add_all}
use ukpc_remote_control.Api.Redis.{Redis}
use ukpc_remote_control.Ingest.{Env, World, is_near, day_ms, ensure_device, touch}
use ukpc_remote_control.Ingest.Limits.{allow_in}
use ukpc_remote_control.Ingest.Live.{same_sample}

abbrev pub max_dump_samples : ℕ
max_dump_samples = 200

abbrev pub elems_in : Elems → List Json
elems_in no_elems = []
elems_in (elem_then v rest) = v ∷ elems_in rest

-- `xs.slice(-n)`
abbrev pub last_n {ℓ} : {A : Type ℓ} → ℕ → List A → List A
last_n n xs = drop (length xs - n) xs

abbrev pub keep_if {ℓ} : {B : Type ℓ} → (B → Bool) → Option B → List B → List B
keep_if p none rest = rest
keep_if p (some y) rest = if p y then y ∷ rest else rest

-- `.map(f).filter(x => x !== null && p(x))`
unfoldable pub collect {ℓ κ} :
    {A : Type ℓ} {B : Type κ} → (A → Option B) → (B → Bool) → List A → List B
collect f p [] = []
collect f p (x ∷ xs) = keep_if p (f x) (collect f p xs)

-- `Math.abs(ts - now) < span`
abbrev pub near_now : ℕ → ℕ → Number → Bool
near_now span now (finite (pos n)) = is_near span n now
near_now span now _ = false

unfoldable pub dump_samples : ℕ → List Json → List HwSample
unfolding collect
dump_samples now raw =
    collect normalize_hw_sample (λ s. near_now day_ms now s.ts) (last_n max_dump_samples raw)

abbrev pub dump_row : String → HwSample → SampleRow
dump_row d s = record { device_id = d; source = dump; sample_ts = s.ts; body = s }

abbrev pub agent_row : String → AgentConnEntry → ConnRow
agent_row d entry = record {
  device_id = d;
  source = agent;
  event = entry.ev;
  reason = entry.reason;
  connected_at = none;
  at = entry.ts;
  ip = none;
  keepalive = none;
  detail = some entry.detail;
}

-- a text of at most 64 code units, else ''
abbrev pub nonce_of : Option Json → List ℕ
nonce_of (some (text s)) = if leb (length s) 64 then s else []
nonce_of _ = []

-- `nonce.startsWith('auto-')`
abbrev pub starts_with : List ℕ → List ℕ → Bool
starts_with [] s = true
starts_with (x ∷ xs) [] = false
starts_with (x ∷ xs) (y ∷ ys) = nat_eq x y && starts_with xs ys

abbrev pub may_wait : List ℕ → Bool
may_wait nonce = not (is_empty nonce) && not (starts_with (codes "auto-") nonce)

-- what the API is told of a dump: `JSON.stringify({ count, inserted })`
module _ (r : Redis) (reply : ℕ → ℕ → String) where
  -- whether the API waits for the nonce, whose request is used up
  unfoldable pub take_request : r.Store → Env → List ℕ → r.Store × Bool
  take_request s e nonce =
      let key = Keys.hw_dump_req (e.text_of nonce) in
      if may_wait nonce then (r.del s key, r.exists s key) else (s, false)

  unfoldable pub store_agent_conn : World r → String → List Json → ℕ → World r
  store_agent_conn w d raw now =
      let rows =
        collect normalize_agent_conn (λ x. near_now (day_ms * 7) now x.ts) (last_n 100 raw) in
      record w {
        db = record w.db {
          conn_events = (add_all same_conn (map (agent_row d) rows) w.db.conn_events).0;
        };
      }

  unfoldable pub conn_of : World r → String → Option Json → ℕ → World r
  unfolding store_agent_conn
  conn_of w d (some (array elems)) now = store_agent_conn w d (elems_in elems) now
  conn_of w d _ now = w

  -- the `try` block: the state, `count` and `inserted`
  unfoldable pub store_dump :
      Env → World r × Bool → String → Option Json → List Json → World r × (ℕ × ℕ)
  unfolding conn_of
  store_dump e (w, false) d conn raw = (w, (0, 0))
  store_dump e (w, true) d conn raw =
      let w1 = ensure_device r w d in
      let samples = dump_samples e.now raw in
      let (rows, n) = add_all same_sample (map (dump_row d) samples) w1.db.hw_samples in
      let w2 = record w1 { db = record w1.db { hw_samples = rows } } in
      (touch r e (conn_of w2 d conn e.now) d, (length samples, n))

  -- the `finally` block
  unfoldable pub answer : Env → List ℕ → Bool → World r × (ℕ × ℕ) → World r
  answer e nonce waited (w, (count, inserted)) =
      let key = Keys.hw_dump (e.text_of nonce) in
      if waited
      then record w { store = r.expire (r.lpush w.store key (reply count inserted)) key 30 }
      else w

  unfoldable pub on_hw_dump : Env → World r → String → Json → List Json → World r
  unfolding take_request store_dump answer
  on_hw_dump e w d msg raw =
      let nonce = nonce_of (field "nonce" msg) in
      let (s, waited) = take_request w.store e nonce in
      answer e nonce waited (
        store_dump e (allow_in r (record w { store = s }) ("hw:rl:dump:" +s d) 12 60) d
          (field "conn" msg) raw)
