-- ===== src/Ingest/Events.antt =====
-- apps/rc-ingest/src/ingest.service.ts: `onSys`, `onEvent` and `requestDump`, and the codes of
-- packages/shared/src/hw.ts.
pub mod Replay
use ukpc_remote_control.Prelude.{
  ℕ, suc, String, Bool, true, false, not, ◌&&◌, ◌||◌, ◌==◌, ◌+s◌, Option, none, some, List, [], ◌∷◌,
  ◌++◌, take, any, codes, num, lookup, is_some, if◌then◌else◌,
}
use ukpc_remote_control.Shared.Keys
use ukpc_remote_control.Shared.Json.{Json, text, field, clean}
use ukpc_remote_control.Shared.Topics.{SysClient, parse_sys_client_topic}
use ukpc_remote_control.Shared.Conn.{
  ConnKind, connected, disconnected, BrokerConnEvent, normalize_broker_event,
}
use ukpc_remote_control.Db.{
  units_eq, HwEventRow, ConnRow, broker, agent, same_event, same_conn, add_unique,
}
use ukpc_remote_control.Api.Redis.{Redis}
use ukpc_remote_control.Ingest.{Env, World, DumpCommand, sane_ts, ensure_device}
use ukpc_remote_control.Ingest.Limits.{allow_in}

abbrev pub hw_event_codes : List String
hw_event_codes =
    "HW_THERMAL" ∷ "HW_LOW_MEM" ∷ "HW_DISK_LOW" ∷ "HW_PANEL_OFF" ∷ "HW_TOUCH_GONE" ∷ "HW_MAIN_LAG"
    ∷ "HW_GPU_PEGGED" ∷ "HW_CPU_PEGGED" ∷ "HW_ANR_DIALOG" ∷ "HW_FD_LEAK" ∷ "HW_THREAD_LEAK" ∷ []

abbrev pub hw_auto_dump_codes : List String
hw_auto_dump_codes = "HW_PANEL_OFF" ∷ "HW_TOUCH_GONE" ∷ "HW_MAIN_LAG" ∷ "HW_ANR_DIALOG" ∷ []

-- `names.includes(code)`, the code being a text in code units
abbrev pub is_one_of : List String → List ℕ → Bool
is_one_of names code = any (λ name. units_eq (codes name) code) names

-- `typeof v === 'string' ? v : null`
abbrev pub text_in : Option Json → Option (List ℕ)
text_in (some (text s)) = some s
text_in _ = none

-- `isHwEventCode`: the code, where it is one
unfoldable pub hw_event_code : Option Json → Option (List ℕ)
hw_event_code (some (text s)) = if is_one_of hw_event_codes s then some s else none
hw_event_code _ = none

abbrev pub map_text : (List ℕ → List ℕ) → Option (List ℕ) → Option (List ℕ)
map_text f none = none
map_text f (some s) = some (f s)

-- `msg.code === 'MQTT_FLAP'`
abbrev pub is_flap : Option Json → Bool
is_flap (some (text s)) = units_eq (codes "MQTT_FLAP") s
is_flap _ = false

abbrev pub kind_text : ConnKind → String
kind_text connected = "connected"
kind_text disconnected = "disconnected"

abbrev pub broker_row : String → BrokerConnEvent → ConnRow
broker_row d e = record {
  device_id = d;
  source = broker;
  event = codes (kind_text e.kind);
  reason = e.reason;
  connected_at = e.connected_at;
  at = e.at;
  ip = e.ip;
  keepalive = e.keepalive;
  detail = none;
}

abbrev pub flap_row : Env → String → Json → ConnRow
flap_row e d msg = record {
  device_id = d;
  source = agent;
  event = codes "flap";
  reason = map_text (clean 500) (text_in (field "msg" msg));
  connected_at = none;
  at = num (sane_ts e (field "ts" msg));
  ip = none;
  keepalive = none;
  detail = none;
}

abbrev pub event_row : Env → String → Json → List ℕ → HwEventRow
event_row e d msg code = record {
  device_id = d;
  code = code;
  msg = map_text (take 500) (text_in (field "msg" msg));
  ts = num (sane_ts e (field "ts" msg));
}

abbrev pub event_limit : String → String
event_limit d = "hw:rl:ev:" +s d

module _ (r : Redis) where
  abbrev pub with_conn : World r → List ConnRow → World r
  with_conn w rows = record w { db = record w.db { conn_events = rows } }

  abbrev pub with_events : World r → List HwEventRow → World r
  with_events w rows = record w { db = record w.db { hw_events = rows } }

  -- a publication that fails gives the cooldown back
  publish_dump : Env → World r → String → ℕ → World r
  publish_dump e w d n =
      if e.publish_fails
      then record w { store = r.del w.store (Keys.hw_auto_dump d) }
      else record w {
        sent = w.sent ++ (record { device_id = d; n = n; nonce = "auto-" +s e.uuid }) ∷ [];
      }

  unfoldable pub request_dump : Env → World r → String → ℕ → World r
  unfolding publish_dump
  request_dump e w d n =
      let (s, first) = r.set_nx w.store (Keys.hw_auto_dump d) "1" 600 in
      if first then publish_dump e (record w { store = s }) d n else record w { store = s }

  unfoldable pub dump_if : Env → Bool → World r → String → World r
  dump_if e b w d = if b then request_dump e w d 100 else w

  store_broker : World r × Bool → String → BrokerConnEvent → World r
  store_broker (w, false) d event = w
  store_broker (w, true) d event =
      if is_some (lookup d w.db.devices)
      then with_conn w (add_unique same_conn (broker_row d event) w.db.conn_events).0
      else w

  sys_event : World r → SysClient → Option BrokerConnEvent → World r
  unfolding store_broker
  sys_event w t none = w
  sys_event w t (some event) =
      store_broker (allow_in r w ("conn:rl:" +s t.client_id) 600 3600) t.client_id event

  sys_body : World r → Option SysClient → Option Json → World r
  unfolding sys_event
  sys_body w (some t) (some body) = sys_event w t (normalize_broker_event t.kind body)
  sys_body w _ _ = w

  -- `body` is what `JSON.parse` gives, `none` where it throws
  unfoldable pub on_sys : World r → String → Option Json → World r
  unfolding sys_body
  on_sys w topic body = sys_body w (parse_sys_client_topic topic) body

  unfoldable pub store_flap : Env → World r × Bool → String → Json → World r
  unfolding dump_if
  store_flap e (w, false) d msg = w
  store_flap e (w, true) d msg =
      let w1 = ensure_device r w d in
      let w2 = with_conn w1 (add_unique same_conn (flap_row e d msg) w1.db.conn_events).0 in
      dump_if e e.auto_dump w2 d

  unfoldable pub store_event : Env → World r × Bool → String → Json → List ℕ → World r
  unfolding dump_if
  store_event e (w, false) d msg code = w
  store_event e (w, true) d msg code =
      let w1 = ensure_device r w d in
      let (rows, is_new) = add_unique same_event (event_row e d msg code) w1.db.hw_events in
      let w2 = with_events w1 rows in
      dump_if e (is_new && e.auto_dump && is_one_of hw_auto_dump_codes code) w2 d

  unfoldable pub hw_event : Env → World r → String → Json → Option (List ℕ) → World r
  unfolding store_event
  hw_event e w d msg none = w
  hw_event e w d msg (some code) = store_event e (allow_in r w (event_limit d) 60 600) d msg code

  unfoldable pub on_event : Env → World r → String → Json → World r
  unfolding store_flap hw_event
  on_event e w d msg =
      if is_flap (field "code" msg)
      then store_flap e (allow_in r w (event_limit d) 60 600) d msg
      else hw_event e w d msg (hw_event_code (field "code" msg))
