-- ===== src/Relay.antt =====
-- apps/rc-relay/src/relay.server.ts: the relay between the agent of a device and a viewer.
--
-- Objects that handlers share are on a heap, since a handler keeps its session after the map has
-- dropped it. A socket is a number; `is_open` is `readyState === OPEN`. What the relay sends, and its
-- commands to Redis and Postgres, are appended to `out`. Logging is left out.
pub mod Events
pub mod Forwarding
pub mod Joining
pub mod Serving
pub mod Closing
pub mod Invariant
use ukpc_remote_control.Prelude.{
  ℕ, suc, ◌+◌, push_if, String, Bool, true, false, ◌&&◌, ◌||◌, Option, none, some, List, [], ◌∷◌,
  ◌++◌, nat_eq, ltb, length, lookup, insert, remove, get_or, ◌==◌, ◌+s◌, if◌then◌else◌,
}
use ukpc_remote_control.Shared.Keys

abbrev pub idle_ms : ℕ
idle_ms = 600000

abbrev pub backpressure_bytes : ℕ
backpressure_bytes = 1000000

abbrev pub viewer_gone_ms : ℕ
viewer_gone_ms = 1500

pub record RelaySession : Type 0 where
  pub id : String
  pub device_id : String
  pub operator_id : ℕ
  pub agent : Option ℕ
  pub viewer : Option ℕ
  pub codec_config : Option (List ℕ)
  pub bytes_out : ℕ
  pub input_events : ℕ
  pub last_activity : ℕ
  pub viewer_gone_timer : Option ℕ

pub data Role : Type 0 where
  agent viewer : Role

-- the texts that the relay itself sends: `viewer.join` and `quality`
pub data Notice : Type 0 where
  viewer_join : Notice
  quality : (bitrate : ℕ) → Notice

pub data Effect : Type 0 where
  send : (ws : ℕ) (bytes : List ℕ) (binary : Bool) → Effect
  notify : (ws : ℕ) → Notice → Effect
  close : (ws : ℕ) → Effect
  refuse : (ws : ℕ) (why : String) → Effect  -- `ws.close(1008, why)`
  redis_set : (key value : String) (seconds : ℕ) → Effect
  redis_sadd : (key member : String) → Effect
  redis_del : List String → Effect
  mark_active : (sid : String) → Effect  -- UPDATE … SET state = 'active' WHERE state IN ('probing','starting')
  mark_closed : (sid reason : String) (bytes_out input_events : ℕ) → Effect  -- UPDATE … SET state = 'closed' …

pub record Relay : Type 0 where
  pub node : String
  pub heap : ℕ → RelaySession
  pub next : ℕ  -- the references below it are in use
  pub sessions : List (String × ℕ)
  pub is_open : ℕ → Bool
  pub attached : ℕ → Option (Role × ℕ)  -- the handlers registered on a socket, and their session
  pub pending : ℕ → Option ℕ  -- a timer that runs, and the session of its callback
  pub next_timer : ℕ
  pub out : List Effect

abbrev pub update {ℓ} : {A : Type ℓ} → (ℕ → A) → ℕ → A → ℕ → A
update f k v n = if nat_eq k n then v else f n

abbrev pub emit : Relay → Effect → Relay
emit s e = record s { out = s.out ++ e ∷ [] }

abbrev pub put : Relay → ℕ → RelaySession → Relay
put s r x = record s { heap = update s.heap r x }

-- `x?.readyState === WebSocket.OPEN`
abbrev pub opened : Relay → Option ℕ → Bool
opened s none = false
opened s (some ws) = s.is_open ws

-- packages/shared/src/relay-join.ts
abbrev pub should_send_viewer_join : Role → Bool → Bool
should_send_viewer_join peer other_open = other_open

abbrev pub emits : Relay → List Effect → Relay
emits s es = record s { out = s.out ++ es }

-- `if (x?.readyState === WebSocket.OPEN) x.send(bytes, { binary })`
abbrev pub delivery : Relay → Option ℕ → List ℕ → Bool → List Effect
delivery s none bytes binary = []
delivery s (some ws) bytes binary = if s.is_open ws then send ws bytes binary ∷ [] else []

-- `x?.send(notice)`
abbrev pub notice_to : Option ℕ → Notice → List Effect
notice_to none notice = []
notice_to (some ws) notice = notify ws notice ∷ []

-- `clearTimeout(s.viewerGoneTimer); s.viewerGoneTimer = undefined`
unfoldable pub clear_timer : Relay → ℕ → Option ℕ → Relay
clear_timer s r none = s
clear_timer s r (some t) =
    put (record s { pending = update s.pending t none }) r
      (record (s.heap r) { viewer_gone_timer = none })

unfoldable pub mark_active_if_joined : Relay → ℕ → Relay
mark_active_if_joined s r =
    emits s (
      push_if (opened s (s.heap r).agent && opened s (s.heap r).viewer) (mark_active (s.heap r).id))

-- `ws?.close()`: the socket is no longer open at once, its 'close' event comes later
unfoldable pub close_socket : Relay → Option ℕ → Relay
close_socket s none = s
close_socket s (some ws) = record (emit s (close ws)) { is_open = update s.is_open ws false }

unfoldable pub keys_of : RelaySession → List String
keys_of x =
    if x.device_id == ""
    then Keys.session x.id ∷ []
    else Keys.session x.id ∷ Keys.active_session x.device_id ∷ []

unfoldable pub close_session : Relay → ℕ → String → Relay
unfolding clear_timer close_socket keys_of
close_session s r reason =
    let s1 = clear_timer s r (s.heap r).viewer_gone_timer in
    let x = s1.heap r in
    let s2 = close_socket (close_socket s1 x.agent) x.viewer in
    let s3 = record s2 { sessions = remove x.id s2.sessions } in
    emit (emit s3 (redis_del (keys_of x))) (mark_closed x.id reason x.bytes_out x.input_events)

-- `getOrCreate`: the state and the reference of the session
unfoldable pub get_or_create : Relay → String → String → ℕ → ℕ → Relay × ℕ
get_or_create s id device operator now = elim (lookup id s.sessions) [
  | some r ↦ (s, r)
  | none ↦ (
    record s {
      heap = update s.heap s.next (record {
        id = id;
        device_id = device;
        operator_id = operator;
        agent = none;
        viewer = none;
        codec_config = none;
        bytes_out = 0;
        input_events = 0;
        last_activity = now;
        viewer_gone_timer = none;
      });
      next = suc s.next;
      sessions = insert id s.next s.sessions;
    },
    s.next,
  )
]

-- `if (d) s.deviceId = d`
abbrev pub name_device : String → RelaySession → RelaySession
name_device d x = if d == "" then x else record x { device_id = d }

unfoldable pub on_agent_join : Relay → ℕ → ℕ → String → Relay
unfolding mark_active_if_joined
on_agent_join s r ws device =
    let s1 = put s r (name_device device (record (s.heap r) { agent = some ws })) in
    let s2 = record s1 { attached = update s1.attached ws (some (agent, r)) } in
    let s3 = emits s2 (
      push_if (should_send_viewer_join agent (opened s2 (s2.heap r).viewer))
        (notify ws viewer_join)) in
    mark_active_if_joined s3 r

-- `if (s.codecConfig) ws.send(s.codecConfig, { binary: true })`
abbrev pub send_config : ℕ → Option (List ℕ) → List Effect
send_config ws none = []
send_config ws (some bytes) = send ws bytes true ∷ []

unfoldable pub on_viewer_join : Relay → ℕ → ℕ → Relay
unfolding clear_timer mark_active_if_joined
on_viewer_join s r ws =
    let s1 = clear_timer s r (s.heap r).viewer_gone_timer in
    let s2 = put s1 r (record (s1.heap r) { viewer = some ws }) in
    let s3 = emits s2 (send_config ws (s2.heap r).codec_config) in
    let s4 = emits s3 (
      if should_send_viewer_join viewer (opened s3 (s3.heap r).agent)
      then notice_to (s3.heap r).agent viewer_join
      else []) in
    let s5 = record s4 { attached = update s4.attached ws (some (viewer, r)) } in
    mark_active_if_joined s5 r

abbrev pub first_byte : List ℕ → ℕ
first_byte [] = 256  -- `undefined`: no byte has this value
first_byte (b ∷ bs) = b

abbrev pub is_binary_frame : Bool → List ℕ → Bool
is_binary_frame flag bytes =
    flag
    || nat_eq (first_byte bytes) 1
    || nat_eq (first_byte bytes) 2
    || nat_eq (first_byte bytes) 3
    || nat_eq (first_byte bytes) 4

-- the session after a binary frame of the agent
abbrev pub take_frame : Bool → List ℕ → RelaySession → RelaySession
take_frame binary bytes x =
    if binary
    then record x {
      codec_config = if nat_eq (first_byte bytes) 1 then some bytes else x.codec_config;
      bytes_out = x.bytes_out + length bytes;
    }
    else x

unfoldable pub on_agent_message : Relay → ℕ → List ℕ → Bool → ℕ → Relay
on_agent_message s r bytes flag now =
    let binary = is_binary_frame flag bytes in
    let s1 = put s r (take_frame binary bytes (s.heap r)) in
    let s2 = emits s1 (delivery s1 (s1.heap r).viewer bytes binary) in
    put s2 r (record (s2.heap r) { last_activity = now })

unfoldable pub on_viewer_message : Relay → ℕ → List ℕ → Bool → ℕ → Relay
on_viewer_message s r bytes flag now =
    let s1 = put s r (record (s.heap r) { input_events = (s.heap r).input_events + 1 }) in
    let s2 = emits s1 (delivery s1 (s1.heap r).agent bytes flag) in
    put s2 r (record (s2.heap r) { last_activity = now })
