-- ===== src/Relay/Events.antt =====
-- apps/rc-relay/src/relay.server.ts: the events that the relay handles, one after the other: a
-- connection, a message, the end of a socket, a timer and the tick of every second.
--
-- The verification of a token and the answer of Redis to `SET … NX` come with the event of a
-- connection; the part of `onConnection` after the answer runs without interruption.
use ukpc_remote_control.Prelude.{
  ℕ, ◌+◌, String, Bool, true, false, not, ◌&&◌, Option, none, some, List, [], ◌∷◌, nat_eq, ltb,
  length, get_or, is_some, suc, ◌==◌, codes, if◌then◌else◌,
}
use mathlib.Core.List.{reverse}
use ukpc_remote_control.Shared.Keys
use ukpc_remote_control.Shared.Ttl
use ukpc_remote_control.Relay.{
  Role, agent, viewer, Relay, quality, refuse, redis_set, redis_sadd, emit, emits, put, update,
  notice_to, idle_ms, backpressure_bytes, close_session, get_or_create, name_device, on_agent_join,
  on_viewer_join, on_agent_message, on_viewer_message,
}

-- what `jwt.verify` gives for a good token
pub record Payload : Type 0 where
  pub sid : String
  pub did : Option String
  pub uid : Option ℕ
  pub node : Option String
  pub jti : Option String

-- the answer to `SET key 1 EX 120 NX`
pub data Once : Type 0 where
  fresh : Once
  taken : Once
  failed : Once  -- the command throws

pub record Message : Type 0 where
  pub bytes : List ℕ
  pub is_binary : Bool

pub record Connection : Type 0 where
  pub ws : ℕ
  pub pathname : String
  pub token : String
  pub early : List Message  -- stashed until the handlers are registered
  pub once : Once

pub data Event : Type 0 where
  connects : Connection → Event
  opens : ℕ → Event  -- a handshake ends: the socket is open, before its connection is handled
  speaks : (ws : ℕ) → Message → Event
  ends : (ws : ℕ) → Event
  fires : (timer : ℕ) → Event
  ticks : (buffered : ℕ → ℕ) → Event

abbrev is_prefix : List ℕ → List ℕ → Bool
is_prefix xs [] = true
is_prefix [] (y ∷ ys) = false
is_prefix (x ∷ xs) (y ∷ ys) = nat_eq x y && is_prefix xs ys

abbrev pub ends_with : String → String → Bool
ends_with s suffix = is_prefix (reverse (codes s)) (reverse (codes suffix))

abbrev pub role_of : String → Option Role
role_of pathname =
    if ends_with pathname "/agent"
    then some agent
    else if ends_with pathname "/viewer"
    then some viewer
    else none

-- `payload.node && payload.node !== this.node`
abbrev pub is_wrong_node : Option String → String → Bool
is_wrong_node none node = false
is_wrong_node (some n) node = not (n == "") && not (n == node)

-- `payload.jti`, an empty text counting as none
abbrev pub token_id : Option String → Option String
token_id none = none
token_id (some j) = if j == "" then none else some j

-- `ws.close(1008, why)`
abbrev pub turn_away : Relay → ℕ → String → Relay
turn_away s ws why = record (emit s (refuse ws why)) { is_open = update s.is_open ws false }

unfoldable pub agent_messages : Relay → ℕ → List Message → ℕ → Relay
agent_messages s r [] now = s
agent_messages s r (m ∷ ms) now =
    agent_messages (on_agent_message s r m.bytes m.is_binary now) r ms now

unfoldable pub viewer_messages : Relay → ℕ → List Message → ℕ → Relay
viewer_messages s r [] now = s
viewer_messages s r (m ∷ ms) now =
    viewer_messages (on_viewer_message s r m.bytes m.is_binary now) r ms now

-- the part of `onConnection` after the checks
unfoldable pub admit : Relay → ℕ → Connection → Role → Payload → Relay
unfolding agent_messages viewer_messages
admit s now c role p =
    let did = get_or p.did "" in
    let (s1, r) = get_or_create s p.sid did (get_or p.uid 0) now in
    let s2 = put s1 r (name_device did (s1.heap r)) in
    elim role [
      | agent ↦ agent_messages (on_agent_join s2 r c.ws did) r c.early now
      | viewer ↦ viewer_messages (on_viewer_join s2 r c.ws) r c.early now
    ]

-- the branches on the answer of Redis
unfoldable pub answered : Relay → ℕ → Connection → Payload → Once → Relay
answered s now c p fresh = admit s now c agent p
answered s now c p taken = turn_away s c.ws "replay"
answered s now c p failed = turn_away s c.ws "unauthorized"

-- The `SET` is sent whatever its answer is.
unfoldable pub claim_token : Relay → ℕ → Connection → Payload → Option String → Relay
unfolding answered
claim_token s now c p none = turn_away s c.ws "missing_jti"
claim_token s now c p (some jti) =
    answered (emit s (redis_set (Keys.token_used jti) "1" Ttl.token_used)) now c p c.once

unfoldable pub check_payload : Relay → ℕ → Connection → Role → Option Payload → Relay
unfolding claim_token
check_payload s now c role none = turn_away s c.ws "unauthorized"
check_payload s now c role (some p) =
    if is_wrong_node p.node s.node then turn_away s c.ws "wrong_node" else elim role [
      | agent ↦ claim_token s now c p (token_id p.jti)
      | viewer ↦ admit s now c viewer p
    ]

-- `verify` stands for `jwt.verify`, with the role as the audience; `none` is an exception.
module _ (verify : String → Role → Option Payload) where
  unfoldable pub on_role : Relay → ℕ → Connection → Option Role → Relay
  unfolding check_payload
  on_role s now c none = turn_away s c.ws "bad_path"
  on_role s now c (some role) = check_payload s now c role (verify c.token role)

  unfoldable pub on_connection : Relay → ℕ → Connection → Relay
  unfolding on_role
  on_connection s now c = on_role s now c (role_of c.pathname)

unfoldable pub on_message : Relay → ℕ → Option (Role × ℕ) → Message → Relay
on_message s now none m = s
on_message s now (some (agent, r)) m = on_agent_message s r m.bytes m.is_binary now
on_message s now (some (viewer, r)) m = on_viewer_message s r m.bytes m.is_binary now

-- `x === ws`
abbrev pub is_socket : Option ℕ → ℕ → Bool
is_socket none ws = false
is_socket (some v) ws = nat_eq v ws

-- the 'close' handler of a viewer: 1.5 seconds of grace
unfoldable pub viewer_gone : Relay → ℕ → Relay
viewer_gone s r =
    let t = s.next_timer in
    record s {
      heap = update s.heap r (record (s.heap r) { viewer = none; viewer_gone_timer = some t });
      pending = update s.pending t (some r);
      next_timer = suc t;
    }

unfoldable pub on_close : Relay → ℕ → Option (Role × ℕ) → Relay
unfolding viewer_gone
on_close s ws none = s
on_close s ws (some (agent, r)) =
    if is_socket (s.heap r).agent ws then close_session s r "agent_disconnect" else s
on_close s ws (some (viewer, r)) = if is_socket (s.heap r).viewer ws then viewer_gone s r else s

-- the callback of the timer
unfoldable pub on_timer : Relay → ℕ → Option ℕ → Relay
on_timer s t none = s
on_timer s t (some r) =
    let s1 = record s { pending = update s.pending t none } in
    if is_some (s1.heap r).viewer then s1 else close_session s1 r "viewer_disconnect"

-- `s.viewer?.bufferedAmount ?? 0`
abbrev pub buffered_of : (ℕ → ℕ) → Option ℕ → ℕ
buffered_of buffered none = 0
buffered_of buffered (some ws) = buffered ws

-- a round of the loop of `tick`: ask for less when the viewer lags behind, drop an idle session
unfoldable pub throttle : (ℕ → ℕ) → Relay → ℕ → Relay
throttle buffered s r = emits s (
    if ltb backpressure_bytes (buffered_of buffered (s.heap r).viewer)
    then notice_to (s.heap r).agent (quality 600000)
    else [])

unfoldable pub expire : ℕ → Relay → ℕ → Relay
expire now s r =
    if ltb ((s.heap r).last_activity + idle_ms) now then close_session s r "idle_timeout" else s

unfoldable pub tick_session : (ℕ → ℕ) → ℕ → Relay → ℕ → Relay
unfolding throttle expire
tick_session buffered now s r = expire now (throttle buffered s r) r

unfoldable pub tick_sessions : (ℕ → ℕ) → ℕ → Relay → List (String × ℕ) → Relay
tick_sessions buffered now s [] = s
tick_sessions buffered now s ((id, r) ∷ rest) =
    tick_sessions buffered now (tick_session buffered now s r) rest

-- `String(n)` is a parameter: `print`.
unfoldable pub tick : (ℕ → String) → (ℕ → ℕ) → ℕ → Relay → Relay
unfolding tick_sessions tick_session
tick print buffered now s =
    let s1 =
      emit s (redis_set (Keys.relay_load s.node) (print (length s.sessions)) Ttl.relay_load) in
    let s2 = emit s1 (redis_sadd Keys.relay_nodes s.node) in
    tick_sessions buffered now s2 s2.sessions

module _ (verify : String → Role → Option Payload) (print : ℕ → String) where
  unfoldable pub step : Relay → ℕ → Event → Relay
  unfolding on_message on_close on_timer
  step s now (connects c) = on_connection verify s now c
  step s now (opens ws) = record s { is_open = update s.is_open ws true }
  step s now (speaks ws m) = on_message s now (s.attached ws) m
  step s now (ends ws) =
      on_close (record s { is_open = update s.is_open ws false }) ws (s.attached ws)
  step s now (fires t) = on_timer s t (s.pending t)
  step s now (ticks buffered) = tick print buffered now s

  unfoldable pub run : Relay → List (ℕ × Event) → Relay
  run s [] = s
  run s ((now, e) ∷ es) = run (step s now e) es

abbrev pub start : String → Relay
start node = record {
  node = node;
  heap = λ r. record {
    id = "";
    device_id = "";
    operator_id = 0;
    agent = none;
    viewer = none;
    codec_config = none;
    bytes_out = 0;
    input_events = 0;
    last_activity = 0;
    viewer_gone_timer = none;
  };
  next = 0;
  sessions = [];
  is_open = λ ws. false;
  attached = λ ws. none;
  pending = λ t. none;
  next_timer = 0;
  out = [];
}
