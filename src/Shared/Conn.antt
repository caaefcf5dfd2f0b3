-- ===== src/Shared/Conn.antt =====
-- packages/shared/src/conn.ts: connection events of the broker and the connection log of an agent.
pub mod Entries
use ukpc_remote_control.Prelude.{
  ℕ, String, Bool, true, false, ◌&&◌, Option, none, some, List, [], ◌∷◌, ◌++◌, Number, num, num_lt,
  is_finite, if◌then◌else◌,
}
use ukpc_remote_control.Shared.Json.{Json, null, bool, number, text, array, is_object, field, clean}

pub data ConnKind : Type 0 where
  connected disconnected : ConnKind

pub record BrokerConnEvent : Type 0 where
  pub kind : ConnKind
  pub reason : Option (List ℕ)
  pub connected_at : Option Number
  pub at : Number
  pub ip : Option (List ℕ)
  pub keepalive : Option Number

-- `num(v)`: a finite positive number
unfoldable pub positive : Option Json → Option Number
positive (some (number x)) = if is_finite x && num_lt (num 0) x then some x else none
positive _ = none

-- `typeof v === 'number' && Number.isFinite(v) ? v : null`
unfoldable pub finite_of : Option Json → Option Number
finite_of (some (number x)) = if is_finite x then some x else none
finite_of _ = none

-- `typeof v === 'string' ? clean(v, max) : null`
unfoldable pub clean_of : ℕ → Option Json → Option (List ℕ)
clean_of max (some (text s)) = some (clean max s)
clean_of max _ = none

-- `a ?? b`
abbrev pub or_else {ℓ} : {A : Type ℓ} → Option A → Option A → Option A
or_else none b = b
or_else (some a) b = some a

abbrev pub time_key : ConnKind → String
time_key connected = "connected_at"
time_key disconnected = "disconnected_at"

abbrev pub reason_of : ConnKind → Json → Option (List ℕ)
reason_of connected raw = none
reason_of disconnected raw = clean_of 64 (field "reason" raw)

unfoldable pub event_at : ConnKind → Json → Option Number → Option BrokerConnEvent
event_at kind raw none = none
event_at kind raw (some at) = some (record {
  kind = kind;
  reason = reason_of kind raw;
  connected_at = positive (field "connected_at" raw);
  at = at;
  ip = clean_of 64 (field "ipaddress" raw);
  keepalive = finite_of (field "keepalive" raw);
})

unfoldable pub normalize_broker_event : ConnKind → Json → Option BrokerConnEvent
unfolding event_at positive
normalize_broker_event kind raw =
    if is_object raw
    then event_at kind raw
        (or_else (positive (field (time_key kind) raw)) (positive (field "ts" raw)))
    else none

pub data Detail : Type 0 where
  a_num : Number → Detail
  a_text : List ℕ → Detail

pub record AgentConnEntry : Type 0 where
  pub ts : Number
  pub ev : List ℕ
  pub reason : Option (List ℕ)
  pub detail : List (String × Detail)

-- `AGENT_DETAIL_NUM` and `AGENT_DETAIL_STR`
abbrev pub agent_detail_num : List String
agent_detail_num = "attempt" ∷ "upMs" ∷ "rssi" ∷ "delayMs" ∷ "code" ∷ []

abbrev pub agent_detail_str : List String
agent_detail_str = "net" ∷ "phase" ∷ "by" ∷ []

unfoldable pub num_entry : String → Option Number → List (String × Detail)
num_entry key none = []
num_entry key (some x) = (key, a_num x) ∷ []

unfoldable pub text_entry : String → Option (List ℕ) → List (String × Detail)
text_entry key none = []
text_entry key (some s) = (key, a_text s) ∷ []

unfoldable pub num_details : Json → List String → List (String × Detail)
unfolding num_entry finite_of
num_details raw [] = []
num_details raw (key ∷ keys) = num_entry key (finite_of (field key raw)) ++ num_details raw keys

unfoldable pub text_details : Json → List String → List (String × Detail)
unfolding text_entry clean_of
text_details raw [] = []
text_details raw (key ∷ keys) =
    text_entry key (clean_of 64 (field key raw)) ++ text_details raw keys

-- `typeof o.ev === 'string' && o.ev`
unfoldable pub ev_of : Option Json → Option (List ℕ)
ev_of (some (text [])) = none
ev_of (some (text s)) = some s
ev_of _ = none

unfoldable pub entry_of : Json → Option Number → Option (List ℕ) → Option AgentConnEntry
unfolding num_details text_details
entry_of raw (some ts) (some ev) = some (record {
  ts = ts;
  ev = clean 24 ev;
  reason = clean_of 200 (field "reason" raw);
  detail = num_details raw agent_detail_num ++ text_details raw agent_detail_str;
})
entry_of raw _ _ = none

unfoldable pub normalize_agent_conn : Json → Option AgentConnEntry
unfolding entry_of ev_of
normalize_agent_conn raw =
    if is_object raw
    then entry_of raw (positive (field "ts" raw)) (ev_of (field "ev" raw))
    else none
