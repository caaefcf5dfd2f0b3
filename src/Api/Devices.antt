-- ===== src/Api/Devices.antt =====
-- apps/rc-api/src/devices/devices.service.ts: the devices as the API shows them, and their removal.
--
-- `number_of` is `Number(text)`; `dec` are the code units of a text and `text_of` the text of code units.
pub mod Service
pub mod Removal
use ukpc_remote_control.Prelude.{
  ℕ, ◌*◌, ◌-◌, String, Bool, true, false, not, ◌&&◌, ◌||◌, ◌==◌, ◌+s◌, Option, none, some, List, [],
  ◌∷◌, ◌++◌, map, filter, Number, num, get_or, is_some, take, drop, ltb, Dict, lookup, remove,
  if◌then◌else◌,
}
use ukpc_remote_control.Shared.Types.{
  Tier, KnoxState, unsupported, ProjectMedia, blocked, Caps, Volatile, HwVolatile, DeviceState,
  Readiness, truthy,
}
use ukpc_remote_control.Shared.Readiness.{compute_readiness}
use ukpc_remote_control.Shared.Keys
use ukpc_remote_control.Shared.Hw.Live.{HwFields}
use ukpc_remote_control.Db.{Db, DeviceRow, CapsRow, SampleRow, HwEventRow, ConnRow, Change}
use ukpc_remote_control.Ingest.{encoder_in}
use ukpc_remote_control.Api.Redis.{Redis}
use ukpc_remote_control.Api.Access.{Grants, may_access, is_visible}
use ukpc_remote_control.Api.Sessions.{Result, ok, err, forbidden, not_found, SessionRow}

-- a row of `devices` with its group and its capabilities (LEFT JOIN)
pub record JoinedRow : Type 0 where
  pub device_id : String
  pub label : Option String
  pub model : Option String
  pub last_seen : Option ℕ
  pub android_id : Option String
  pub needs_reprovisioning : Bool
  pub stale : Bool
  pub group_name : Option String
  pub group_id : Option ℕ
  pub agent_ver : Option String
  pub project_media : Option ProjectMedia
  pub a11y : Option Bool
  pub knox : Option KnoxState
  pub overlay : Option Bool
  pub secure_settings : Option Bool
  pub encoder_name : Option String
  pub encoder_hw : Option Bool

abbrev pub empty_row : String → JoinedRow
empty_row d = record {
  device_id = d;
  label = none;
  model = none;
  last_seen = none;
  android_id = none;
  needs_reprovisioning = false;
  stale = false;
  group_name = none;
  group_id = none;
  agent_ver = none;
  project_media = none;
  a11y = none;
  knox = none;
  overlay = none;
  secure_settings = none;
  encoder_name = none;
  encoder_hw = none;
}

abbrev pub of_device : (ℕ → Option String) → String → DeviceRow → JoinedRow
of_device group_name d row = record (empty_row d) {
  label = row.label;
  model = row.model;
  last_seen = row.last_seen;
  android_id = row.android_id;
  needs_reprovisioning = row.needs_reprovisioning;
  stale = row.stale;
  group_name = group_name row.group_id;
  group_id = some row.group_id;
}

abbrev pub with_caps : JoinedRow → Option CapsRow → JoinedRow
with_caps row none = row
with_caps row (some c) = record row {
  agent_ver = some c.agent_ver;
  project_media = some c.project_media;
  a11y = some c.a11y;
  knox = some c.knox;
  overlay = some c.overlay;
  secure_settings = some c.secure_settings;
  encoder_name = c.encoder_name;
  encoder_hw = c.encoder_hw;
}

-- the row of one device in the queries, whose groups have the names `group_name`
abbrev pub join_row : (ℕ → Option String) → Db → String → DeviceRow → JoinedRow
join_row group_name db d row = with_caps (of_device group_name d row) (lookup d db.capabilities)

unfoldable pub joined_at : (ℕ → Option String) → Db → String → Option DeviceRow → Option JoinedRow
joined_at group_name db d none = none
joined_at group_name db d (some row) = some (join_row group_name db d row)

unfoldable pub find_row : (ℕ → Option String) → Db → String → Option JoinedRow
unfolding joined_at
find_row group_name db d = joined_at group_name db d (lookup d db.devices)

-- `x === '1' || x === 'true'`
abbrev pub is_set : Option String → Bool
is_set none = false
is_set (some s) = s == "1" || s == "true"

-- `Number(x ?? 0)`
abbrev pub number_or : (String → Number) → Option String → Number
number_or number_of none = num 0
number_or number_of (some s) = number_of s

abbrev pub volatile_in : (String → Number) → Dict String → Volatile
volatile_in number_of hash = record {
  screen_on = is_set (lookup "screenOn" hash);
  charging = is_set (lookup "charging" hash);
  battery_pct = number_or number_of (lookup "batteryPct" hash);
  net = get_or (lookup "net" hash) "unknown";
  rssi = number_or number_of (lookup "rssi" hash);
}

abbrev pub caps_of : JoinedRow → Caps
caps_of row = record {
  project_media = get_or row.project_media blocked;
  a11y = truthy row.a11y;
  knox = get_or row.knox unsupported;
  overlay = truthy row.overlay;
  secure_settings = truthy row.secure_settings;
  encoder = encoder_in row.encoder_name row.encoder_hw;
}

unfoldable pub to_device_state : (String → Number) → JoinedRow → Dict String → DeviceState
to_device_state number_of row hash = record {
  online = is_set (lookup "online" hash);
  agent_ver = get_or row.agent_ver "0.0.0";
  caps = caps_of row;
  volatile = volatile_in number_of hash;
  needs_reprovisioning = some row.needs_reprovisioning;
}

pub record DeviceDto : Type 0 where
  pub device_id : String
  pub label : Option String
  pub model : Option String
  pub group : Option String
  pub last_seen : Option ℕ
  pub needs_reprovisioning : Bool
  pub stale : Bool
  pub readiness : Readiness
  pub volatile : Volatile
  pub hw : Option HwFields
  pub caps : Caps
  pub agent_ver : String
  pub online : Bool

unfoldable pub to_dto : JoinedRow → DeviceState → Readiness → Option HwFields → DeviceDto
to_dto row state readiness hw = record {
  device_id = row.device_id;
  label = row.label;
  model = row.model;
  group = row.group_name;
  last_seen = row.last_seen;
  needs_reprovisioning = row.needs_reprovisioning;
  stale = row.stale;
  readiness = readiness;
  volatile = state.volatile;
  hw = hw;
  caps = state.caps;
  agent_ver = state.agent_ver;
  online = state.online;
}

pub data DeviceCommand : Type 0 where
  probe : DeviceCommand
  selfheal : DeviceCommand
  stop_session : (session_id : String) → DeviceCommand
  hw_dump : (n : ℕ) → (nonce : String) → DeviceCommand
