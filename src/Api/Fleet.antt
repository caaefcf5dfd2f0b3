-- ===== src/Api/Fleet.antt =====
-- apps/rc-api/src/fleet/fleet.service.ts: the rows of the dashboard and its answers.
--
-- The queries on sessions and events of a day are functions from a device: `none` where the query has no
-- row for it. `number_of` is `Number(s)`, and `hw_of` is `hwFromHash` on a hash of Redis.
pub mod Service
pub mod Counts
pub mod Agreement
pub mod Listing
pub mod Rollouts
use ukpc_remote_control.Prelude.{
  ℕ, zero, suc, ◌+◌, ◌-◌, String, Bool, true, false, not, ◌&&◌, ◌||◌, ◌==◌, ◌+s◌, Option, none,
  some, List, [], ◌∷◌, ◌++◌, map, filter, any, Number, finite, pos, negsuc, get_or, is_some, length,
  includes, codes, ltb, leb, nat_eq, Dict, lookup, insert, if◌then◌else◌,
}
use ukpc_remote_control.Shared.Types.{
  Tier, ready, degraded, not_ready, offline, BlockerCode, no_capture_path, no_input_path,
  no_bg_activity_start, agent_outdated, needs_reprovisioning, Blocker, unsupported, blocked, Caps,
  HwVolatile, DeviceState, Readiness, truthy,
}
use ukpc_remote_control.Shared.Readiness.{compute_readiness}
use ukpc_remote_control.Shared.Keys
use ukpc_remote_control.Shared.Hw.Live.{HwFields}
use ukpc_remote_control.Shared.Dashboard.{PartialVolatile, DashRow}
use ukpc_remote_control.Shared.Dashboard.Data.{DashboardData, DeviceBrief}
use ukpc_remote_control.Shared.Dashboard.Summary.{ids, summarize_fleet, brief_of}
use ukpc_remote_control.Shared.Rollout.{RolloutBucket, Rollout, summarize_rollout}
use ukpc_remote_control.Shared.Rollout.Names.{is_valid_version}
use ukpc_remote_control.Api.Redis.{Redis}
use ukpc_remote_control.Api.Devices.{JoinedRow, is_set, number_or, volatile_in}

pub record Day : Type 0 where
  pub last_session : String → Option ℕ
  pub drops : String → Option ℕ
  pub events : String → Option (List String)
  pub number_of : String → Number
  pub hw_of : Dict String → Option HwVolatile

-- the capabilities of a row without the encoder, which these queries do not read
abbrev pub plain_caps : JoinedRow → Caps
plain_caps row = record {
  project_media = get_or row.project_media blocked;
  a11y = truthy row.a11y;
  knox = get_or row.knox unsupported;
  overlay = truthy row.overlay;
  secure_settings = truthy row.secure_settings;
  encoder = none;
}

abbrev caps_if : Option String → Caps → Option Caps
caps_if none caps = none
caps_if (some ver) caps = some caps

abbrev live_in : (String → Number) → Dict String → PartialVolatile
live_in number_of hash =
    let v = volatile_in number_of hash in
    record {
      screen_on = some v.screen_on;
      charging = some v.charging;
      battery_pct = some v.battery_pct;
      net = some v.net;
      rssi = some v.rssi;
    }

unfoldable pub dash_row : Day → JoinedRow → Dict String → DashRow
dash_row day row hash = record {
  device_id = row.device_id;
  label = row.label;
  group = row.group_name;
  online = is_set (lookup "online" hash);
  last_seen_ms = row.last_seen;
  agent_ver = row.agent_ver;
  caps = caps_if row.agent_ver (plain_caps row);
  needs_reprovisioning = row.needs_reprovisioning;
  volatile = live_in day.number_of hash;
  hw = day.hw_of hash;
  last_session_ms = day.last_session row.device_id;
  drops24h = get_or (day.drops row.device_id) 0;
  hw_events24h = get_or (day.events row.device_id) [];
}

unfoldable pub row_to_state : (String → Number) → JoinedRow → Dict String → DeviceState
row_to_state number_of row hash = record {
  online = is_set (lookup "online" hash);
  agent_ver = get_or row.agent_ver "0.0.0";
  caps = plain_caps row;
  volatile = volatile_in number_of hash;
  needs_reprovisioning = some row.needs_reprovisioning;
}

pub record Health : Type 0 where
  pub ready : ℕ
  pub degraded : ℕ
  pub not_ready : ℕ
  pub offline : ℕ
  pub by_blocker : BlockerCode → ℕ
  pub missing_secure_settings : ℕ
  pub missing_a11y : ℕ
  pub missing_overlay : ℕ

abbrev blocker_no : BlockerCode → ℕ
blocker_no no_capture_path = 0
blocker_no no_input_path = 1
blocker_no no_bg_activity_start = 2
blocker_no agent_outdated = 3
blocker_no needs_reprovisioning = 4

abbrev pub same_blocker : BlockerCode → Blocker → Bool
same_blocker code b = nat_eq (blocker_no b.code) (blocker_no code)

abbrev pub count_blockers : Option (List Blocker) → BlockerCode → ℕ
count_blockers none code = 0
count_blockers (some bs) code = length (filter (same_blocker code) bs)

abbrev pub no_health : Health
no_health = record {
  ready = 0;
  degraded = 0;
  not_ready = 0;
  offline = 0;
  by_blocker = λ code. 0;
  missing_secure_settings = 0;
  missing_a11y = 0;
  missing_overlay = 0;
}

-- `x === false`, counted
abbrev pub lacking : Option Bool → ℕ
lacking (some false) = 1
lacking _ = 0

-- `r.tier !== 'OFFLINE' && row.agent_ver`
abbrev is_reporting : Tier → Option String → Bool
is_reporting offline ver = false
is_reporting tier none = false
is_reporting tier (some ver) = not (ver == "")

count_missing : Health → Bool → JoinedRow → Health
count_missing h false row = h
count_missing h true row = record h {
  missing_secure_settings = h.missing_secure_settings + lacking row.secure_settings;
  missing_a11y = h.missing_a11y + lacking row.a11y;
  missing_overlay = h.missing_overlay + lacking row.overlay;
}

count_tier : Health → Readiness → Tier → Health
count_tier h r ready = record h { ready = suc h.ready }
count_tier h r degraded = record h { degraded = suc h.degraded }
count_tier h r not_ready = record h {
  not_ready = suc h.not_ready;
  by_blocker = λ code. h.by_blocker code + count_blockers r.blockers code;
}
count_tier h r offline = record h { offline = suc h.offline }

-- one round of the loop
unfoldable pub count_device : Health → Readiness → JoinedRow → Health
unfolding count_missing count_tier
count_device h r row = count_tier (count_missing h (is_reporting r.tier row.agent_ver) row) r r.tier
