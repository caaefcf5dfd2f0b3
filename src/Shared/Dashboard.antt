-- ===== src/Shared/Dashboard.antt =====
-- packages/shared/src/dashboard.ts: a row of the fleet, the limits, and the state of a row.
-- Times are milliseconds since the epoch, counts are natural numbers.
pub mod Data
pub mod Limits
pub mod Rows
pub mod Summary
use ukpc_remote_control.Prelude.{
  ℕ, ◌*◌, String, Bool, false, Option, List, Number, num, get_or, none, some, ℤ, negsuc,
}
use ukpc_remote_control.Shared.Types.{Caps, HwVolatile, DeviceState, blocked, unsupported}

-- `Partial<Volatile>`
pub record PartialVolatile : Type 0 where
  pub screen_on : Option Bool
  pub charging : Option Bool
  pub battery_pct : Option Number
  pub net : Option String
  pub rssi : Option Number

pub record DashRow : Type 0 where
  pub device_id : String
  pub label : Option String
  pub group : Option String
  pub online : Bool
  pub last_seen_ms : Option ℕ
  pub agent_ver : Option String
  pub caps : Option Caps
  pub needs_reprovisioning : Bool
  pub volatile : PartialVolatile
  pub hw : Option HwVolatile
  pub last_session_ms : Option ℕ
  pub drops24h : ℕ
  pub hw_events24h : List String

-- what a device that never reported its capabilities is taken to have
abbrev pub no_caps : Caps
no_caps = record {
  project_media = blocked;
  a11y = false;
  knox = unsupported;
  overlay = false;
  secure_settings = false;
  encoder = none;
}

-- `toState`
abbrev pub to_state : DashRow → DeviceState
to_state r = record {
  online = r.online;
  agent_ver = get_or r.agent_ver "0.0.0";
  caps = get_or r.caps no_caps;
  volatile = record {
    screen_on = get_or r.volatile.screen_on false;
    charging = get_or r.volatile.charging false;
    battery_pct = get_or r.volatile.battery_pct (num 0);
    net = get_or r.volatile.net "unknown";
    rssi = get_or r.volatile.rssi (num 0);
  };
  needs_reprovisioning = some r.needs_reprovisioning;
}
