-- ===== src/Shared/Types.antt =====
-- packages/shared/src/types.ts: the data of a device. An optional field is an `Option`.
use ukpc_remote_control.Prelude.{String, Bool, true, false, Option, none, some, List, Number}

pub data Tier : Type 0 where
  ready degraded not_ready offline : Tier

pub data KnoxState : Type 0 where
  licensed unlicensed unsupported : KnoxState

pub data ProjectMedia : Type 0 where
  allow default blocked : ProjectMedia

pub data BlockerCode : Type 0 where
  no_capture_path no_input_path no_bg_activity_start agent_outdated needs_reprovisioning :
      BlockerCode

pub data BlockerFix : Type 0 where
  reprovision selfheal update : BlockerFix

pub record Blocker : Type 0 where
  pub code : BlockerCode
  pub fix : BlockerFix

pub record Encoder : Type 0 where
  pub name : String
  pub hw : Bool

pub record Caps : Type 0 where
  pub project_media : ProjectMedia
  pub a11y : Bool
  pub knox : KnoxState
  pub overlay : Bool
  pub secure_settings : Bool
  pub encoder : Option Encoder

pub record Volatile : Type 0 where
  pub screen_on : Bool
  pub charging : Bool
  pub battery_pct : Number
  pub net : String
  pub rssi : Number

-- The hardware readings of agents from 1.4.7 on.
pub record HwVolatile : Type 0 where
  pub thermal : Option Number
  pub batt_temp_c : Option Number
  pub mem_avail_mb : Option Number
  pub disk_free_mb : Option Number
  pub cpu_pct : Option Number
  pub gpu_pct : Option Number
  pub display : Option Number
  pub touch_devs : Option Number
  pub main_lag_ms : Option Number
  pub fg_pkg : Option String
  pub ui_idle_ms : Option Number

-- `needsReprovisioning?: boolean`
pub record DeviceState : Type 0 where
  pub online : Bool
  pub agent_ver : String
  pub caps : Caps
  pub volatile : Volatile
  pub needs_reprovisioning : Option Bool

pub record Readiness : Type 0 where
  pub tier : Tier
  pub blockers : Option (List Blocker)
  pub warns : Option (List String)

abbrev pub min_agent_ver : String
min_agent_ver = "1.2.0"

-- `x !== 'allow'` and `x !== 'licensed'`
abbrev pub is_allow : ProjectMedia → Bool
is_allow allow = true
is_allow _ = false

abbrev pub is_licensed : KnoxState → Bool
is_licensed licensed = true
is_licensed _ = false

-- an optional Boolean as a condition: `undefined` is false
abbrev pub truthy : Option Bool → Bool
truthy none = false
truthy (some b) = b
