-- ===== src/Shared/Dashboard/Data.antt =====
-- packages/shared/src/dashboard.ts: what `summarizeFleet` and `briefOf` return.
use ukpc_remote_control.Prelude.{ℕ, String, Bool, Option, List, Number, Dict}
use ukpc_remote_control.Shared.Types.{Tier, HwVolatile}

pub record AttentionItem : Type 0 where
  pub device_id : String
  pub label : Option String
  pub group : Option String
  pub score : ℕ
  pub reasons : List String

pub record NetCounts : Type 0 where
  pub wifi : ℕ
  pub cellular : ℕ
  pub ethernet : ℕ
  pub unknown : ℕ
  pub weak_signal : ℕ

pub record Connectivity : Type 0 where
  pub online : ℕ
  pub offline : ℕ
  pub offline_over24h : ℕ
  pub never_seen : ℕ

pub record Permissions : Type 0 where
  pub complete : ℕ
  pub incomplete : ℕ
  pub unknown : ℕ
  pub missing_secure_settings : ℕ
  pub missing_a11y : ℕ
  pub missing_overlay : ℕ

pub record Performance : Type 0 where
  pub lagging : ℕ
  pub hot : ℕ
  pub low_mem : ℕ
  pub low_disk : ℕ
  pub panel_off : ℕ
  pub touch_gone : ℕ
  pub no_hw_data : ℕ

pub record DashboardData : Type 0 where
  pub generated_at : ℕ
  pub total : ℕ
  pub connectivity : Connectivity
  pub tiers : Tier → ℕ
  pub permissions : Permissions
  pub performance : Performance
  pub ui_idle6h : ℕ
  pub ui_idle24h : ℕ
  pub no_session7d : ℕ
  pub battery_low : ℕ
  pub not_charging : ℕ
  pub network : NetCounts
  pub versions : List (String × ℕ)
  pub outdated : ℕ
  pub flapping : ℕ
  pub drops24h : ℕ
  pub events24h : List (String × ℕ)
  pub lists : Dict (List String)
  pub attention : List AttentionItem

pub record DeviceBrief : Type 0 where
  pub device_id : String
  pub label : Option String
  pub group : Option String
  pub online : Bool
  pub tier : Tier
  pub last_seen_ms : Option ℕ
  pub agent_ver : Option String
  pub missing : Option (List String)
  pub drops24h : ℕ
  pub last_session_ms : Option ℕ
  pub battery_pct : Option Number
  pub charging : Option Bool
  pub net : Option String
  pub rssi : Option Number
  pub hw : Option HwVolatile
  pub hw_events24h : List String
