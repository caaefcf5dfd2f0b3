-- ===== src/Shared/Dashboard/Limits.antt =====
-- packages/shared/src/dashboard.ts: `DASH_LIMITS`.
use ukpc_remote_control.Prelude.{ℕ, ◌*◌, ℤ, negsuc}

abbrev pub lag_ms : ℕ
lag_ms = 1500

abbrev pub hot_batt_c : ℕ
hot_batt_c = 47

abbrev pub hot_thermal : ℕ
hot_thermal = 3

abbrev pub low_mem_mb : ℕ
low_mem_mb = 250

abbrev pub low_disk_mb : ℕ
low_disk_mb = 300

abbrev pub low_battery_pct : ℕ
low_battery_pct = 20

abbrev pub weak_rssi : ℤ
weak_rssi = negsuc 99

abbrev pub idle_long_ms : ℕ
idle_long_ms = 6 * 3600000

abbrev pub idle_very_long_ms : ℕ
idle_very_long_ms = 24 * 3600000

abbrev pub offline_long_ms : ℕ
offline_long_ms = 24 * 3600000

abbrev pub no_session_ms : ℕ
no_session_ms = 7 * 24 * 3600000

abbrev pub flapping_drops : ℕ
flapping_drops = 5
