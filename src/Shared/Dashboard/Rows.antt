-- ===== src/Shared/Dashboard/Rows.antt =====
-- packages/shared/src/dashboard.ts: what the loop of `summarizeFleet` finds on one row: the keys under
-- which the device is listed and the reasons for attention, each in the order of the source.
use ukpc_remote_control.Prelude.{
  ℕ, ◌+◌, String, Bool, true, false, not, ◌&&◌, ◌||◌, ◌==◌, ◌+s◌, Option, none, some, List, [], ◌∷◌,
  ◌++◌, Number, num, num_lt, num_le, num_eq, finite, ltb, leb, is_empty, push_if, get_or,
  if◌then◌else◌,
}
use ukpc_remote_control.Shared.Types.{
  Tier, ready, degraded, not_ready, offline, Caps, HwVolatile, truthy, min_agent_ver,
}
use ukpc_remote_control.Shared.Semver.{semver_lt}
use ukpc_remote_control.Shared.Readiness.{compute_readiness}
use ukpc_remote_control.Shared.Dashboard.{DashRow, PartialVolatile, to_state}
use ukpc_remote_control.Shared.Dashboard.Limits

-- the text of a tier
abbrev pub tier_name : Tier → String
tier_name ready = "READY"
tier_name degraded = "DEGRADED"
tier_name not_ready = "NOT_READY"
tier_name offline = "OFFLINE"

abbrev pub is_not_ready : Tier → Bool
is_not_ready not_ready = true
is_not_ready _ = false

unfoldable pub tier_of : DashRow → Tier
tier_of r = (compute_readiness (to_state r)).tier

-- `t !== null && now - t > span`
abbrev pub is_over : ℕ → ℕ → Option ℕ → Bool
is_over now span none = false
is_over now span (some t) = ltb (t + span) now

-- the keys that end an offline device's part of the connection
abbrev pub away_keys : ℕ → Option ℕ → List String
away_keys now none = "neverSeen" ∷ []
away_keys now (some t) = push_if (is_over now Limits.offline_long_ms (some t)) "offlineOver24h"

unfoldable pub connection_keys : ℕ → DashRow → List String
connection_keys now r = if r.online then "online" ∷ [] else "offline" ∷ away_keys now r.last_seen_ms

-- `miss`
abbrev pub missing_keys : Caps → List String
missing_keys c =
    push_if (not c.secure_settings) "missingSecureSettings"
    ++ (push_if (not c.a11y) "missingA11y" ++ push_if (not c.overlay) "missingOverlay")

abbrev pub lacks_permission : Caps → Bool
lacks_permission c = not c.secure_settings || not c.a11y || not c.overlay

unfoldable pub permission_keys : Option Caps → List String
permission_keys none = "permissionsUnknown" ∷ []
permission_keys (some c) =
    if is_empty (missing_keys c)
    then "permissionsComplete" ∷ []
    else "permissionsIncomplete" ∷ missing_keys c

-- `r.agentVer && semverLt(r.agentVer, MIN_AGENT_VER)`
abbrev pub is_outdated : Option String → Bool
is_outdated none = false
is_outdated (some ver) = not (ver == "") && semver_lt ver min_agent_ver

-- `r.lastSessionMs === null || now - r.lastSessionMs > L.noSessionMs`
abbrev pub is_unused : ℕ → Option ℕ → Bool
is_unused now none = true
is_unused now t = is_over now Limits.no_session_ms t

abbrev pub is_known_net : String → Bool
is_known_net n = n == "wifi" || n == "cellular" || n == "ethernet"

abbrev pub is_weak : PartialVolatile → Bool
is_weak v =
    get_or v.net "unknown" == "cellular"
    && not (num_eq (get_or v.rssi (num 0)) (num 0))
    && num_lt (get_or v.rssi (num 0)) (finite Limits.weak_rssi)

abbrev pub is_low : PartialVolatile → Bool
is_low v =
    not (truthy v.charging) && num_lt (get_or v.battery_pct (num 100)) (num Limits.low_battery_pct)

unfoldable pub power_keys : PartialVolatile → List String
power_keys v =
    push_if (is_known_net (get_or v.net "unknown")) (get_or v.net "unknown")
    ++ (push_if (is_weak v) "weakSignal"
        ++ (push_if (not (truthy v.charging)) "notCharging" ++ push_if (is_low v) "lowBattery"))

-- `x !== undefined && x < limit`, `x !== undefined && x >= limit`
abbrev pub is_below : ℕ → Option Number → Bool
is_below limit none = false
is_below limit (some x) = num_lt x (num limit)

abbrev pub is_from : ℕ → Option Number → Bool
is_from limit none = false
is_from limit (some x) = num_le (num limit) x

-- `x !== undefined && [1, 3, 4].includes(x)`
abbrev pub is_dark : Option Number → Bool
is_dark none = false
is_dark (some x) = num_eq x (num 1) || num_eq x (num 3) || num_eq x (num 4)

-- `x === 0`
abbrev pub is_none_left : Option Number → Bool
is_none_left none = false
is_none_left (some x) = num_eq x (num 0)

abbrev pub is_lagging : HwVolatile → Bool
is_lagging hw = num_le (num Limits.lag_ms) (get_or hw.main_lag_ms (num 0))

abbrev pub is_hot : HwVolatile → Bool
is_hot hw =
    num_le (num Limits.hot_batt_c) (get_or hw.batt_temp_c (num 0))
    || num_le (num Limits.hot_thermal) (get_or hw.thermal (num 0))

abbrev pub idle_keys : Option Number → List String
idle_keys idle =
    if is_from Limits.idle_very_long_ms idle
    then "uiIdle24h" ∷ "uiIdle6h" ∷ []
    else push_if (is_from Limits.idle_long_ms idle) "uiIdle6h"

-- the conditions of the hardware part with the key and the reason of each
unfoldable pub hardware_flags : Bool → HwVolatile → List (String × String)
hardware_flags screen_on hw =
    push_if (is_lagging hw) ("LAG", "lagging")
    ++ (push_if (is_hot hw) ("HOT", "hot")
        ++ (push_if (is_below Limits.low_mem_mb hw.mem_avail_mb) ("LOW_MEM", "lowMem")
            ++ (push_if (is_below Limits.low_disk_mb hw.disk_free_mb) ("LOW_DISK", "lowDisk")
                ++ (push_if (screen_on && is_dark hw.display) ("PANEL_OFF", "panelOff")
                    ++ push_if (is_none_left hw.touch_devs) ("TOUCH_GONE", "touchGone")))))

abbrev pub codes_of : List (String × String) → List String
codes_of [] = []
codes_of ((code, key) ∷ rest) = code ∷ codes_of rest

abbrev pub keys_of : List (String × String) → List String
keys_of [] = []
keys_of ((code, key) ∷ rest) = key ∷ keys_of rest

unfoldable pub hardware_keys : Bool → Option HwVolatile → List String
unfolding hardware_flags
hardware_keys screen_on none = "noHwData" ∷ []
hardware_keys screen_on (some hw) = keys_of (hardware_flags screen_on hw) ++ idle_keys hw.ui_idle_ms

unfoldable pub hardware_reasons : Bool → Option HwVolatile → List String
unfolding hardware_flags
hardware_reasons screen_on none = []
hardware_reasons screen_on (some hw) = codes_of (hardware_flags screen_on hw)

-- the part of a row below `if (!r.online) continue`
unfoldable pub online_keys : DashRow → List String
unfolding power_keys hardware_keys
online_keys r = power_keys r.volatile ++ hardware_keys (truthy r.volatile.screen_on) r.hw

-- what the calls of `add` list the device under
unfoldable pub row_keys : ℕ → DashRow → List String
unfolding connection_keys permission_keys online_keys tier_of
row_keys now r =
    ("tier:" +s tier_name (tier_of r)) ∷ connection_keys now r
    ++ (push_if (is_not_ready (tier_of r)) "notReady"
        ++ (permission_keys r.caps
            ++ (("ver:" +s get_or r.agent_ver "unknown")
                  ∷ push_if (is_outdated r.agent_ver) "outdated"
                ++ (push_if (leb Limits.flapping_drops r.drops24h) "flapping"
                    ++ (push_if (is_unused now r.last_session_ms) "noSession7d"
                        ++ (if r.online then online_keys r else []))))))

abbrev pub lacks_any : Option Caps → Bool
lacks_any none = false
lacks_any (some c) = lacks_permission c

-- `reasons` of an online device at the end of the loop
unfoldable pub online_reasons : DashRow → List String
unfolding hardware_reasons tier_of
online_reasons r =
    push_if (is_not_ready (tier_of r)) "NOT_READY"
    ++ (push_if (lacks_any r.caps) "MISSING_PERMISSIONS"
        ++ (push_if (leb Limits.flapping_drops r.drops24h) "FLAPPING"
            ++ (push_if (is_low r.volatile) "LOW_BATTERY"
                ++ hardware_reasons (truthy r.volatile.screen_on) r.hw)))

-- `reasons` of an offline device in the second loop
unfoldable pub offline_reasons : ℕ → DashRow → List String
offline_reasons now r =
    push_if (leb Limits.flapping_drops r.drops24h) "FLAPPING"
    ++ (push_if (is_over now Limits.offline_long_ms r.last_seen_ms) "OFFLINE_OVER_24H"
        ++ push_if (lacks_any r.caps) "MISSING_PERMISSIONS")
