-- ===== src/Examples/Fleet.antt =====
-- Tests of packages/shared/src/dashboard.ts.
use ukpc_remote_control.Prelude.{
  ◌≡◌, refl, String, Bool, true, false, none, some, List, [], ◌∷◌, arith, num, finite, negsuc,
  lookup, insert, length, any, sort_by, sort_into, insert_sorted,
}
use ukpc_remote_control.Shared.Semver.{semver_lt}
use ukpc_remote_control.Shared.Readiness.{compute_readiness, blockers_of, warns_of}
use ukpc_remote_control.Shared.Dashboard.{DashRow}
use ukpc_remote_control.Shared.Dashboard.Rows.{
  tier_of, row_keys, connection_keys, permission_keys, online_keys, power_keys, hardware_keys,
  hardware_flags, hardware_reasons, online_reasons, offline_reasons,
}
use ukpc_remote_control.Shared.Dashboard.Summary.{
  summarize_fleet, scan_rows, scan_row, add_all, count_all, distinct, distinct_after, score_of,
  late_items, ranked, ids, brief_of,
}
use ukpc_remote_control.Shared.Dashboard.Summary.Attention.{is_of, is_flagged, attention_iff}
use ukpc_remote_control.Examples.Devices.{tablet}

abbrev good : DashRow
good = record {
  device_id = "TAB-1";
  label = none;
  group = none;
  online = true;
  last_seen_ms = some 90000000;
  agent_ver = some "1.4.8";
  caps = some tablet.caps;
  needs_reprovisioning = false;
  volatile = record {
    screen_on = some true;
    charging = some true;
    battery_pct = some (num 80);
    net = some "wifi";
    rssi = some (finite (negsuc 50));
  };
  hw = none;
  last_session_ms = none;
  drops24h = 6;
  hw_events24h = "HW_LAG" ∷ "HW_HOT" ∷ "HW_LAG" ∷ [];
}

abbrev away : DashRow
away = record good {
  device_id = "TAB-2";
  online = false;
  last_seen_ms = some 0;
  drops24h = 0;
  caps = none;
}

abbrev quiet : DashRow
quiet = record good { device_id = "TAB-3"; drops24h = 0 }

abbrev fleet : List DashRow
fleet = good ∷ away ∷ quiet ∷ []

abbrev first_name : String → String → Bool
first_name a b = false

fleet_runs : Unit {0}
unfolding summarize_fleet scan_rows scan_row add_all count_all distinct distinct_after score_of
    late_items ranked brief_of tier_of row_keys connection_keys permission_keys online_keys
    power_keys hardware_keys hardware_flags hardware_reasons online_reasons offline_reasons lookup
    insert sort_by sort_into insert_sorted compute_readiness blockers_of warns_of semver_lt
fleet_runs = tt

fleet_tests :
    let d = summarize_fleet first_name fleet 90000000 30 in
    (ids d.lists "online" ≡ "TAB-1" ∷ "TAB-3" ∷ [])
    × (ids d.lists "offlineOver24h" ≡ "TAB-2" ∷ [])
    × (length d.attention ≡ 2)
    × (d.versions ≡ ("1.4.8", 3) ∷ [])
    × (d.events24h ≡ ("HW_LAG", 3) ∷ ("HW_HOT", 3) ∷ [])
    × (d.network.wifi ≡ 2)
    × ((brief_of good).hw_events24h ≡ "HW_LAG" ∷ "HW_HOT" ∷ [])
unfolding fleet_runs
fleet_tests = (refl, refl, refl, refl, refl, refl, refl)

attention_iff_example :
    any (is_of "TAB-2") (summarize_fleet first_name fleet 90000000 30).attention
    ≡ any (is_flagged 90000000 "TAB-2") fleet
attention_iff_example = attention_iff first_name fleet 90000000 30 "TAB-2" (omega arith)
