-- ===== src/Examples/Updates.antt =====
-- Tests of packages/shared/src/rollout.ts.
use ukpc_remote_control.Prelude.{
  ◌≤◌, true, false, ◌≡◌, ◌↔◌, ◌≢◌, refl, none, some, [], ◌∷◌, List, All, lookup, num, insert,
  sort_by,
}
use ukpc_remote_control.Shared.Types.{allow, licensed}
use ukpc_remote_control.Shared.Semver.{semver_lt}
use ukpc_remote_control.Shared.Readiness.{blockers_of, compute_readiness, warns_of}
use ukpc_remote_control.Shared.Dashboard.{DashRow}
use ukpc_remote_control.Shared.Rollout.{
  done, updated_unhealthy, updated_offline, pending_online, unknown, bucket_of, health_problems,
  summarize_rollout,
}
use ukpc_remote_control.Shared.Rollout.Buckets.{IsDone, complete_iff, percent_done_bounds}

abbrev fine : DashRow
fine = record {
  device_id = "TAB-1";
  label = none;
  group = none;
  online = true;
  last_seen_ms = some 1000;
  agent_ver = some "1.4.8";
  caps = some (record {
    project_media = allow;
    a11y = true;
    knox = licensed;
    overlay = true;
    secure_settings = true;
    encoder = none;
  });
  needs_reprovisioning = false;
  volatile = record {
    screen_on = some true;
    charging = some true;
    battery_pct = some (num 80);
    net = some "wifi";
    rssi = none;
  };
  hw = some (record {
    thermal = none;
    batt_temp_c = none;
    mem_avail_mb = none;
    disk_free_mb = none;
    cpu_pct = none;
    gpu_pct = none;
    display = some (num 2);
    touch_devs = some (num 1);
    main_lag_ms = some (num 12);
    fg_pkg = none;
    ui_idle_ms = none;
  });
  last_session_ms = none;
  drops24h = 0;
  hw_events24h = [];
}

abbrev fleet : List DashRow
fleet =
    fine
    ∷ record fine { device_id = "TAB-2"; drops24h = 9 }
    ∷ record fine { device_id = "TAB-3"; online = false }
    ∷ record fine { device_id = "TAB-4"; agent_ver = some "1.4.6" }
    ∷ record fine { device_id = "TAB-5"; agent_ver = some "" }
    ∷ []

rollout_tests :
    let s = summarize_rollout fleet "1.4.7" 5000 in
    (s.buckets done ≡ "TAB-1" ∷ [])
    × (s.buckets updated_unhealthy ≡ "TAB-2" ∷ [])
    × (s.buckets updated_offline ≡ "TAB-3" ∷ [])
    × (s.buckets pending_online ≡ "TAB-4" ∷ [])
    × (s.buckets unknown ≡ "TAB-5" ∷ [])
    × (s.percent_done ≡ 200)
    × (s.suggested_target ≡ some "1.4.8")
    × (lookup "TAB-2" s.reasons ≡ some ("FLAPPING" ∷ []))
    × (s.versions ≡ ("1.4.8", 3) ∷ ("1.4.6", 1) ∷ [])
unfolding summarize_rollout bucket_of health_problems compute_readiness blockers_of warns_of
    semver_lt lookup insert sort_by
rollout_tests = (refl, refl, refl, refl, refl, refl, refl, refl, refl)

complete_iff_example :
    ((summarize_rollout fleet "1.4.7" 5000).complete ≡ true)
    ↔ ((fleet ≢ []) × All (IsDone "1.4.7") fleet)
complete_iff_example = complete_iff fleet "1.4.7" 5000

percent_done_bounds_example :
    let s = summarize_rollout fleet "1.4.7" 5000 in
    (s.percent_done ≤ 1000) × ((s.percent_done ≡ 1000) ↔ (s.complete ≡ true))
percent_done_bounds_example = percent_done_bounds fleet "1.4.7" 5000
