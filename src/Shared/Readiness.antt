-- ===== src/Shared/Readiness.antt =====
-- packages/shared/src/readiness.ts: whether a device can take a remote session.
pub mod Decision
use ukpc_remote_control.Prelude.{
  String, Bool, not, ◌&&◌, ◌==◌, Option, none, some, List, [], ◌++◌, is_empty, push_if, num, num_lt,
  finite, negsuc, if◌then◌else◌,
}
use ukpc_remote_control.Shared.Semver.{semver_lt}
use ukpc_remote_control.Shared.Types.{
  Tier, ready, degraded, not_ready, offline, no_capture_path, no_input_path, no_bg_activity_start,
  agent_outdated, needs_reprovisioning, reprovision, selfheal, update, Blocker, Caps, Volatile,
  DeviceState, Readiness, min_agent_ver, is_allow, is_licensed, truthy,
}

-- `blockers` after the pushes
unfoldable pub blockers_of : DeviceState → List Blocker
blockers_of d =
    push_if (not (is_allow d.caps.project_media) && not d.caps.a11y)
      (record { code = no_capture_path; fix = reprovision })
    ++ (push_if (not (is_licensed d.caps.knox) && not d.caps.a11y)
          (record { code = no_input_path; fix = selfheal })
        ++ (push_if (not (is_allow d.caps.project_media) && not d.caps.overlay && not d.caps.a11y)
              (record { code = no_bg_activity_start; fix = reprovision })
            ++ (push_if (semver_lt d.agent_ver min_agent_ver)
                  (record { code = agent_outdated; fix = update })
                ++ push_if (truthy d.needs_reprovisioning)
                    (record { code = needs_reprovisioning; fix = reprovision }))))

-- `warns` after the pushes
unfoldable pub warns_of : DeviceState → List String
warns_of d =
    push_if (not (is_allow d.caps.project_media)) "NEEDS_AUTOCLICK"
    ++ (push_if (not d.volatile.screen_on) "SCREEN_OFF"
        ++ (push_if (not (is_licensed d.caps.knox)) "GESTURE_INPUT_ONLY"
            ++ (push_if (not d.volatile.charging && num_lt d.volatile.battery_pct (num 20))
                  "LOW_BATTERY"
                ++ push_if
                    (d.volatile.net == "cellular" && num_lt d.volatile.rssi (finite (negsuc 99)))
                    "WEAK_SIGNAL")))

unfoldable pub compute_readiness : DeviceState → Readiness
compute_readiness d =
    if not d.online
    then record { tier = offline; blockers = none; warns = none }
    else if not (is_empty (blockers_of d))
    then record { tier = not_ready; blockers = some (blockers_of d); warns = none }
    else if not (is_empty (warns_of d))
    then record { tier = degraded; blockers = none; warns = some (warns_of d) }
    else record { tier = ready; blockers = none; warns = none }
