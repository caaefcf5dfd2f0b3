-- ===== src/Examples/Devices.antt =====
-- Tests of packages/shared/src/readiness.ts.
use ukpc_remote_control.Prelude.{
  true, false, ◌≡◌, ◌↔◌, ◌⊎◌, refl, none, some, any, num, finite, negsuc,
}
use ukpc_remote_control.Shared.Types.{
  ready, degraded, not_ready, allow, blocked, licensed, unsupported, DeviceState,
}
use ukpc_remote_control.Shared.Readiness.{blockers_of, compute_readiness, warns_of}
use ukpc_remote_control.Shared.Semver.{semver_lt}
use ukpc_remote_control.Shared.Readiness.Decision.{
  IsFit, Improves, is_no_bg_activity_start, admits_iff,
}

abbrev pub tablet : DeviceState
tablet = record {
  online = true;
  agent_ver = "1.4.8";
  caps = record {
    project_media = allow;
    a11y = true;
    knox = licensed;
    overlay = true;
    secure_settings = true;
    encoder = none;
  };
  volatile = record {
    screen_on = true;
    charging = false;
    battery_pct = num 80;
    net = "wifi";
    rssi = finite (negsuc 50);
  };
  needs_reprovisioning = some false;
}

-- the same tablet after its permissions were revoked
abbrev locked : DeviceState
locked = record tablet {
  caps = record {
    project_media = blocked;
    a11y = false;
    knox = unsupported;
    overlay = false;
    secure_settings = false;
    encoder = none;
  };
}

readiness_tests :
    ((compute_readiness tablet).tier ≡ ready)
    × ((compute_readiness locked).tier ≡ not_ready)
    × ((compute_readiness (record tablet { agent_ver = "1.1.9" })).tier ≡ not_ready)
    × (any is_no_bg_activity_start (blockers_of locked) ≡ true)
unfolding compute_readiness blockers_of warns_of semver_lt
readiness_tests = (refl, refl, refl, refl)

admits_iff_example :
    (((compute_readiness tablet).tier ≡ ready) ⊎ ((compute_readiness tablet).tier ≡ degraded))
    ↔ ((tablet.online ≡ true) × IsFit tablet)
admits_iff_example = admits_iff tablet

locked-Improves-tablet : Improves locked tablet
locked-Improves-tablet = record {
  online = λ h. h;
  media = λ h. refl;
  a11y = λ h. refl;
  knox = λ h. refl;
  agent = refl;
  provisioned = λ h. h;
  volatile = refl;
}
