-- ===== src/Shared/Readiness/Decision.antt =====
-- What each tier of `computeReadiness` (packages/shared/src/readiness.ts) means for a device.
use ukpc_remote_control.Prelude.{
  ℕ, ◌≤◌, Bool, true, false, ◌≡◌, ◌↔◌, ◌⊎◌, arith, num, num_lt, finite, negsuc, any, is_empty,
  eq_iff,
}
use ukpc_remote_control.Shared.Types.{
  Tier, ready, degraded, not_ready, offline, allow, licensed, no_capture_path, no_bg_activity_start,
  Blocker, DeviceState, min_agent_ver, is_allow, is_licensed, truthy,
}
use ukpc_remote_control.Shared.Semver.{parse}
use ukpc_remote_control.Shared.Semver.Order.{LexLt, semver_lt_iff}
use ukpc_remote_control.Shared.Readiness.{blockers_of, warns_of, compute_readiness}

-- The agent has a way to capture the screen and one to inject input, its version is at least the
-- oldest one supported, and the device waits for no reprovisioning.
pub record IsFit (d : DeviceState) : Type 0 where
  pub captures : (is_allow d.caps.project_media ≡ true) ⊎ (d.caps.a11y ≡ true)
  pub takes_input : (is_licensed d.caps.knox ≡ true) ⊎ (d.caps.a11y ≡ true)
  pub supported : ¬ LexLt (parse d.agent_ver) (parse min_agent_ver)
  pub provisioned : truthy d.needs_reprovisioning ≡ false

-- No warning applies.
pub record IsSmooth (d : DeviceState) : Type 0 where
  pub allowed : d.caps.project_media ≡ allow
  pub lit : d.volatile.screen_on ≡ true
  pub injects : d.caps.knox ≡ licensed
  pub powered : (d.volatile.charging ≡ true) ⊎ (num_lt d.volatile.battery_pct (num 20) ≡ false)
  pub reachable :
      (¬ (d.volatile.net ≡ "cellular")) ⊎ (num_lt d.volatile.rssi (finite (negsuc 99)) ≡ false)

IsFit-of_empty : (d : DeviceState) → is_empty (blockers_of d) ≡ true → IsFit d
unfolding blockers_of
IsFit-of_empty d h = record {
  captures = ground arith;
  takes_input = ground arith;
  supported = λ l. ground (arith, (semver_lt_iff d.agent_ver min_agent_ver).1 l);
  provisioned = ground arith;
}

empty-of_IsFit : (d : DeviceState) → IsFit d → is_empty (blockers_of d) ≡ true
unfolding blockers_of
empty-of_IsFit d f =
    ground (arith, f.captures, f.takes_input, (semver_lt_iff d.agent_ver min_agent_ver).0)

-- A device is READY or DEGRADED, the tiers in which a session may start, exactly when it is online
-- and fit; the overlay permission makes no difference.
pub admits_iff :
    (d : DeviceState)
    → (((compute_readiness d).tier ≡ ready) ⊎ ((compute_readiness d).tier ≡ degraded))
      ↔ ((d.online ≡ true) × IsFit d)
unfolding compute_readiness
admits_iff d = (
  λ h. (ground arith, IsFit-of_empty d (ground arith)),
  λ h. ground (arith, empty-of_IsFit d h.1),
)

warns_empty-of_IsSmooth : (d : DeviceState) → IsSmooth d → is_empty (warns_of d) ≡ true
unfolding warns_of
warns_empty-of_IsSmooth d s =
    ground
      (arith, s.allowed, s.lit, s.injects, s.powered, s.reachable, eq_iff d.volatile.net "cellular")

IsSmooth-of_empty : (d : DeviceState) → is_empty (warns_of d) ≡ true → IsSmooth d
unfolding warns_of
IsSmooth-of_empty d h = record {
  allowed = ground arith;
  lit = ground arith;
  injects = ground arith;
  powered = ground arith;
  reachable = ground (arith, (eq_iff d.volatile.net "cellular").1);
}

-- A device is READY exactly when it is online, fit and no warning applies to it.
pub ready_iff :
    (d : DeviceState)
    → ((compute_readiness d).tier ≡ ready) ↔ ((d.online ≡ true) × IsFit d × IsSmooth d)
unfolding compute_readiness
ready_iff d = (
  λ h. (ground arith, IsFit-of_empty d (ground arith), IsSmooth-of_empty d (ground arith)),
  λ h. ground (arith, empty-of_IsFit d h.1, warns_empty-of_IsSmooth d h.2),
)

abbrev pub is_no_capture_path : Blocker → Bool
is_no_capture_path b = elim b.code [ no_capture_path ↦ true | _ ↦ false ]

abbrev pub is_no_bg_activity_start : Blocker → Bool
is_no_bg_activity_start b = elim b.code [ no_bg_activity_start ↦ true | _ ↦ false ]

-- NO_BG_ACTIVITY_START is only reported together with NO_CAPTURE_PATH, which is the condition of
-- the first blocker: it is never the only reason for which a device is NOT_READY.
pub bg_start_needs_capture :
    (d : DeviceState)
    → any is_no_bg_activity_start (blockers_of d) ≡ true
    → any is_no_capture_path (blockers_of d) ≡ true
unfolding blockers_of
bg_start_needs_capture d h = ground arith

abbrev pub rank : Tier → ℕ
rank offline = 0
rank not_ready = 1
rank degraded = 2
rank ready = 3

-- `e` grants at least what `d` grants: each permission, licence and reading that is good in `d` is
-- good in `e`.
pub record Improves (d e : DeviceState) : Type 0 where
  pub online : d.online ≡ true → e.online ≡ true
  pub media : d.caps.project_media ≡ allow → e.caps.project_media ≡ allow
  pub a11y : d.caps.a11y ≡ true → e.caps.a11y ≡ true
  pub knox : d.caps.knox ≡ licensed → e.caps.knox ≡ licensed
  pub agent : e.agent_ver ≡ d.agent_ver
  pub provisioned : truthy d.needs_reprovisioning ≡ false → truthy e.needs_reprovisioning ≡ false
  pub volatile : e.volatile ≡ d.volatile

Improves-IsFit : (d e : DeviceState) → Improves d e → IsFit d → IsFit e
Improves-IsFit d e i f = record {
  captures = ground (arith, f.captures, i.media, i.a11y);
  takes_input = ground (arith, f.takes_input, i.knox, i.a11y);
  supported = λ l. f.supported (rw i.agent at l);
  provisioned = i.provisioned f.provisioned;
}

Improves-IsSmooth : (d e : DeviceState) → Improves d e → IsSmooth d → IsSmooth e
Improves-IsSmooth d e i s = record {
  allowed = i.media s.allowed;
  lit = rw i.volatile s.lit;
  injects = i.knox s.injects;
  powered = rw i.volatile s.powered;
  reachable = rw i.volatile s.reachable;
}

-- Granting permissions never lowers the tier of a device.
pub readiness_monotone :
    (d e : DeviceState)
    → Improves d e
    → rank (compute_readiness d).tier ≤ rank (compute_readiness e).tier
unfolding compute_readiness
readiness_monotone d e i =
    let fit : is_empty (blockers_of d) ≡ true → is_empty (blockers_of e) ≡ true =
      λ h. empty-of_IsFit e (Improves-IsFit d e i (IsFit-of_empty d h)) in
    let smooth : is_empty (warns_of d) ≡ true → is_empty (warns_of e) ≡ true =
      λ h. warns_empty-of_IsSmooth e (Improves-IsSmooth d e i (IsSmooth-of_empty d h)) in
    ground (arith, fit, smooth, i.online)
