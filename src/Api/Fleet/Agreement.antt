-- ===== src/Api/Fleet/Agreement.antt =====
-- The readiness of a device in the list of devices, in the dashboard and in the health of the fleet
-- (devices.service.ts and fleet.service.ts in apps/rc-api/src, dashboard.ts in packages/shared/src).
use ukpc_remote_control.Prelude.{ℕ, ◌≡◌, refl, ap, ◌∙◌, String, Option, none, some, Dict, lookup}
use ukpc_remote_control.Shared.Readiness.{compute_readiness, blockers_of, warns_of}
use ukpc_remote_control.Shared.Dashboard.{to_state}
use ukpc_remote_control.Db.{Db, DeviceRow, CapsRow}
use ukpc_remote_control.Api.Devices.{JoinedRow, of_device, with_caps, join_row, to_device_state}
use ukpc_remote_control.Api.Fleet.{Day, dash_row, row_to_state}

health_agrees :
    (day : Day) (row : JoinedRow) (hash : Dict String)
    → compute_readiness (row_to_state day.number_of row hash)
      ≡ compute_readiness (to_device_state day.number_of row hash)
unfolding row_to_state to_device_state compute_readiness blockers_of warns_of
health_agrees day row hash = refl

with_caps_agrees :
    (day : Day) (group_name : ℕ → Option String) (d : String) (row : DeviceRow) (c : Option CapsRow)
    (hash : Dict String)
    → to_state (dash_row day (with_caps (of_device group_name d row) c) hash)
      ≡ row_to_state day.number_of (with_caps (of_device group_name d row) c) hash
unfolding dash_row row_to_state
with_caps_agrees day group_name d row none hash = refl
with_caps_agrees day group_name d row (some c) hash = refl

-- A device has the same readiness in the list of devices, in the health of the fleet and in the
-- dashboard, which read its row in three different ways.
pub readiness_agrees :
    (day : Day) (group_name : ℕ → Option String) (db : Db) (d : String) (row : DeviceRow)
    (hash : Dict String)
    → let joined = join_row group_name db d row in
      let listed = compute_readiness (to_device_state day.number_of joined hash) in
      (compute_readiness (row_to_state day.number_of joined hash) ≡ listed)
      × (compute_readiness (to_state (dash_row day joined hash)) ≡ listed)
readiness_agrees day group_name db d row hash =
    let joined = join_row group_name db d row in
    (
      health_agrees day joined hash,
      ap compute_readiness (with_caps_agrees day group_name d row (lookup d db.capabilities) hash)
          ∙ health_agrees day joined hash,
    )
