-- ===== src/Api/Sync.antt =====
-- apps/rc-api/src/hmdm/hmdm.sync.ts: the devices of the MDM, copied into the table `devices`.
--
-- `group_of` is the id that the table of groups gives to the group of the MDM. The list is what the MDM
-- answers; an error of it leaves everything as it is.
pub mod Staleness
use ukpc_remote_control.Prelude.{
  ℕ, String, Bool, true, false, not, ◌&&◌, ◌||◌, ◌==◌, Option, none, some, List, [], ◌∷◌, ◌++◌,
  includes, is_empty, nat_eq, or_else, Dict, lookup, insert, if◌then◌else◌,
}
use ukpc_remote_control.Db.{Db, DeviceRow}

-- a device of the MDM; `number` is `String(d.number ?? d.deviceNumber ?? '')`
pub record MdmDevice : Type 0 where
  pub number : String
  pub id : Option ℕ
  pub model : Option String
  pub os_version : Option String
  pub group_id : Option ℕ
  pub label : Option String

-- `mapGroup`: `none` where there is no default group, which throws
unfoldable pub map_group : (ℕ → ℕ) → Db → Option ℕ → Option ℕ
map_group group_of db none = db.default_group
map_group group_of db (some g) = if nat_eq g 0 then db.default_group else some (group_of g)

abbrev pub copied : ℕ → ℕ → MdmDevice → Option DeviceRow → DeviceRow
copied now group d none = record {
  android_id = none;
  hmdm_internal_id = d.id;
  model = d.model;
  os_version = d.os_version;
  group_id = group;
  label = d.label;
  last_seen = none;
  synced_at = some now;
  stale = false;
  needs_reprovisioning = false;
}
copied now group d (some row) = record row {
  hmdm_internal_id = d.id;
  model = d.model;
  os_version = d.os_version;
  group_id = group;
  label = or_else d.label row.label;
  synced_at = some now;
  stale = false;
}

-- the INSERT … ON CONFLICT (device_id) DO UPDATE
unfoldable pub upsert_device : ℕ → ℕ → MdmDevice → Dict DeviceRow → Dict DeviceRow
upsert_device now group d rows = insert d.number (copied now group d (lookup d.number rows)) rows

-- what the loop has written, and whether it goes on: an exception leaves the rows that are there
pub record Copied : Type 0 where
  pub rows : Dict DeviceRow
  pub numbers : List String
  pub running : Bool

unfoldable pub write_one : ℕ → Copied → MdmDevice → Option ℕ → Copied
unfolding upsert_device
write_one now c d none = record c { running = false }
write_one now c d (some group) = record c { rows = upsert_device now group d c.rows }

-- one round of the loop
unfoldable pub copy_one : (ℕ → ℕ) → Db → ℕ → Copied → MdmDevice → Copied
unfolding write_one map_group
copy_one group_of db now c d =
    if not c.running || d.number == ""
    then c
    else write_one now (record c { numbers = c.numbers ++ d.number ∷ [] }) d
        (map_group group_of db d.group_id)

unfoldable pub copy_all : (ℕ → ℕ) → Db → ℕ → Copied → List MdmDevice → Copied
unfolding copy_one
copy_all group_of db now c [] = c
copy_all group_of db now c (d ∷ ds) = copy_all group_of db now (copy_one group_of db now c d) ds

-- `UPDATE devices SET stale = true WHERE device_id <> ALL(numbers)`
unfoldable pub mark_stale : List String → Dict DeviceRow → Dict DeviceRow
mark_stale numbers [] = []
mark_stale numbers ((d, row) ∷ rows) =
    let rest = mark_stale numbers rows in
    if includes numbers d then (d, row) ∷ rest else (d, record row { stale = true }) ∷ rest

abbrev pub copied_all : (ℕ → ℕ) → Db → ℕ → List MdmDevice → Copied
copied_all group_of db now ds =
    copy_all group_of db now (record { rows = db.devices; numbers = []; running = true }) ds

-- `syncFromHeadwind`, with the devices of the MDM, `none` where it cannot be asked
unfoldable pub sync : (ℕ → ℕ) → Db → ℕ → Option (List MdmDevice) → Dict DeviceRow
unfolding mark_stale
sync group_of db now none = db.devices
sync group_of db now (some ds) =
    let c = copied_all group_of db now ds in
    if c.running && not (is_empty c.numbers) then mark_stale c.numbers c.rows else c.rows
