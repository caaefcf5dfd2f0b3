-- ===== src/Api/Fleet/Service.antt =====
-- apps/rc-api/src/fleet/fleet.service.ts: the answers for an operator.
--
-- `rows` are the rows of the query on devices that are not stale and that the operator may see, in the
-- order that Postgres gives them; `load` reads the hash of each from Redis. A listing that reads a field of
-- `undefined` is `crashed`.

use Prim.Native.Char.{code}
use ukpc_remote_control.Prelude.{
  ℕ, ◌⊎◌, inl, inr, is_some, String, Bool, false, not, ◌&&◌, ◌||◌, ◌==◌, Option, none, some, List,
  [], ◌∷◌, map, get_or, length, all, includes, codes, leb, ltb, nat_eq, Dict, lookup, insert,
  if◌then◌else◌,
}
use ukpc_remote_control.Shared.Keys
use ukpc_remote_control.Shared.Readiness.{compute_readiness}
use ukpc_remote_control.Shared.Dashboard.{DashRow}
use ukpc_remote_control.Shared.Dashboard.Data.{DashboardData, DeviceBrief}
use ukpc_remote_control.Shared.Dashboard.Summary.{summarize_fleet, brief_of}
use ukpc_remote_control.Shared.Rollout.{RolloutBucket, Rollout, summarize_rollout}
use ukpc_remote_control.Shared.Rollout.Names.{is_valid_version, bucket_named}
use ukpc_remote_control.Api.Redis.{Redis}
use ukpc_remote_control.Api.Devices.{JoinedRow}
use ukpc_remote_control.Api.Fleet.{Day, dash_row, row_to_state, Health, no_health, count_device}

abbrev pub known_list_keys : List String
known_list_keys =
    "online" ∷ "offline" ∷ "offlineOver24h" ∷ "neverSeen" ∷ "notReady" ∷ "flapping"
    ∷ "permissionsComplete" ∷ "permissionsIncomplete" ∷ "permissionsUnknown"
    ∷ "missingSecureSettings" ∷ "missingA11y" ∷ "missingOverlay" ∷ "lagging" ∷ "hot" ∷ "lowMem"
    ∷ "lowDisk" ∷ "panelOff" ∷ "touchGone" ∷ "noHwData" ∷ "uiIdle6h" ∷ "uiIdle24h" ∷ "noSession7d"
    ∷ "lowBattery" ∷ "notCharging" ∷ "weakSignal" ∷ "wifi" ∷ "cellular" ∷ "ethernet" ∷ "outdated"
    ∷ "tier:READY" ∷ "tier:DEGRADED" ∷ "tier:NOT_READY" ∷ "tier:OFFLINE" ∷ []

-- `\w`, `.` and `-`
abbrev is_name_char : ℕ → Bool
is_name_char c =
    (leb b'0' c && leb c b'9')
    || (leb b'A' c && leb c b'Z')
    || (leb b'a' c && leb c b'z')
    || nat_eq c b'_'
    || nat_eq c b'.'
    || nat_eq c b'-'

abbrev after_prefix : List ℕ → List ℕ → Option (List ℕ)
after_prefix [] s = some s
after_prefix (x ∷ xs) [] = none
after_prefix (x ∷ xs) (y ∷ ys) = if nat_eq x y then after_prefix xs ys else none

abbrev is_name : Option (List ℕ) → Bool
is_name none = false
is_name (some s) = ltb 0 (length s) && leb (length s) 32 && all is_name_char s

-- `KNOWN_LIST_KEYS.has(key) || /^ver:[\w.\-]{1,32}$/.test(key)`
unfoldable pub is_list_key : String → Bool
is_list_key key = includes known_list_keys key || is_name (after_prefix (codes "ver:") (codes key))

pub record BriefWithReasons : Type 0 where
  pub brief : DeviceBrief
  pub reasons : List String

pub data Answer {ℓ} (A : Type ℓ) : Type ℓ where
  found : A → Answer A
  unknown_key : Answer A
  bad_target : Answer A
  crashed : Answer A

-- `new Map(rows.map(r => [r.deviceId, r]))`
unfoldable pub by_id : List DashRow → Dict DashRow → Dict DashRow
by_id [] table = table
by_id (r ∷ rs) table = by_id rs (insert r.device_id r table)

unfoldable pub cons_brief : Option DashRow → Option (List DeviceBrief) → Option (List DeviceBrief)
cons_brief (some row) (some rest) = some (brief_of row ∷ rest)
cons_brief _ _ = none

-- `ids.map(id => briefOf(byId.get(id)!))`, `none` if one of them is not in the map
unfoldable pub briefs : Dict DashRow → List String → Option (List DeviceBrief)
unfolding cons_brief
briefs table [] = some []
briefs table (id ∷ rest) = cons_brief (lookup id table) (briefs table rest)

abbrev pub answer_of {ℓ} : {A : Type ℓ} → Option A → Answer A
answer_of none = crashed
answer_of (some x) = found x

-- a label that is not empty
abbrev named : DashRow → Option String → Dict String → Dict String
named r none names = names
named r (some label) names = if label == "" then names else insert r.device_id label names

unfoldable pub names_of : List DashRow → Dict String → Dict String
names_of [] names = names
names_of (r ∷ rs) names = names_of rs (named r r.label names)

-- `suggestedTarget || '0.0.0'` and `targetRaw || …`
abbrev suggested_or : Option String → String
suggested_or none = "0.0.0"
suggested_or (some s) = if s == "" then "0.0.0" else s

abbrev pub target_of : Option String → Option String → String
target_of none suggested = suggested_or suggested
target_of (some raw) suggested = if raw == "" then suggested_or suggested else raw

abbrev is_bad : Option String → Bool
is_bad none = false
is_bad (some raw) = not (raw == "") && not (is_valid_version raw)

unfoldable pub with_reasons :
    List (String × List String) → List String → List DeviceBrief → List BriefWithReasons
with_reasons reasons (id ∷ rest) (b ∷ bs) =
    record { brief = b; reasons = get_or (lookup id reasons) [] } ∷ with_reasons reasons rest bs
with_reasons reasons _ _ = []

-- `key.startsWith('rollout:')`
unfoldable pub is_rollout_key : String → Bool
is_rollout_key key = is_some (after_prefix (codes "rollout:") (codes key))

-- a character before the first of the parts
abbrev onto_part : (String → String) → List String → List String
onto_part f [] = f "" ∷ []
onto_part f (part ∷ parts) = f part ∷ parts

unfoldable pub split_at_colons : String → List String
split_at_colons String.[] = "" ∷ []
split_at_colons (String.◌∷◌ c s) =
    let rest = split_at_colons s in
    if nat_eq (code c) b':' then "" ∷ rest else onto_part (String.◌∷◌ c) rest

abbrev pub as_listed {ℓ κ} : {A : Type ℓ} {B : Type κ} → (A → B) → Answer A → Answer B
as_listed f (found x) = found (f x)
as_listed f unknown_key = unknown_key
as_listed f bad_target = bad_target
as_listed f crashed = crashed

module _ (r : Redis) (locale_lt : String → String → Bool) where
  unfoldable pub load : Day → r.Store → List JoinedRow → List DashRow
  load day s rows = map (λ row. dash_row day row (r.hgetall s (Keys.device row.device_id))) rows

  unfoldable pub dashboard : List DashRow → ℕ → ℕ → DashboardData × Dict String
  unfolding names_of
  dashboard rows now max_attention =
      (summarize_fleet locale_lt rows now max_attention, names_of rows [])

  unfoldable pub rollout : List DashRow → ℕ → Option String → Answer (Rollout × ℕ)
  rollout rows now raw =
      if is_bad raw
      then bad_target
      else let target = target_of raw (summarize_rollout rows "0.0.0" now).suggested_target in
        let progress = summarize_rollout rows target now in
        found (progress, length progress.reasons)

  unfoldable pub list_bucket :
      List DashRow → ℕ → Option RolloutBucket → String → Answer (List BriefWithReasons)
  unfolding with_reasons
  list_bucket rows now none version = unknown_key
  list_bucket rows now (some b) version =
      let progress = summarize_rollout rows version now in
      let found_ids = progress.buckets b in
      answer_of (elim (briefs (by_id rows []) found_ids) [
        | none ↦ none
        | some bs ↦ some (with_reasons progress.reasons found_ids bs)
      ])

  -- the parts of the key `rollout:<bucket>:<version>`; a name of a bucket is of letters
  unfoldable pub list_parts : List DashRow → ℕ → List String → Answer (List BriefWithReasons)
  unfolding list_bucket
  list_parts rows now (prefix ∷ bucket ∷ version ∷ []) =
      if is_valid_version version
      then list_bucket rows now (bucket_named bucket) version
      else unknown_key
  list_parts rows now _ = unknown_key

  -- `rolloutList`
  unfoldable pub rollout_list : List DashRow → ℕ → String → Answer (List BriefWithReasons)
  unfolding list_parts split_at_colons
  rollout_list rows now key = list_parts rows now (split_at_colons key)

  -- `dashboardList`, with the reasons where the key is one of a rollout
  unfoldable pub dashboard_list :
      List DashRow → ℕ → String → Answer (List DeviceBrief ⊎ List BriefWithReasons)
  dashboard_list rows now key =
      if is_rollout_key key
      then as_listed inr (rollout_list rows now key)
      else if is_list_key key
      then as_listed inl (
          answer_of (
            briefs (by_id rows [])
              (get_or (lookup key (summarize_fleet locale_lt rows now 0).lists) [])))
      else unknown_key

  -- the loop of `health`
  unfoldable pub count_devices : Day → r.Store → Health → List JoinedRow → Health
  count_devices day s h [] = h
  count_devices day s h (row ∷ rows) =
      let hash = r.hgetall s (Keys.device row.device_id) in
      count_devices day s
        (count_device h (compute_readiness (row_to_state day.number_of row hash)) row) rows

  -- the counts and their total
  unfoldable pub health : Day → r.Store → List JoinedRow → Health × ℕ
  unfolding count_devices
  health day s rows = (count_devices day s no_health rows, length rows)
