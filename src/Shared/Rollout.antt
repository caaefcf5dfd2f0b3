-- ===== src/Shared/Rollout.antt =====
-- packages/shared/src/rollout.ts: the progress of an agent update over the fleet.
pub mod Health
pub mod Buckets
pub mod Versions
pub mod Names
use ukpc_remote_control.Prelude.{
  ℕ, suc, ◌+◌, ◌*◌, ◌/◌, String, Bool, true, false, not, ◌&&◌, ◌||◌, ◌==◌, Option, none, some, List,
  [], ◌∷◌, ◌++◌, map, Number, num, num_le, num_eq, ltb, leb, nat_eq, get_or, is_some, is_empty,
  length, push_if, lookup, insert, sort_by, if◌then◌else◌,
}
use ukpc_remote_control.Shared.Types.{not_ready, Tier, Caps, HwVolatile, DeviceState, truthy}
use ukpc_remote_control.Shared.Semver.{semver_lt}
use ukpc_remote_control.Shared.Readiness.{compute_readiness}
use ukpc_remote_control.Shared.Dashboard.{DashRow, no_caps}
use ukpc_remote_control.Shared.Dashboard.Limits

pub data RolloutBucket : Type 0 where
  done updated_unhealthy updated_offline pending_online pending_offline unknown : RolloutBucket

-- `ROLLOUT_BUCKETS`
abbrev pub rollout_buckets : List RolloutBucket
rollout_buckets =
    done ∷ updated_unhealthy ∷ updated_offline ∷ pending_online ∷ pending_offline ∷ unknown ∷ []

-- the place of a bucket in `ROLLOUT_BUCKETS`
abbrev pub place : RolloutBucket → ℕ
place done = 0
place updated_unhealthy = 1
place updated_offline = 2
place pending_online = 3
place pending_offline = 4
place unknown = 5

abbrev pub same_bucket : RolloutBucket → RolloutBucket → Bool
same_bucket a b = nat_eq (place a) (place b)

pub record Rollout : Type 0 where
  pub target : String
  pub suggested_target : Option String
  pub generated_at : ℕ
  pub total : ℕ
  pub counts : RolloutBucket → ℕ
  pub percent_done : ℕ  -- in tenths of a percent: the source divides it by 10 at the end
  pub complete : Bool
  pub versions : List (String × ℕ)
  pub buckets : RolloutBucket → List String
  pub reasons : List (String × List String)

abbrev pub at_or_above : String → String → Bool
at_or_above ver target = not (semver_lt ver target)

-- `if (ver)`: an empty text counts as none
abbrev pub non_empty : Option String → Option String
non_empty none = none
non_empty (some s) = if s == "" then none else some s

state_of : DashRow → DeviceState
state_of r = record {
  online = r.online;
  agent_ver = get_or r.agent_ver "0.0.0";
  caps = get_or r.caps no_caps;
  volatile = record {
    screen_on = get_or r.volatile.screen_on false;
    charging = get_or r.volatile.charging false;
    battery_pct = get_or r.volatile.battery_pct (num 0);
    net = get_or r.volatile.net "unknown";
    rssi = get_or r.volatile.rssi (num 0);
  };
  needs_reprovisioning = some r.needs_reprovisioning;
}

abbrev pub is_not_ready : Tier → Bool
is_not_ready not_ready = true
is_not_ready _ = false

-- `r.caps && !r.caps.a11y`
abbrev pub lacks_a11y : Option Caps → Bool
lacks_a11y none = false
lacks_a11y (some c) = not c.a11y

-- `x !== undefined && [1, 3, 4].includes(x)`
abbrev pub panel_is_off : Option Number → Bool
panel_is_off none = false
panel_is_off (some n) = num_eq n (num 1) || num_eq n (num 3) || num_eq n (num 4)

-- `x === 0`
abbrev pub is_zero : Option Number → Bool
is_zero none = false
is_zero (some n) = num_eq n (num 0)

-- `r.agentVer && atOrAbove(r.agentVer, '1.4.7')`
abbrev pub reports_hw : Option String → Bool
reports_hw none = false
reports_hw (some v) = at_or_above v "1.4.7"

hw_problems : DashRow → Option HwVolatile → List String
hw_problems r none = push_if (reports_hw (non_empty r.agent_ver)) "NO_HW_DATA"
hw_problems r (some hw) =
    push_if (num_le (num Limits.lag_ms) (get_or hw.main_lag_ms (num 0))) "LAG"
    ++ (push_if (truthy r.volatile.screen_on && panel_is_off hw.display) "PANEL_OFF"
        ++ push_if (is_zero hw.touch_devs) "TOUCH_GONE")

unfoldable pub health_problems : DashRow → List String
unfolding state_of hw_problems
health_problems r =
    push_if (is_not_ready (compute_readiness (state_of r)).tier) "NOT_READY"
    ++ (push_if (lacks_a11y r.caps) "NO_ACCESSIBILITY"
        ++ (push_if (leb Limits.flapping_drops r.drops24h) "FLAPPING" ++ hw_problems r r.hw))

-- the branches of the loop of `summarizeRollout` that choose the bucket of a row
bucket_of_ver : String → DashRow → Option String → RolloutBucket
bucket_of_ver target r none = unknown
bucket_of_ver target r (some ver) =
    if at_or_above ver target
    then if not r.online
      then updated_offline
      else if is_empty (health_problems r)
      then done
      else updated_unhealthy
    else if r.online
    then pending_online
    else pending_offline

unfoldable pub bucket_of : String → DashRow → RolloutBucket
unfolding bucket_of_ver
bucket_of target r = bucket_of_ver target r (non_empty r.agent_ver)

-- the variables of the loop
pub record Progress : Type 0 where
  pub buckets : RolloutBucket → List String
  pub reasons : List (String × List String)
  pub versions : List (String × ℕ)
  pub suggested : Option String

-- `buckets[bucket].push(id)`
abbrev push_to :
    RolloutBucket → String → (RolloutBucket → List String) → RolloutBucket → List String
push_to b id buckets c = if same_bucket b c then buckets c ++ id ∷ [] else buckets c

-- `if (suggested === null || semverLt(suggested, ver)) suggested = ver`
suggest : Option String → String → Option String
suggest none ver = some ver
suggest (some s) ver = if semver_lt s ver then some ver else some s

count_version : Option String → Progress → Progress
unfolding suggest
count_version none p = p
count_version (some ver) p = record p {
  versions = insert ver (suc (get_or (lookup ver p.versions) 0)) p.versions;
  suggested = suggest p.suggested ver;
}

-- `reasons[r.deviceId] = problems` in the branch of an unhealthy device
abbrev note_reasons :
    RolloutBucket → DashRow → List (String × List String) → List (String × List String)
note_reasons updated_unhealthy r reasons = insert r.device_id (health_problems r) reasons
note_reasons _ r reasons = reasons

-- one round of the loop
place_row : String → Progress → DashRow → Progress
unfolding count_version
place_row target p r =
    let b = bucket_of target r in
    let q = count_version (non_empty r.agent_ver) p in
    record q { buckets = push_to b r.device_id q.buckets; reasons = note_reasons b r q.reasons }

pub place_rows : String → Progress → List DashRow → Progress
unfolding place_row
place_rows target p [] = p
place_rows target p (r ∷ rs) = place_rows target (place_row target p r) rs

abbrev pub start : Progress
start = record { buckets = λ b. []; reasons = []; versions = []; suggested = none }

-- the comparator `(a, b) => (semverLt(a.version, b.version) ? 1 : -1)` is negative
abbrev newer_first : String × ℕ → String × ℕ → Bool
newer_first a b = not (semver_lt a.0 b.0)

unfoldable pub summarize_rollout : List DashRow → String → ℕ → Rollout
unfolding place_rows
summarize_rollout rows target now =
    let p = place_rows target start rows in
    let total = length rows in
    let done_count = length (p.buckets done) in
    record {
      target = target;
      suggested_target = p.suggested;
      generated_at = now;
      total = total;
      counts = λ b. length (p.buckets b);
      percent_done = if nat_eq total 0 then 0 else done_count * 1000 / total;
      complete = ltb 0 total && nat_eq done_count total;
      versions = sort_by newer_first p.versions;
      buckets = p.buckets;
      reasons = p.reasons;
    }
