-- ===== src/Api/Fleet/Rollouts.antt =====
-- apps/rc-api/src/fleet/fleet.service.ts: the devices of a bucket of a rollout (`rolloutList`).
use ukpc_remote_control.Prelude.{
  ℕ, ◌≡◌, String, Option, none, some, List, [], ◌∷◌, map, inl, inr, ◌⊎◌, if◌then◌else◌,
}
use ukpc_remote_control.Shared.Dashboard.{DashRow}
use ukpc_remote_control.Shared.Dashboard.Data.{DeviceBrief}
use ukpc_remote_control.Shared.Rollout.{RolloutBucket}
use ukpc_remote_control.Shared.Rollout.Names.{is_valid_version, bucket_named}
use ukpc_remote_control.Shared.Rollout.Buckets.{members}
use ukpc_remote_control.Api.Redis.{Redis}
use ukpc_remote_control.Api.Fleet.Service.{
  Answer, found, unknown_key, BriefWithReasons, split_at_colons, is_rollout_key, is_list_key,
}
use ukpc_remote_control.Shared.Dashboard.Summary.Lists.{listed}
use ukpc_remote_control.Api.Fleet.Listing.{Lists}

-- the devices that a key of a rollout asks for: those of the bucket, by the classification alone
abbrev in_bucket : List DashRow → String → Option RolloutBucket → Option (List String)
in_bucket rows version none = none
in_bucket rows version (some b) = some (members version b rows)

abbrev of_parts : List DashRow → List String → Option (List String)
of_parts rows (prefix ∷ bucket ∷ version ∷ []) =
    if is_valid_version version then in_bucket rows version (bucket_named bucket) else none
of_parts rows _ = none

-- the devices that a key asks for, `none` where it names no list
abbrev pub wanted : List DashRow → ℕ → String → Option (List String)
wanted rows now key =
    if is_rollout_key key
    then of_parts rows (split_at_colons key)
    else if is_list_key key
    then some (listed now key rows)
    else none

-- The answer has a row for each of these devices, in this order, and is a refusal where there is no list.
abbrev pub Answers :
    Option (List String) → Answer (List DeviceBrief ⊎ List BriefWithReasons) → Type 0
Answers (some xs) (found (inl bs)) = map (λ b. b.device_id) bs ≡ xs
Answers (some xs) (found (inr bs)) = map (λ b. b.brief.device_id) bs ≡ xs
Answers none unknown_key = Unit
Answers _ _ = ⊥
