-- ===== src/Shared/Rollout/Buckets.antt =====
-- The buckets of `summarizeRollout` (packages/shared/src/rollout.ts) divide the fleet.
use ukpc_remote_control.Prelude.{
  ℕ, suc, ◌+◌, ◌*◌, ◌/◌, ◌≤◌, ◌<◌, String, Bool, true, ◌≡◌, ◌↔◌, ◌≢◌, refl, ap, sym, none, some,
  List, [], ◌∷◌, ◌++◌, map, length, filter, append-nil, append_assoc, arith, All, Bool-cases,
  Option-cases, inl, inr, eq_iff, if◌then◌else◌,
}
use ukpc_remote_control.Shared.Semver.{parse}
use ukpc_remote_control.Shared.Semver.Order.{LexLt, semver_lt_iff}
use ukpc_remote_control.Shared.Dashboard.{DashRow}
use ukpc_remote_control.Shared.Rollout.{
  RolloutBucket, done, updated_unhealthy, updated_offline, pending_online, pending_offline, unknown,
  same_bucket, bucket_of, health_problems, Progress, place_row, place_rows, start,
  summarize_rollout,
}

-- the devices of a bucket, by the classification alone
abbrev pub members : String → RolloutBucket → List DashRow → List String
members target b rows =
    map (λ r. r.device_id) (filter (λ r. same_bucket (bucket_of target r) b) rows)

module _ (target : String) where
  count_version-buckets :
      (p : Progress) (r : DashRow) (b : RolloutBucket)
      → (place_row target p r).buckets b ≡ (
          if same_bucket (bucket_of target r) b
          then p.buckets b ++ r.device_id ∷ []
          else p.buckets b)
  unfolding place_row
  count_version-buckets p r b = ground arith

  place_rows-buckets :
      (rows : List DashRow) (p : Progress) (b : RolloutBucket)
      → (place_rows target p rows).buckets b ≡ p.buckets b ++ members target b rows
  unfolding place_rows
  place_rows-buckets [] p b = sym (append-nil (p.buckets b))
  place_rows-buckets (r ∷ rs) p b =
      rw (place_rows-buckets rs (place_row target p r) b, count_version-buckets p r b)
        (elim (Bool-cases (same_bucket (bucket_of target r) b)) [
          | inl e ↦ rw e (append_assoc (p.buckets b) (r.device_id ∷ []) _)
          | inr e ↦ rw e
        ])

  members_sum :
      (rows : List DashRow)
      → length (members target done rows)
          + length (members target updated_unhealthy rows)
          + length (members target updated_offline rows)
          + length (members target pending_online rows)
          + length (members target pending_offline rows)
          + length (members target unknown rows)
        ≡ length rows
  members_sum [] = omega arith
  members_sum (r ∷ rs) = ground (arith, members_sum rs)

-- The update is done on a device: it reports a version that is not below the target, it is online,
-- and no sign of trouble is found.
pub record IsDone (target : String) (r : DashRow) : Type 0 where
  pub ver : String
  pub reported : r.agent_ver ≡ some ver
  pub named : ver ≢ ""
  pub at_target : ¬ LexLt (parse ver) (parse target)
  pub online : r.online ≡ true
  pub healthy : health_problems r ≡ []

abbrev is_done : RolloutBucket → Bool
is_done b = same_bucket b done

IsDone-of_bucket :
    (target : String) (r : DashRow) → is_done (bucket_of target r) ≡ true → IsDone target r
unfolding bucket_of
IsDone-of_bucket target r h = elim (Option-cases r.agent_ver) [
  | inl e ↦ absurd (missing e)
  | inr (v, e) ↦ record {
    ver = v;
    reported = e;
    named = λ p. absurd (ground (arith, eq_iff v ""));
    at_target = λ l. ground (arith, (semver_lt_iff v target).1 l);
    online = ground arith;
    healthy = ground arith;
  }
]
  where
    missing : r.agent_ver ≡ none → ⊥
    missing e = ground arith

bucket-of_IsDone :
    (target : String) (r : DashRow) → IsDone target r → is_done (bucket_of target r) ≡ true
unfolding bucket_of
bucket-of_IsDone target r d = ground (
  arith,
  d.reported,
  eq_iff d.ver "",
  d.named,
  d.online,
  d.healthy,
  (semver_lt_iff d.ver target).0,
)

members-le :
    (target : String) (b : RolloutBucket) (rows : List DashRow)
    → length (members target b rows) ≤ length rows
members-le target b [] = omega arith
members-le target b (r ∷ rs) = ground (arith, members-le target b rs)

members-All :
    (target : String) (rows : List DashRow)
    → length (members target done rows) ≡ length rows
    → All (IsDone target) rows
members-All target [] h = tt
members-All target (r ∷ rs) h = (
  IsDone-of_bucket target r (ground (arith, members-le target done rs)),
  members-All target rs (ground (arith, members-le target done rs)),
)

All-members :
    (target : String) (rows : List DashRow)
    → All (IsDone target) rows
    → length (members target done rows) ≡ length rows
All-members target [] h = refl
All-members target (r ∷ rs) h =
    rw (bucket-of_IsDone target r h.0) (ap suc (All-members target rs h.1))

permille_le : (d t : ℕ) → 0 < t → d ≤ t → d * 1000 / t ≤ 1000
permille_le d t p h = grind arith

permille_lt : (d t : ℕ) → 0 < t → d < t → d * 1000 / t < 1000
permille_lt d t p h = grind arith

permille_eq : (d t : ℕ) → 0 < t → d ≡ t → d * 1000 / t ≡ 1000
permille_eq d t p h = grind arith

module _ (rows : List DashRow) (target : String) (now : ℕ) where
  -- Every bucket holds the ids of exactly the rows that the classification puts there, in the order
  -- of the rows.
  pub buckets_lem :
      (b : RolloutBucket) → (summarize_rollout rows target now).buckets b ≡ members target b rows
  unfolding summarize_rollout
  buckets_lem b = place_rows-buckets target rows start b

  -- The six counts add up to the number of rows: no device is lost or counted twice.
  pub counts_sum :
      let s = summarize_rollout rows target now in
      s.counts done
        + s.counts updated_unhealthy
        + s.counts updated_offline
        + s.counts pending_online
        + s.counts pending_offline
        + s.counts unknown
      ≡ s.total
  unfolding summarize_rollout
  counts_sum = simp (place_rows-buckets target rows start) (members_sum target rows)

  -- A rollout is reported complete exactly when there is a device and the update is done on each.
  pub complete_iff :
      ((summarize_rollout rows target now).complete ≡ true)
      ↔ ((rows ≢ []) × All (IsDone target) rows)
  unfolding summarize_rollout
  complete_iff = (
    λ h. (
      λ e. complete_empty (rw e at h),
      members-All target rows (ground (arith, place_rows-buckets target rows start done)),
    ),
    λ h. complete_full h.0 (All-members target rows h.1),
  )
    where
      complete_empty : (summarize_rollout [] target now).complete ≡ true → ⊥
      complete_empty h = ground arith

      complete_full :
          rows ≢ []
          → length (members target done rows) ≡ length rows
          → (summarize_rollout rows target now).complete ≡ true
      complete_full ne e = ground (arith, place_rows-buckets target rows start done)

  -- The percentage, in tenths, is at most 1000, and for a fleet that is not empty it is 1000 exactly
  -- when the rollout is complete.
  pub percent_done_bounds :
      let s = summarize_rollout rows target now in
      (s.percent_done ≤ 1000) × ((s.percent_done ≡ 1000) ↔ (s.complete ≡ true))
  unfolding summarize_rollout
  percent_done_bounds =
      let d = length (members target done rows) in
      let t = length rows in
      simp (place_rows-buckets target rows start) (
        ground
          (arith, members-le target done rows, permille_le d t, permille_lt d t, permille_eq d t))
