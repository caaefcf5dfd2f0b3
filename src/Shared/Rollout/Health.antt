-- ===== src/Shared/Rollout/Health.antt =====
-- Which devices `healthProblems` (packages/shared/src/rollout.ts) finds healthy, and for which
-- `summarizeRollout` gives reasons.
use ukpc_remote_control.Prelude.{
  ℕ, ◌<◌, String, Bool, false, ◌&&◌, ◌||◌, ◌≡◌, ◌≢◌, ◌↔◌, ◌⊎◌, refl, Option, none, some, List, [],
  ◌∷◌, arith, any, is_some, lookup, lookup-insert, ◌==◌, num, num_le, get_or,
}
use ukpc_remote_control.Shared.Types.{not_ready, HwVolatile, truthy}
use ukpc_remote_control.Shared.Readiness.{compute_readiness}
use ukpc_remote_control.Shared.Dashboard.{DashRow, to_state}
use ukpc_remote_control.Shared.Dashboard.Limits
use ukpc_remote_control.Shared.Rollout.{
  updated_unhealthy, same_bucket, bucket_of, lacks_a11y, panel_is_off, is_zero, reports_hw,
  non_empty, hw_problems, health_problems, Progress, place_row, place_rows, start,
  summarize_rollout,
}

-- The readings of a healthy device; an agent that sends none must be too old to send any.
abbrev pub ReadsWell : DashRow → Option HwVolatile → Type 0
ReadsWell r none = reports_hw (non_empty r.agent_ver) ≡ false
ReadsWell r (some hw) =
    (num_le (num Limits.lag_ms) (get_or hw.main_lag_ms (num 0)) ≡ false)
    × ((truthy r.volatile.screen_on ≡ false) ⊎ (panel_is_off hw.display ≡ false))
    × (is_zero hw.touch_devs ≡ false)

pub record IsHealthy (r : DashRow) : Type 0 where
  pub usable : (compute_readiness (to_state r)).tier ≢ not_ready
  pub accessible : lacks_a11y r.caps ≡ false
  pub stable : r.drops24h < Limits.flapping_drops
  pub reads : ReadsWell r r.hw

reads_of : (r : DashRow) (o : Option HwVolatile) → hw_problems r o ≡ [] → ReadsWell r o
unfolding hw_problems
reads_of r none h = ground arith
reads_of r (some hw) h = (ground arith, ground arith, ground arith)

problems_of : (r : DashRow) (o : Option HwVolatile) → ReadsWell r o → hw_problems r o ≡ []
unfolding hw_problems
problems_of r none h = ground arith
problems_of r (some hw) h = ground arith

no_problems : (r : DashRow) → health_problems r ≡ [] → IsHealthy r
unfolding health_problems
no_problems r h = record {
  usable = λ e. ground arith;
  accessible = ground arith;
  stable = ground arith;
  reads = reads_of r r.hw (ground arith);
}

-- No problem is reported exactly for a healthy device.
pub IsHealthy-iff : (r : DashRow) → (health_problems r ≡ []) ↔ IsHealthy r
unfolding health_problems
IsHealthy-iff r = (no_problems r, λ h. ground (arith, problems_of r r.hw h.reads))

module _ (target : String) where
  abbrev pub unhealthy_at : String → DashRow → Bool
  unhealthy_at id r = r.device_id == id && same_bucket (bucket_of target r) updated_unhealthy

  place_row-reasons :
      (p : Progress) (r : DashRow) (id : String)
      → is_some (lookup id (place_row target p r).reasons)
        ≡ (unhealthy_at id r || is_some (lookup id p.reasons))
  unfolding place_row
  place_row-reasons p r id =
      ground (arith, lookup-insert r.device_id id (health_problems r) p.reasons)

  place_rows-reasons :
      (rows : List DashRow) (p : Progress) (id : String)
      → is_some (lookup id (place_rows target p rows).reasons)
        ≡ (any (unhealthy_at id) rows || is_some (lookup id p.reasons))
  unfolding place_rows
  place_rows-reasons [] p id = refl
  place_rows-reasons (r ∷ rs) p id =
      ground (arith, place_rows-reasons rs (place_row target p r) id, place_row-reasons p r id)

-- Reasons are given for a device id exactly when a row with that id is in the bucket of updated but
-- unhealthy devices.
pub reasons_iff :
    (rows : List DashRow) (target : String) (now : ℕ) (id : String)
    → is_some (lookup id (summarize_rollout rows target now).reasons)
      ≡ any (unhealthy_at target id) rows
unfolding summarize_rollout lookup
reasons_iff rows target now id = rw (place_rows-reasons target rows start id) (ground arith)
