-- ===== src/Api/Fleet/Counts.antt =====
-- apps/rc-api/src/fleet/fleet.service.ts: what the counts of `health` add up to.
use ukpc_remote_control.Prelude.{
  ℕ, suc, ◌≡◌, ◌+◌, refl, ap, ◌∙◌, String, Bool, true, false, List, [], ◌∷◌, arith, length,
}
use ukpc_remote_control.Shared.Types.{Tier, ready, degraded, not_ready, offline, Readiness}
use ukpc_remote_control.Shared.Keys
use ukpc_remote_control.Shared.Readiness.{compute_readiness}
use ukpc_remote_control.Api.Redis.{Redis}
use ukpc_remote_control.Api.Devices.{JoinedRow}
use ukpc_remote_control.Api.Fleet.{
  Day, row_to_state, Health, no_health, is_reporting, count_missing, count_tier, count_device,
}
use ukpc_remote_control.Api.Fleet.Service.{count_devices, health}

-- the devices in the four tiers
abbrev pub counted : Health → ℕ
counted h = h.ready + (h.degraded + (h.not_ready + h.offline))

counted-count_missing :
    (h : Health) (b : Bool) (row : JoinedRow) → counted (count_missing h b row) ≡ counted h
unfolding count_missing
counted-count_missing h false row = refl
counted-count_missing h true row = refl

counted-count_tier :
    (h : Health) (r : Readiness) (t : Tier) → counted (count_tier h r t) ≡ suc (counted h)
unfolding count_tier
counted-count_tier h r ready = omega arith
counted-count_tier h r degraded = omega arith
counted-count_tier h r not_ready = omega arith
counted-count_tier h r offline = omega arith

counted-count_device :
    (h : Health) (r : Readiness) (row : JoinedRow)
    → counted (count_device h r row) ≡ suc (counted h)
unfolding count_device
counted-count_device h r row =
    let b = is_reporting r.tier row.agent_ver in
    counted-count_tier (count_missing h b row) r r.tier ∙ ap suc (counted-count_missing h b row)

module _ (r : Redis) (locale_lt : String → String → Bool) where
  counted-count_devices :
      (day : Day) (s : r.Store) (h : Health) (rows : List JoinedRow)
      → counted (count_devices r locale_lt day s h rows) ≡ counted h + length rows
  unfolding count_devices
  counted-count_devices day s h [] = omega arith
  counted-count_devices day s h (row ∷ rows) =
      let readiness =
        compute_readiness
          (row_to_state day.number_of row (r.hgetall s (Keys.device row.device_id))) in
      let ih = counted-count_devices day s (count_device h readiness row) rows in
      let one = counted-count_device h readiness row in omega (arith, ih, one)

  -- Every device that is asked about is counted in exactly one tier: the four counts add up to the total.
  pub health_total :
      (day : Day) (s : r.Store) (rows : List JoinedRow)
      → counted (health r locale_lt day s rows).0 ≡ (health r locale_lt day s rows).1
  unfolding health
  health_total day s rows = omega (arith, counted-count_devices day s no_health rows)
