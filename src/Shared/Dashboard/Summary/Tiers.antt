-- ===== src/Shared/Dashboard/Summary/Tiers.antt =====
-- The counts by tier of `summarizeFleet` (packages/shared/src/dashboard.ts) against the lists.
use ukpc_remote_control.Prelude.{
  ℕ, ◌+◌, ◌≡◌, refl, ap, ◌∙◌, String, Bool, Option, none, some, List, [], ◌∷◌, arith, length,
  if◌then◌else◌,
}
use ukpc_remote_control.Shared.Types.{Tier, ready, degraded, not_ready, offline, Caps}
use ukpc_remote_control.Shared.Dashboard.{DashRow}
use ukpc_remote_control.Shared.Dashboard.Rows.{tier_of, connection_keys, permission_keys, row_keys}
use ukpc_remote_control.Shared.Dashboard.Summary.{
  Fleet, same_tier, scan_row, scan_rows, start, size_of, summarize_fleet,
}
use ukpc_remote_control.Shared.Dashboard.Summary.Lists.{listed, device_lists}
use ukpc_remote_control.Shared.Dashboard.Summary.Counting.{count, IsPlain, count_plain}
use ukpc_remote_control.Shared.Dashboard.Summary.Totals.{tier_key, length-listed}

tier_key-IsPlain : (t : Tier) → IsPlain (tier_key t)
tier_key-IsPlain ready = record {
  no_net = (refl, (refl, (refl, tt)));
  no_power = (refl, (refl, (refl, tt)));
  no_hardware = (refl, (refl, (refl, (refl, (refl, (refl, (refl, (refl, (refl, tt)))))))));
  no_other = (refl, (refl, (refl, (refl, tt))));
  no_ver = refl;
}
tier_key-IsPlain degraded = record {
  no_net = (refl, (refl, (refl, tt)));
  no_power = (refl, (refl, (refl, tt)));
  no_hardware = (refl, (refl, (refl, (refl, (refl, (refl, (refl, (refl, (refl, tt)))))))));
  no_other = (refl, (refl, (refl, (refl, tt))));
  no_ver = refl;
}
tier_key-IsPlain not_ready = record {
  no_net = (refl, (refl, (refl, tt)));
  no_power = (refl, (refl, (refl, tt)));
  no_hardware = (refl, (refl, (refl, (refl, (refl, (refl, (refl, (refl, (refl, tt)))))))));
  no_other = (refl, (refl, (refl, (refl, tt))));
  no_ver = refl;
}
tier_key-IsPlain offline = record {
  no_net = (refl, (refl, (refl, tt)));
  no_power = (refl, (refl, (refl, tt)));
  no_hardware = (refl, (refl, (refl, (refl, (refl, (refl, (refl, (refl, (refl, tt)))))))));
  no_other = (refl, (refl, (refl, (refl, tt))));
  no_ver = refl;
}

tier_key-tier_key :
    (u t : Tier) → count (tier_key t) (tier_key u ∷ []) ≡ (if same_tier u t then 1 else 0)
tier_key-tier_key ready ready = refl
tier_key-tier_key ready degraded = refl
tier_key-tier_key ready not_ready = refl
tier_key-tier_key ready offline = refl
tier_key-tier_key degraded ready = refl
tier_key-tier_key degraded degraded = refl
tier_key-tier_key degraded not_ready = refl
tier_key-tier_key degraded offline = refl
tier_key-tier_key not_ready ready = refl
tier_key-tier_key not_ready degraded = refl
tier_key-tier_key not_ready not_ready = refl
tier_key-tier_key not_ready offline = refl
tier_key-tier_key offline ready = refl
tier_key-tier_key offline degraded = refl
tier_key-tier_key offline not_ready = refl
tier_key-tier_key offline offline = refl

connection_keys-tier :
    (now : ℕ) (r : DashRow) (t : Tier) → count (tier_key t) (connection_keys now r) ≡ 0
unfolding connection_keys
connection_keys-tier now r ready = ground arith
connection_keys-tier now r degraded = ground arith
connection_keys-tier now r not_ready = ground arith
connection_keys-tier now r offline = ground arith

permission_keys-tier :
    (caps : Option Caps) (t : Tier) → count (tier_key t) (permission_keys caps) ≡ 0
unfolding permission_keys
permission_keys-tier none ready = refl
permission_keys-tier (some c) ready = ground arith
permission_keys-tier none degraded = refl
permission_keys-tier (some c) degraded = ground arith
permission_keys-tier none not_ready = refl
permission_keys-tier (some c) not_ready = ground arith
permission_keys-tier none offline = refl
permission_keys-tier (some c) offline = ground arith

row_tier :
    (now : ℕ) (r : DashRow) (t : Tier)
    → count (tier_key t) (row_keys now r) ≡ (if same_tier (tier_of r) t then 1 else 0)
row_tier now r t =
    count_plain (tier_key t) now r (tier_key-IsPlain t)
    ∙ omega (arith, connection_keys-tier now r t, permission_keys-tier r.caps t)
    ∙ tier_key-tier_key (tier_of r) t

scan_rows-tiers :
    (now : ℕ) (t : Tier) (f : Fleet) (rows : List DashRow)
    → (scan_rows now f rows).tiers t ≡ f.tiers t + length (listed now (tier_key t) rows)
unfolding scan_rows scan_row
scan_rows-tiers now t f [] = omega arith
scan_rows-tiers now t f (r ∷ rs) =
    scan_rows-tiers now t (scan_row now f r) rs
    ∙ ground (arith, row_tier now r t, length-listed now (tier_key t) r rs)

module _ (locale_lt : String → String → Bool) where
  -- The count of a tier is the number of devices in the list of this tier.
  pub tier_counts :
      (rows : List DashRow) (now max_attention : ℕ) (t : Tier)
      → let d = summarize_fleet locale_lt rows now max_attention in
        d.tiers t ≡ size_of d.lists (tier_key t)
  unfolding summarize_fleet
  tier_counts rows now max_attention t = omega (
    arith,
    scan_rows-tiers now t start rows,
    ap length (device_lists locale_lt rows now max_attention (tier_key t)),
  )
