-- ===== src/Shared/Dashboard/Summary/Totals.antt =====
-- The totals of `summarizeFleet` (packages/shared/src/dashboard.ts) against the lists behind them.
use ukpc_remote_control.Prelude.{
  ℕ, ◌+◌, ◌≡◌, refl, ap, ◌∙◌, String, Bool, ◌+s◌, Option, none, some, List, [], ◌∷◌, arith, length,
  length-append, length-filter-le, filter, is_some, if◌then◌else◌,
}
use ukpc_remote_control.Shared.Types.{Tier, ready, degraded, not_ready, offline, Caps}
use ukpc_remote_control.Shared.Dashboard.{DashRow}
use ukpc_remote_control.Shared.Dashboard.Rows.{
  tier_name, tier_of, connection_keys, permission_keys, row_keys,
}
use ukpc_remote_control.Shared.Dashboard.Summary.{has_caps, summarize_fleet}
use ukpc_remote_control.Shared.Dashboard.Summary.Lists.{copies, listed, device_lists}
use ukpc_remote_control.Shared.Dashboard.Summary.Counting.{
  count, length-copies, IsPlain, count_plain,
}

pub length-listed :
    (now : ℕ) (key : String) (r : DashRow) (rs : List DashRow)
    → length (listed now key (r ∷ rs)) ≡ count key (row_keys now r) + length (listed now key rs)
length-listed now key r rs = omega (
  arith,
  length-append (copies key (row_keys now r) r.device_id) (listed now key rs),
  length-copies key r.device_id (row_keys now r),
)

abbrev pub tier_key : Tier → String
tier_key t = "tier:" +s tier_name t

-- online and offline

online-IsPlain : IsPlain "online"
online-IsPlain = record {
  no_net = (refl, (refl, (refl, tt)));
  no_power = (refl, (refl, (refl, tt)));
  no_hardware = (refl, (refl, (refl, (refl, (refl, (refl, (refl, (refl, (refl, tt)))))))));
  no_other = (refl, (refl, (refl, (refl, tt))));
  no_ver = refl;
}

offline-IsPlain : IsPlain "offline"
offline-IsPlain = record {
  no_net = (refl, (refl, (refl, tt)));
  no_power = (refl, (refl, (refl, tt)));
  no_hardware = (refl, (refl, (refl, (refl, (refl, (refl, (refl, (refl, (refl, tt)))))))));
  no_other = (refl, (refl, (refl, (refl, tt))));
  no_ver = refl;
}

tier_key-connection :
    (t : Tier) → (count "online" (tier_key t ∷ []) ≡ 0) × (count "offline" (tier_key t ∷ []) ≡ 0)
tier_key-connection ready = (refl, refl)
tier_key-connection degraded = (refl, refl)
tier_key-connection not_ready = (refl, refl)
tier_key-connection offline = (refl, refl)

permission_keys-connection :
    (caps : Option Caps)
    → (count "online" (permission_keys caps) ≡ 0) × (count "offline" (permission_keys caps) ≡ 0)
unfolding permission_keys
permission_keys-connection none = (refl, refl)
permission_keys-connection (some c) = (ground arith, ground arith)

connection_keys-connection :
    (now : ℕ) (r : DashRow)
    → count "online" (connection_keys now r) + count "offline" (connection_keys now r) ≡ 1
unfolding connection_keys
connection_keys-connection now r = ground arith

row_connection :
    (now : ℕ) (r : DashRow) → count "online" (row_keys now r) + count "offline" (row_keys now r) ≡ 1
row_connection now r =
    let (a, b) = tier_key-connection (tier_of r) in
    let (c, d) = permission_keys-connection r.caps in
    omega (
      arith,
      a,
      b,
      c,
      d,
      connection_keys-connection now r,
      count_plain "online" now r online-IsPlain,
      count_plain "offline" now r offline-IsPlain,
    )

listed_connection :
    (now : ℕ) (rows : List DashRow)
    → length (listed now "online" rows) + length (listed now "offline" rows) ≡ length rows
listed_connection now [] = refl
listed_connection now (r ∷ rs) = omega (
  arith,
  row_connection now r,
  listed_connection now rs,
  length-listed now "online" r rs,
  length-listed now "offline" r rs,
)

-- permissions

complete-IsPlain : IsPlain "permissionsComplete"
complete-IsPlain = record {
  no_net = (refl, (refl, (refl, tt)));
  no_power = (refl, (refl, (refl, tt)));
  no_hardware = (refl, (refl, (refl, (refl, (refl, (refl, (refl, (refl, (refl, tt)))))))));
  no_other = (refl, (refl, (refl, (refl, tt))));
  no_ver = refl;
}

incomplete-IsPlain : IsPlain "permissionsIncomplete"
incomplete-IsPlain = record {
  no_net = (refl, (refl, (refl, tt)));
  no_power = (refl, (refl, (refl, tt)));
  no_hardware = (refl, (refl, (refl, (refl, (refl, (refl, (refl, (refl, (refl, tt)))))))));
  no_other = (refl, (refl, (refl, (refl, tt))));
  no_ver = refl;
}

tier_key-permissions :
    (t : Tier)
    → (count "permissionsComplete" (tier_key t ∷ []) ≡ 0)
      × (count "permissionsIncomplete" (tier_key t ∷ []) ≡ 0)
tier_key-permissions ready = (refl, refl)
tier_key-permissions degraded = (refl, refl)
tier_key-permissions not_ready = (refl, refl)
tier_key-permissions offline = (refl, refl)

connection_keys-permissions :
    (now : ℕ) (r : DashRow)
    → (count "permissionsComplete" (connection_keys now r) ≡ 0)
      × (count "permissionsIncomplete" (connection_keys now r) ≡ 0)
unfolding connection_keys
connection_keys-permissions now r = (ground arith, ground arith)

permission_keys-permissions :
    (caps : Option Caps)
    → count "permissionsComplete" (permission_keys caps)
        + count "permissionsIncomplete" (permission_keys caps)
      ≡ (if is_some caps then 1 else 0)
unfolding permission_keys
permission_keys-permissions none = refl
permission_keys-permissions (some c) = ground arith

row_permissions :
    (now : ℕ) (r : DashRow)
    → count "permissionsComplete" (row_keys now r) + count "permissionsIncomplete" (row_keys now r)
      ≡ (if has_caps r then 1 else 0)
row_permissions now r =
    let (a, b) = tier_key-permissions (tier_of r) in
    let (c, d) = connection_keys-permissions now r in
    ap (λ n. n + count "permissionsIncomplete" (row_keys now r))
      (count_plain "permissionsComplete" now r complete-IsPlain)
    ∙ omega (arith, a, b, c, d, count_plain "permissionsIncomplete" now r incomplete-IsPlain)
    ∙ permission_keys-permissions r.caps

listed_permissions :
    (now : ℕ) (rows : List DashRow)
    → length (listed now "permissionsComplete" rows)
        + length (listed now "permissionsIncomplete" rows)
      ≡ length (filter has_caps rows)
listed_permissions now [] = refl
listed_permissions now (r ∷ rs) = ground (
  arith,
  row_permissions now r,
  listed_permissions now rs,
  length-listed now "permissionsComplete" r rs,
  length-listed now "permissionsIncomplete" r rs,
)

module _ (locale_lt : String → String → Bool) where
  -- Every device counts as online or as offline, and as one of them only.
  pub connectivity_total :
      (rows : List DashRow) (now max_attention : ℕ)
      → let d = summarize_fleet locale_lt rows now max_attention in
        d.connectivity.online + d.connectivity.offline ≡ d.total
  unfolding summarize_fleet
  connectivity_total rows now max_attention = omega (
    arith,
    listed_connection now rows,
    ap length (device_lists locale_lt rows now max_attention "online"),
    ap length (device_lists locale_lt rows now max_attention "offline"),
  )

  -- Every device has complete, incomplete or unknown permissions, and counts once.
  pub permissions_total :
      (rows : List DashRow) (now max_attention : ℕ)
      → let d = summarize_fleet locale_lt rows now max_attention in
        d.permissions.complete + d.permissions.incomplete + d.permissions.unknown ≡ d.total
  unfolding summarize_fleet
  permissions_total rows now max_attention = omega (
    arith,
    listed_permissions now rows,
    length-filter-le has_caps rows,
    ap length (device_lists locale_lt rows now max_attention "permissionsComplete"),
    ap length (device_lists locale_lt rows now max_attention "permissionsIncomplete"),
  )
