-- ===== src/Shared/Dashboard/Summary.antt =====
-- packages/shared/src/dashboard.ts: `summarizeFleet` and `briefOf`.
--
-- `localeCompare` is the parameter `locale_lt`: whether it is negative. The object of device lists is a
-- dictionary, read with `size_of` and `ids`.
pub mod Counting
pub mod Events
pub mod Lists
pub mod Tiers
pub mod Totals
pub mod Attention
use ukpc_remote_control.Prelude.{
  ℕ, suc, ◌+◌, ◌-◌, String, Bool, true, false, not, ◌&&◌, ◌||◌, ◌==◌, ◌+s◌, Option, none, some,
  List, [], ◌∷◌, ◌++◌, Number, Dict, lookup, insert, ltb, leb, nat_eq, length, is_empty, is_some,
  filter, any, take, push_if, get_or, sort_by, if◌then◌else◌,
}
use ukpc_remote_control.Shared.Types.{Tier, ready, degraded, not_ready, offline, HwVolatile, Caps}
use ukpc_remote_control.Shared.Dashboard.{DashRow}
use ukpc_remote_control.Shared.Dashboard.Data.{
  AttentionItem, NetCounts, Connectivity, Permissions, Performance, DashboardData, DeviceBrief,
}
use ukpc_remote_control.Shared.Dashboard.Rows.{
  tier_of, row_keys, online_reasons, offline_reasons, is_known_net, is_weak,
}

-- `add(key, id)`
abbrev pub add_to : Dict (List String) → String → String → Dict (List String)
add_to lists key id = insert key (get_or (lookup key lists) [] ++ id ∷ []) lists

unfoldable pub add_all : Dict (List String) → List String → String → Dict (List String)
add_all lists [] id = lists
add_all lists (key ∷ keys) id = add_all (add_to lists key id) keys id

-- `map.set(key, (map.get(key) ?? 0) + 1)`
abbrev pub count_in : Dict ℕ → String → Dict ℕ
count_in counts key = insert key (suc (get_or (lookup key counts) 0)) counts

unfoldable pub count_all : Dict ℕ → List String → Dict ℕ
count_all counts [] = counts
count_all counts (key ∷ keys) = count_all (count_in counts key) keys

-- `new Set(xs)`: the first of equal texts stays
unfoldable pub distinct_after : List String → List String → List String
distinct_after seen [] = []
distinct_after seen (x ∷ xs) =
    let rest = distinct_after (x ∷ seen) xs in
    let skipped = distinct_after seen xs in if any (λ y. y == x) seen then skipped else x ∷ rest

unfoldable pub distinct : List String → List String
unfolding distinct_after
distinct xs = distinct_after [] xs

abbrev pub weight : String → ℕ
weight code =
    if code == "NOT_READY" || code == "PANEL_OFF" || code == "TOUCH_GONE"
    then 5
    else if code == "LAG" || code == "HOT" || code == "FLAPPING"
    then 3
    else if code == "LOW_MEM" || code == "LOW_DISK" || code == "MISSING_PERMISSIONS"
    then 2
    else 1

unfoldable pub score_of : List String → ℕ
score_of [] = 0
score_of (code ∷ codes) = weight code + score_of codes

-- the variables of the first loop
pub record Fleet : Type 0 where
  pub lists : Dict (List String)
  pub tiers : Tier → ℕ
  pub net : NetCounts
  pub versions : Dict ℕ
  pub event_devices : Dict ℕ
  pub attention : List AttentionItem
  pub drops24h : ℕ
  pub never_seen : ℕ

abbrev pub same_tier : Tier → Tier → Bool
same_tier ready ready = true
same_tier degraded degraded = true
same_tier not_ready not_ready = true
same_tier offline offline = true
same_tier _ _ = false

abbrev pub bump : Bool → ℕ → ℕ
bump b n = if b then suc n else n

-- `net[n]++`
abbrev pub count_net : String → Bool → NetCounts → NetCounts
count_net n weak c = record {
  wifi = bump (n == "wifi") c.wifi;
  cellular = bump (n == "cellular") c.cellular;
  ethernet = bump (n == "ethernet") c.ethernet;
  unknown = bump (not (is_known_net n)) c.unknown;
  weak_signal = bump weak c.weak_signal;
}

-- `if (score > 0) attention.push(…)`
abbrev pub item_of : DashRow → List String → List AttentionItem
item_of r reasons = push_if (ltb 0 (score_of reasons)) (record {
  device_id = r.device_id;
  label = r.label;
  group = r.group;
  score = score_of reasons;
  reasons = reasons;
})

-- a round of the first loop
unfoldable pub scan_row : ℕ → Fleet → DashRow → Fleet
unfolding add_all count_all distinct score_of
scan_row now f r = record {
  lists = add_all f.lists (row_keys now r) r.device_id;
  tiers = λ t. bump (same_tier (tier_of r) t) (f.tiers t);
  net =
      if r.online
      then count_net (get_or r.volatile.net "unknown") (is_weak r.volatile) f.net
      else f.net;
  versions = count_in f.versions (get_or r.agent_ver "unknown");
  event_devices = count_all f.event_devices (distinct r.hw_events24h);
  attention = f.attention ++ (if r.online then item_of r (online_reasons r) else []);
  drops24h = f.drops24h + r.drops24h;
  never_seen = bump (not r.online && not (is_some r.last_seen_ms)) f.never_seen;
}

unfoldable pub scan_rows : ℕ → Fleet → List DashRow → Fleet
unfolding scan_row
scan_rows now f [] = f
scan_rows now f (r ∷ rs) = scan_rows now (scan_row now f r) rs

abbrev pub start : Fleet
start = record {
  lists = [];
  tiers = λ t. 0;
  net = record { wifi = 0; cellular = 0; ethernet = 0; unknown = 0; weak_signal = 0 };
  versions = [];
  event_devices = [];
  attention = [];
  drops24h = 0;
  never_seen = 0;
}

abbrev pub names : List AttentionItem → List String
names [] = []
names (a ∷ rest) = a.device_id ∷ names rest

-- the second loop: devices that are offline
unfoldable pub late_items : ℕ → List String → List DashRow → List AttentionItem
unfolding score_of
late_items now scored [] = []
late_items now scored (r ∷ rs) =
    (if r.online || any (λ id. id == r.device_id) scored
      then []
      else item_of r (offline_reasons now r))
    ++ late_items now scored rs

abbrev pub ids : Dict (List String) → String → List String
ids lists key = get_or (lookup key lists) []

abbrev pub size_of : Dict (List String) → String → ℕ
size_of lists key = length (ids lists key)

-- the comparators `(a, b) => b.count - a.count` and that of `attention` are negative
abbrev pub more_first : String × ℕ → String × ℕ → Bool
more_first a b = ltb b.1 a.1

abbrev pub worse_first : (String → String → Bool) → AttentionItem → AttentionItem → Bool
worse_first locale_lt a b =
    ltb b.score a.score || (nat_eq a.score b.score && locale_lt a.device_id b.device_id)

abbrev pub has_caps : DashRow → Bool
has_caps r = is_some r.caps

-- the items of both loops, sorted
unfoldable pub ranked : (String → String → Bool) → List DashRow → ℕ → List AttentionItem
unfolding scan_rows late_items
ranked locale_lt rows now =
    let found = (scan_rows now start rows).attention in
    sort_by (worse_first locale_lt) (found ++ late_items now (names found) rows)

unfoldable pub summarize_fleet : (String → String → Bool) → List DashRow → ℕ → ℕ → DashboardData
unfolding ranked
summarize_fleet locale_lt rows now max_attention =
    let f = scan_rows now start rows in
    let l = f.lists in
    record {
      generated_at = now;
      total = length rows;
      connectivity = record {
        online = size_of l "online";
        offline = size_of l "offline";
        offline_over24h = size_of l "offlineOver24h";
        never_seen = f.never_seen;
      };
      tiers = f.tiers;
      permissions = record {
        complete = size_of l "permissionsComplete";
        incomplete = size_of l "permissionsIncomplete";
        unknown = length rows - length (filter has_caps rows);
        missing_secure_settings = size_of l "missingSecureSettings";
        missing_a11y = size_of l "missingA11y";
        missing_overlay = size_of l "missingOverlay";
      };
      performance = record {
        lagging = size_of l "lagging";
        hot = size_of l "hot";
        low_mem = size_of l "lowMem";
        low_disk = size_of l "lowDisk";
        panel_off = size_of l "panelOff";
        touch_gone = size_of l "touchGone";
        no_hw_data = size_of l "noHwData";
      };
      ui_idle6h = size_of l "uiIdle6h";
      ui_idle24h = size_of l "uiIdle24h";
      no_session7d = size_of l "noSession7d";
      battery_low = size_of l "lowBattery";
      not_charging = size_of l "notCharging";
      network = f.net;
      versions = sort_by more_first f.versions;
      outdated = size_of l "outdated";
      flapping = size_of l "flapping";
      drops24h = f.drops24h;
      events24h = sort_by more_first f.event_devices;
      lists = l;
      attention = take max_attention (ranked locale_lt rows now);
    }

abbrev missing_of : Option Caps → Option (List String)
missing_of none = none
missing_of (some c) = some (
    push_if (not c.secure_settings) "secureSettings"
    ++ (push_if (not c.a11y) "a11y" ++ push_if (not c.overlay) "overlay"))

-- a reading is shown of a device that is online only
abbrev if_online {ℓ} : {A : Type ℓ} → DashRow → Option A → Option A
if_online r x = if r.online then x else none

unfoldable pub brief_of : DashRow → DeviceBrief
unfolding distinct
brief_of r = record {
  device_id = r.device_id;
  label = r.label;
  group = r.group;
  online = r.online;
  tier = tier_of r;
  last_seen_ms = r.last_seen_ms;
  agent_ver = r.agent_ver;
  missing = missing_of r.caps;
  drops24h = r.drops24h;
  last_session_ms = r.last_session_ms;
  battery_pct = if_online r r.volatile.battery_pct;
  charging = if_online r r.volatile.charging;
  net = if_online r r.volatile.net;
  rssi = if_online r r.volatile.rssi;
  hw = if_online r r.hw;
  hw_events24h = distinct r.hw_events24h;
}
