-- ===== src/Shared/Dashboard/Summary/Counting.antt =====
-- How often a row lists its device under a key (packages/shared/src/dashboard.ts).
use Prim.Native.String.{slice}
use text.Mathlib.TextPositions.{slice-append_left}
use ukpc_remote_control.Prelude.{
  ℕ, suc, ◌+◌, ◌≡◌, refl, sym, ap, ◌∙◌, inl, inr, String, Bool, true, false, not, ◌&&◌, ◌==◌, ◌+s◌,
  Option, none, some, Number, List, [], ◌∷◌, ◌++◌, arith, eq_iff, leb, length, All, push_if, get_or,
  if◌then◌else◌, Bool-cases,
}
use ukpc_remote_control.Shared.Types.{HwVolatile, truthy}
use ukpc_remote_control.Shared.Dashboard.{DashRow, PartialVolatile}
use ukpc_remote_control.Shared.Dashboard.Limits
use ukpc_remote_control.Shared.Dashboard.Rows.{
  tier_name, is_not_ready, tier_of, connection_keys, permission_keys, is_outdated, is_unused,
  online_keys, power_keys, hardware_keys, hardware_flags, row_keys, keys_of, idle_keys, is_weak,
  is_low, is_known_net, is_lagging, is_hot, is_below, is_dark, is_none_left,
}
use ukpc_remote_control.Shared.Dashboard.Summary.Lists.{copies}

-- how often a key is in a list
abbrev pub count : String → List String → ℕ
count key [] = 0
count key (k ∷ ks) = let rest = count key ks in if k == key then suc rest else rest

pub count-append :
    (key : String) (xs ys : List String) → count key (xs ++ ys) ≡ count key xs + count key ys
count-append key [] ys = omega arith
count-append key (x ∷ xs) ys = ground (arith, count-append key xs ys)

pub length-copies :
    (key id : String) (keys : List String) → length (copies key keys id) ≡ count key keys
length-copies key id [] = refl
length-copies key id (k ∷ ks) = ground (arith, length-copies key id ks)

-- No key that begins otherwise is the key of a version.
ver_key : (v key : String) → (slice key 0 4 == "ver:") ≡ false → (("ver:" +s v) == key) ≡ false
ver_key v key h = elim (Bool-cases (("ver:" +s v) == key)) [
  | inl e ↦
      let same : "ver:" +s v ≡ key = ground (arith, eq_iff ("ver:" +s v) key) in
      let begins : slice key 0 4 ≡ "ver:" =
        ap (λ s. slice s 0 4) (sym same) ∙ slice-append_left "ver:" v in
      let q : true ≡ false = sym (ap (λ s. s == "ver:") begins) ∙ h in absurd (cc)
  | inr e ↦ e
]

-- No word of the list is the key.
abbrev pub Misses : String → List String → Type 0
Misses key words = All (λ w. (w == key) ≡ false) words

zero-append :
    (key : String) (xs ys : List String)
    → count key xs ≡ 0
    → count key ys ≡ 0
    → count key (xs ++ ys) ≡ 0
zero-append key xs ys a b = omega (arith, count-append key xs ys)

zero-push_if :
    (key word : String) (b : Bool) → (word == key) ≡ false → count key (push_if b word) ≡ 0
zero-push_if key word b h = ground arith

zero-net :
    (key n : String)
    → Misses key ("wifi" ∷ "cellular" ∷ "ethernet" ∷ [])
    → count key (push_if (is_known_net n) n) ≡ 0
zero-net key n (w, (c, (e, u))) =
    ground (arith, eq_iff n "wifi", eq_iff n "cellular", eq_iff n "ethernet")

zero-power_keys :
    (key : String) (v : PartialVolatile)
    → Misses key ("wifi" ∷ "cellular" ∷ "ethernet" ∷ [])
    → Misses key ("weakSignal" ∷ "notCharging" ∷ "lowBattery" ∷ [])
    → count key (power_keys v) ≡ 0
unfolding power_keys
zero-power_keys key v nets (a, (b, (c, u))) =
    zero-append key _ _ (zero-net key (get_or v.net "unknown") nets) (
      zero-append key _ _ (zero-push_if key _ (is_weak v) a) (
        zero-append key _ _ (zero-push_if key _ (not (truthy v.charging)) b)
          (zero-push_if key _ (is_low v) c)))

keys_of-append : (xs ys : List (String × String)) → keys_of (xs ++ ys) ≡ keys_of xs ++ keys_of ys
keys_of-append [] ys = refl
keys_of-append ((c, k) ∷ xs) ys = ap (λ l. k ∷ l) (keys_of-append xs ys)

zero-flags :
    (key code word : String) (b : Bool) (rest : List (String × String))
    → (word == key) ≡ false
    → count key (keys_of rest) ≡ 0
    → count key (keys_of (push_if b (code, word) ++ rest)) ≡ 0
zero-flags key code word true rest h z = ground arith
zero-flags key code word false rest h z = z

zero-flag :
    (key code word : String) (b : Bool)
    → (word == key) ≡ false
    → count key (keys_of (push_if b (code, word))) ≡ 0
zero-flag key code word b h = ground arith

abbrev pub hardware_words : List String
hardware_words =
    "lagging" ∷ "hot" ∷ "lowMem" ∷ "lowDisk" ∷ "panelOff" ∷ "touchGone" ∷ "uiIdle24h" ∷ "uiIdle6h"
    ∷ "noHwData" ∷ []

zero-idle_keys :
    (key : String) (idle : Option Number)
    → ("uiIdle24h" == key) ≡ false
    → ("uiIdle6h" == key) ≡ false
    → count key (idle_keys idle) ≡ 0
zero-idle_keys key idle g h = ground arith

zero-hardware_keys :
    (key : String) (screen_on : Bool) (hw : Option HwVolatile)
    → Misses key hardware_words
    → count key (hardware_keys screen_on hw) ≡ 0
unfolding hardware_keys hardware_flags
zero-hardware_keys key on none (a, (b, (c, (d, (e, (f, (g, (h, (i, u))))))))) = ground arith
zero-hardware_keys key on (some hw) (a, (b, (c, (d, (e, (f, (g, (h, (i, u))))))))) =
    let r5 : List (String × String) =
      push_if (is_none_left hw.touch_devs) ("TOUCH_GONE", "touchGone") in
    let r4 = push_if (on && is_dark hw.display) ("PANEL_OFF", "panelOff") ++ r5 in
    let r3 = push_if (is_below Limits.low_disk_mb hw.disk_free_mb) ("LOW_DISK", "lowDisk") ++ r4 in
    let r2 = push_if (is_below Limits.low_mem_mb hw.mem_avail_mb) ("LOW_MEM", "lowMem") ++ r3 in
    let r1 = push_if (is_hot hw) ("HOT", "hot") ++ r2 in
    let z5 : count key (keys_of r5) ≡ 0 =
      zero-flag key "TOUCH_GONE" "touchGone" (is_none_left hw.touch_devs) f in
    let z4 : count key (keys_of r4) ≡ 0 =
      zero-flags key "PANEL_OFF" "panelOff" (on && is_dark hw.display) r5 e z5 in
    let z3 : count key (keys_of r3) ≡ 0 =
      zero-flags key "LOW_DISK" "lowDisk" (is_below Limits.low_disk_mb hw.disk_free_mb) r4 d z4 in
    let z2 : count key (keys_of r2) ≡ 0 =
      zero-flags key "LOW_MEM" "lowMem" (is_below Limits.low_mem_mb hw.mem_avail_mb) r3 c z3 in
    let z1 : count key (keys_of r1) ≡ 0 = zero-flags key "HOT" "hot" (is_hot hw) r2 b z2 in
    zero-append key (keys_of (push_if (is_lagging hw) ("LAG", "lagging") ++ r1))
      (idle_keys hw.ui_idle_ms) (zero-flags key "LAG" "lagging" (is_lagging hw) r1 a z1)
      (zero-idle_keys key hw.ui_idle_ms g h)

-- the words that an online row or its version may add
abbrev pub power_words : List String
power_words = "weakSignal" ∷ "notCharging" ∷ "lowBattery" ∷ []

abbrev pub net_words : List String
net_words = "wifi" ∷ "cellular" ∷ "ethernet" ∷ []

abbrev pub other_words : List String
other_words = "notReady" ∷ "outdated" ∷ "flapping" ∷ "noSession7d" ∷ []

-- the key has nothing to do with the part of a row that is read of devices online, the version and
-- the use of a device
pub record IsPlain (key : String) : Type 0 where
  pub no_net : Misses key net_words
  pub no_power : Misses key power_words
  pub no_hardware : Misses key hardware_words
  pub no_other : Misses key other_words
  pub no_ver : (slice key 0 4 == "ver:") ≡ false

zero-online_keys : (key : String) (r : DashRow) → IsPlain key → count key (online_keys r) ≡ 0
unfolding online_keys
zero-online_keys key r p =
    zero-append key _ _ (zero-power_keys key r.volatile p.no_net p.no_power)
      (zero-hardware_keys key (truthy r.volatile.screen_on) r.hw p.no_hardware)

zero-if :
    (key : String) (b : Bool) (xs : List String)
    → count key xs ≡ 0
    → count key (if b then xs else []) ≡ 0
zero-if key true xs h = h
zero-if key false xs h = refl

zero-cons :
    (key x : String) (xs : List String)
    → (x == key) ≡ false
    → count key xs ≡ 0
    → count key (x ∷ xs) ≡ 0
zero-cons key x xs h z = ground arith

-- A plain key is given by the tier, the connection and the permissions of a row only.
pub count_plain :
    (key : String) (now : ℕ) (r : DashRow)
    → IsPlain key
    → count key (row_keys now r)
      ≡ count key (("tier:" +s tier_name (tier_of r)) ∷ [])
        + (count key (connection_keys now r) + count key (permission_keys r.caps))
unfolding row_keys
count_plain key now r p =
    let (a, (b, (c, (d, u)))) = p.no_other in
    let l5 : List String = if r.online then online_keys r else [] in
    let l4 : List String = push_if (is_unused now r.last_session_ms) "noSession7d" in
    let l3 : List String = push_if (leb Limits.flapping_drops r.drops24h) "flapping" in
    let l2 : List String = push_if (is_outdated r.agent_ver) "outdated" in
    let l1 : List String = push_if (is_not_ready (tier_of r)) "notReady" in
    let tier : List String = ("tier:" +s tier_name (tier_of r)) ∷ [] in
    let ver : List String = ("ver:" +s get_or r.agent_ver "unknown") ∷ [] in
    let z5 : count key l5 ≡ 0 = zero-if key r.online (online_keys r) (zero-online_keys key r p) in
    let z4 : count key l4 ≡ 0 =
      zero-push_if key "noSession7d" (is_unused now r.last_session_ms) d in
    let z3 : count key l3 ≡ 0 =
      zero-push_if key "flapping" (leb Limits.flapping_drops r.drops24h) c in
    let z2 : count key l2 ≡ 0 = zero-push_if key "outdated" (is_outdated r.agent_ver) b in
    let z1 : count key l1 ≡ 0 = zero-push_if key "notReady" (is_not_ready (tier_of r)) a in
    let zv : count key ver ≡ 0 =
      zero-cons key ("ver:" +s get_or r.agent_ver "unknown") []
        (ver_key (get_or r.agent_ver "unknown") key p.no_ver) refl in
    let perms : List String = permission_keys r.caps in
    let conn : List String = connection_keys now r in
    let e1 =
      count-append key tier (conn ++ (l1 ++ (perms ++ (ver ++ (l2 ++ (l3 ++ (l4 ++ l5))))))) in
    let e2 = count-append key conn (l1 ++ (perms ++ (ver ++ (l2 ++ (l3 ++ (l4 ++ l5)))))) in
    let e3 = count-append key l1 (perms ++ (ver ++ (l2 ++ (l3 ++ (l4 ++ l5))))) in
    let e4 = count-append key perms (ver ++ (l2 ++ (l3 ++ (l4 ++ l5)))) in
    let e5 = count-append key ver (l2 ++ (l3 ++ (l4 ++ l5))) in
    let e6 = count-append key l2 (l3 ++ (l4 ++ l5)) in
    let e7 = count-append key l3 (l4 ++ l5) in
    let e8 = count-append key l4 l5 in
    omega (arith, z1, z2, z3, z4, z5, zv, e1, e2, e3, e4, e5, e6, e7, e8)
