-- ===== src/Shared/Hw/Live.antt =====
-- packages/shared/src/hw.ts: the hardware fields in the live hash of a device, and the writing of the
-- patch in apps/rc-ingest/src/ingest.service.ts (`writeLive`).
--
-- `print` is `String(x)` on a number and `parse` is `Number(s)`, on the code units of a text.
pub mod Fresh
use ukpc_remote_control.Prelude.{
  ℕ, String, Bool, true, false, not, ◌&&◌, ◌||◌, ◌==◌, ◌+s◌, Option, none, some, List, [], ◌∷◌,
  ◌++◌, map, Number, finite, negsuc, num, num_eq, is_finite, Dict, lookup, insert, remove, is_some,
  is_empty, any, filter, if◌then◌else◌,
}
use ukpc_remote_control.Shared.Json.{Json, null, bool, number, text, array, object, field, clean}

abbrev pub volatile_num : List String
volatile_num =
    "thermal" ∷ "battTempC" ∷ "memAvailMb" ∷ "diskFreeMb" ∷ "cpuPct" ∷ "gpuPct" ∷ "display"
    ∷ "touchDevs" ∷ "mainLagMs" ∷ "uiIdleMs" ∷ []

-- `UNKNOWN_IS_MINUS_ONE.has(k)`
abbrev pub unknown_is_minus_one : String → Bool
unknown_is_minus_one k = k == "thermal" || k == "diskFreeMb" || k == "touchDevs" || k == "uiIdleMs"

-- `PREFIX + k`
abbrev pub prefixed : String → String
prefixed k = "hw_" +s k

-- `k in v`
abbrev pub is_in : Json → String → Bool
is_in v k = is_some (field k v)

abbrev pub volatile_has_hw : Option Json → Bool
volatile_has_hw none = false
volatile_has_hw (some v) = any (is_in v) volatile_num || is_in v "fgPkg"

-- the number that the loop stores under `k`
unfoldable pub reading : String → Option Json → Option Number
reading k (some (number x)) =
    if not (is_finite x)
      || (num_eq x (finite (negsuc 0)) && unknown_is_minus_one k)
      || (k == "display" && num_eq x (num 0))
    then none
    else some x
reading k _ = none

-- `typeof v.fgPkg === 'string' && v.fgPkg`
unfoldable pub package_of : Option Json → Option (List ℕ)
package_of (some (text s)) = if is_empty s then none else some s
package_of _ = none

pub record Patch : Type 0 where
  pub set : Dict (List ℕ)
  pub del : List String

abbrev pub has_no : Dict (List ℕ) → String → Bool
has_no set key = not (is_some (lookup key set))

unfoldable pub package_entry : Option (List ℕ) → Dict (List ℕ)
package_entry none = []
package_entry (some s) = (prefixed "fgPkg", clean 128 s) ∷ []

-- the calls of `hset` and `hdel`
unfoldable pub set_all : Dict (List ℕ) → Dict (List ℕ) → Dict (List ℕ)
set_all [] hash = hash
set_all ((key, value) ∷ rest) hash = insert key value (set_all rest hash)

unfoldable pub delete_all : List String → Dict (List ℕ) → Dict (List ℕ)
delete_all [] hash = hash
delete_all (key ∷ keys) hash = remove key (delete_all keys hash)

unfoldable pub write_live : Patch → Dict (List ℕ) → Dict (List ℕ)
unfolding set_all delete_all
write_live p hash = delete_all p.del (set_all p.set hash)

pub record HwFields : Type 0 where
  pub numbers : List (String × Number)
  pub fg_pkg : Option (List ℕ)

module _ (print : Number → List ℕ) (parse : List ℕ → Number) where
  unfoldable pub num_entry : String → Option Number → Dict (List ℕ)
  num_entry k none = []
  num_entry k (some x) = (prefixed k, print x) ∷ []

  unfoldable pub num_entries : Json → List String → Dict (List ℕ)
  unfolding num_entry reading
  num_entries v [] = []
  num_entries v (k ∷ ks) = num_entry k (reading k (field k v)) ++ num_entries v ks

  unfoldable pub patch_of : Json → Patch
  unfolding num_entries package_entry package_of
  patch_of v =
      let set = num_entries v volatile_num ++ package_entry (package_of (field "fgPkg" v)) in
      record { set = set; del = filter (has_no set) (map prefixed (volatile_num ++ "fgPkg" ∷ [])) }

  abbrev present : Option Json → Json
  present none = null
  present (some v) = v

  unfoldable pub hw_live_patch : Option Json → Patch
  unfolding patch_of
  hw_live_patch v =
      if volatile_has_hw v then patch_of (present v) else record { set = []; del = [] }

  -- what `hwFromHash` reads under one key
  unfoldable pub read_back : Option (List ℕ) → Option Number
  read_back none = none
  read_back (some raw) =
      if is_empty raw || not (is_finite (parse raw)) then none else some (parse raw)

  unfoldable pub named : String → Option Number → List (String × Number)
  named k none = []
  named k (some x) = (k, x) ∷ []

  unfoldable pub numbers_in : Dict (List ℕ) → List String → List (String × Number)
  unfolding read_back named
  numbers_in hash [] = []
  numbers_in hash (k ∷ ks) = named k (read_back (lookup (prefixed k) hash)) ++ numbers_in hash ks

  abbrev non_empty : Option (List ℕ) → Option (List ℕ)
  non_empty none = none
  non_empty (some s) = if is_empty s then none else some s

  unfoldable pub hw_from_hash : Dict (List ℕ) → Option HwFields
  unfolding numbers_in
  hw_from_hash hash =
      let numbers = numbers_in hash volatile_num in
      let app = non_empty (lookup (prefixed "fgPkg") hash) in
      if is_empty numbers && not (is_some app)
      then none
      else some (record { numbers = numbers; fg_pkg = app })
