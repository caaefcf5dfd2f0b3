-- ===== src/Examples/Live.antt =====
-- Tests of the live hash of packages/shared/src/hw.ts, with a printing of numbers of two code units.
use ukpc_remote_control.Prelude.{
  ℕ, zero, suc, ◌≡◌, refl, true, false, none, some, List, [], ◌∷◌, Number, finite, nan, infinity,
  neg_infinity, pos, negsuc, num, is_finite, is_empty, Dict, lookup, insert, remove,
}
use ukpc_remote_control.Shared.Json.{Json, number, object, no_fields, field_then, field, find}
use ukpc_remote_control.Shared.Hw.Live.{
  prefixed, reading, package_of, package_entry, set_all, delete_all, write_live, num_entry,
  num_entries, patch_of, hw_live_patch, read_back,
}
use ukpc_remote_control.Shared.Hw.Live.Fresh.{live_hash_fresh}

abbrev print : Number → List ℕ
print (finite (pos n)) = 0 ∷ n ∷ []
print (finite (negsuc n)) = 1 ∷ n ∷ []
print _ = 2 ∷ []

abbrev parse : List ℕ → Number
parse (zero ∷ n ∷ []) = finite (pos n)
parse (suc zero ∷ n ∷ []) = finite (negsuc n)
parse _ = nan

round : (x : Number) → is_finite x ≡ true → (parse (print x) ≡ x) × (is_empty (print x) ≡ false)
round (finite (pos n)) h = (refl, refl)
round (finite (negsuc n)) h = (refl, refl)
round nan h = cc
round infinity h = cc
round neg_infinity h = cc

-- the touch screen was gone; the new heartbeat does not report it
abbrev old_hash : Dict (List ℕ)
old_hash = ("hw_touchDevs", print (num 0)) ∷ ("agentVer", 49 ∷ []) ∷ []

abbrev heartbeat : Json
heartbeat = object (field_then "cpuPct" (number (num 40)) no_fields)

live_tests :
    (lookup "hw_touchDevs" (write_live (hw_live_patch print parse (some heartbeat)) old_hash)
      ≡ none)
    × (lookup "hw_cpuPct" (write_live (hw_live_patch print parse (some heartbeat)) old_hash)
        ≡ some (0 ∷ 40 ∷ []))
    × (lookup "agentVer" (write_live (hw_live_patch print parse (some heartbeat)) old_hash)
        ≡ some (49 ∷ []))
unfolding reading package_of package_entry set_all delete_all write_live num_entry num_entries
    patch_of hw_live_patch field find lookup insert remove
live_tests = (refl, refl, refl)

live_hash_fresh_example :
    read_back print parse (
      lookup
        (prefixed "touchDevs")
        (write_live (hw_live_patch print parse (some heartbeat)) old_hash))
    ≡ reading "touchDevs" (field "touchDevs" heartbeat)
unfolding field find
live_hash_fresh_example = live_hash_fresh print parse heartbeat "touchDevs" old_hash round refl refl
