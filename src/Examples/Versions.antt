-- ===== src/Examples/Versions.antt =====
-- Tests of packages/shared/src/semver.ts.
use ukpc_remote_control.Prelude.{true, false, ◌≡◌, ◌↔◌, refl, ◌∷◌, [], pos}
use ukpc_remote_control.Shared.Semver.{parse, semver_lt}
use ukpc_remote_control.Shared.Semver.Order.{LexLt, semver_lt_iff}

semver_tests :
    (semver_lt "1.2.0" "1.10.0" ≡ true)
    × (semver_lt "v1.4.8" "1.4.8" ≡ false)
    × (semver_lt "2" "1.9.9" ≡ false)
    × (parse "v1.4-rc.x" ≡ pos 1 ∷ pos 4 ∷ pos 0 ∷ [])
unfolding semver_lt
semver_tests = (refl, refl, refl, refl)

semver_lt_iff_example : (semver_lt "1.2.0" "1.10.0" ≡ true) ↔ LexLt (parse "1.2.0") (parse "1.10.0")
semver_lt_iff_example = semver_lt_iff "1.2.0" "1.10.0"
