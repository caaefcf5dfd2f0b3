-- ===== src/Shared/Dashboard/Summary/Events.antt =====
-- The event codes of a device in `briefOf` (packages/shared/src/dashboard.ts): `[...new Set(codes)]`.
use ukpc_remote_control.Prelude.{
  ◌≡◌, ap, String, ◌==◌, List, [], ◌∷◌, arith, eq_iff, any, if◌then◌else◌, inl, inr, Bool-cases,
}
use ukpc_remote_control.Shared.Dashboard.{DashRow}
use ukpc_remote_control.Shared.Dashboard.Summary.{distinct_after, distinct, brief_of}
use ukpc_remote_control.Shared.Dashboard.Summary.Counting.{count}

-- What is seen before is not listed again; anything else is listed once if it occurs.
count-distinct_after :
    (seen xs : List String) (x : String)
    → count x (distinct_after seen xs)
      ≡ (if any (λ y. y == x) seen then 0 else if any (λ y. y == x) xs then 1 else 0)
unfolding distinct_after
count-distinct_after seen [] x = ground arith
count-distinct_after seen (k ∷ ks) x =
    let ih = count-distinct_after (k ∷ seen) ks x in
    let skip = count-distinct_after seen ks x in
    elim (Bool-cases (k == x)) [
      | inl e ↦
          let same : any (λ y. y == k) seen ≡ any (λ y. y == x) seen =
            ap (λ d. any (λ y. y == d) seen) (ground (arith, eq_iff k x)) in
          ground (arith, ih, skip, same)
      | inr e ↦ ground (arith, ih, skip)
    ]

-- A device's brief has every event code of its row exactly once, and no other code.
pub brief_events :
    (r : DashRow) (code : String)
    → count code (brief_of r).hw_events24h ≡ (if any (λ y. y == code) r.hw_events24h then 1 else 0)
unfolding brief_of distinct
brief_events r code = count-distinct_after [] r.hw_events24h code
