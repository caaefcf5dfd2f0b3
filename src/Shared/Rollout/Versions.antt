-- ===== src/Shared/Rollout/Versions.antt =====
-- The version that `summarizeRollout` (packages/shared/src/rollout.ts) suggests as a target, and the
-- numbers of devices by version.
use ukpc_remote_control.Prelude.{
  ℕ, suc, ◌+◌, String, Bool, false, ◌≡◌, refl, Option, none, some, List, [], ◌∷◌, arith, All,
  length, filter, is_some, lookup, insert, get_or, Option-cases, inl, inr, if◌then◌else◌,
  insert_sorted, sort_into, sort_by,
}
use ukpc_remote_control.Shared.Semver.{semver_lt}
use ukpc_remote_control.Shared.Semver.Order.{semver_ge_trans, semver_lt_order}
use ukpc_remote_control.Shared.Dashboard.{DashRow}
use ukpc_remote_control.Shared.Rollout.{
  non_empty, Progress, count_version, place_row, place_rows, start, suggest, summarize_rollout,
  newer_first,
}

-- No version that `o` reports is above the suggestion `s`.
abbrev pub Covers : Option String → Option String → Type 0
Covers s none = Unit
Covers none (some v) = ⊥
Covers (some s) (some v) = semver_lt s v ≡ false

-- The new suggestion covers what the old one covered, and the version itself.
suggest-Covers :
    (s : Option String) (v : String) (o : Option String) → Covers s o → Covers (suggest s v) o
unfolding suggest
suggest-Covers s v none h = tt
suggest-Covers none v (some w) h = absurd h
suggest-Covers (some s) v (some w) h =
    ground (arith, semver_lt_order s v s, semver_ge_trans v s w, semver_lt_order v s v)

suggest-Covers_self : (s : Option String) (v : String) → Covers (suggest s v) (some v)
unfolding suggest
suggest-Covers_self none v = (semver_lt_order v v v).0
suggest-Covers_self (some s) v = ground (arith, (semver_lt_order v v v).0)

module _ (target : String) where
  place_row-keeps :
      (p : Progress) (r : DashRow) (o : Option String)
      → Covers p.suggested o
      → Covers (place_row target p r).suggested o
  unfolding place_row
  place_row-keeps p r o h = elim (Option-cases (non_empty r.agent_ver)) [
    | inl e ↦ rw (e, count_version) h
    | inr (v, e) ↦ rw (e, count_version) (suggest-Covers p.suggested v o h)
  ]

  place_row-Covers :
      (p : Progress) (r : DashRow) → Covers (place_row target p r).suggested (non_empty r.agent_ver)
  unfolding place_row
  place_row-Covers p r = elim (Option-cases (non_empty r.agent_ver)) [
    | inl e ↦ rw (e, count_version) tt
    | inr (v, e) ↦ rw (e, count_version) (suggest-Covers_self p.suggested v)
  ]

  place_rows-keeps :
      (rows : List DashRow) (p : Progress) (o : Option String)
      → Covers p.suggested o
      → Covers (place_rows target p rows).suggested o
  unfolding place_rows
  place_rows-keeps [] p o h = h
  place_rows-keeps (r ∷ rs) p o h =
      place_rows-keeps rs (place_row target p r) o (place_row-keeps p r o h)

  place_rows-Covers :
      (rows : List DashRow) (p : Progress)
      → All (λ r. Covers (place_rows target p rows).suggested (non_empty r.agent_ver)) rows
  unfolding place_rows
  place_rows-Covers [] p = tt
  place_rows-Covers (r ∷ rs) p = (
    place_rows-keeps rs (place_row target p r) (non_empty r.agent_ver) (place_row-Covers p r),
    place_rows-Covers rs (place_row target p r),
  )

-- The suggested target is not below any version that a device of the fleet reports.
pub suggested-Covers :
    (rows : List DashRow) (target : String) (now : ℕ)
    → All
        (λ r. Covers (summarize_rollout rows target now).suggested_target (non_empty r.agent_ver))
        rows
unfolding summarize_rollout
suggested-Covers rows target now = place_rows-Covers target rows start

abbrev pub total_count : List (String × ℕ) → ℕ
total_count [] = 0
total_count ((v, n) ∷ vs) = n + total_count vs

total_count-insert :
    (v : String) (m : List (String × ℕ))
    → total_count (insert v (suc (get_or (lookup v m) 0)) m) ≡ suc (total_count m)
unfolding lookup insert
total_count-insert v [] = refl
total_count-insert v ((w, n) ∷ m) = ground (arith, total_count-insert v m)

module _ (before : String × ℕ → String × ℕ → Bool) where
  total_count-insert_sorted :
      (x : String × ℕ) (ys : List (String × ℕ))
      → total_count (insert_sorted before x ys) ≡ x.1 + total_count ys
  unfolding insert_sorted
  total_count-insert_sorted x [] = refl
  total_count-insert_sorted x (y ∷ ys) = ground (arith, total_count-insert_sorted x ys)

  total_count-sort_into :
      (sorted xs : List (String × ℕ))
      → total_count (sort_into before sorted xs) ≡ total_count sorted + total_count xs
  unfolding sort_into
  total_count-sort_into sorted [] = omega arith
  total_count-sort_into sorted (x ∷ xs) = omega (
    arith,
    total_count-sort_into (insert_sorted before x sorted) xs,
    total_count-insert_sorted x sorted,
  )

abbrev reports_version : DashRow → Bool
reports_version r = is_some (non_empty r.agent_ver)

module _ (target : String) where
  place_row-total :
      (p : Progress) (r : DashRow)
      → total_count (place_row target p r).versions
        ≡ (if reports_version r then 1 else 0) + total_count p.versions
  unfolding place_row
  place_row-total p r = elim (Option-cases (non_empty r.agent_ver)) [
    | inl e ↦ rw (e, count_version) (omega arith)
    | inr (v, e) ↦ rw (e, count_version) (omega (arith, total_count-insert v p.versions))
  ]

  place_rows-total :
      (rows : List DashRow) (p : Progress)
      → total_count (place_rows target p rows).versions
        ≡ total_count p.versions + length (filter reports_version rows)
  unfolding place_rows
  place_rows-total [] p = omega arith
  place_rows-total (r ∷ rs) p =
      ground (arith, place_rows-total rs (place_row target p r), place_row-total p r)

-- The numbers of devices by version, after sorting, add up to the number of devices that report one.
pub versions_total :
    (rows : List DashRow) (target : String) (now : ℕ)
    → total_count (summarize_rollout rows target now).versions
      ≡ length (filter (λ r. is_some (non_empty r.agent_ver)) rows)
unfolding summarize_rollout sort_by
versions_total rows target now =
    let p = place_rows target start rows in
    omega
      (arith, total_count-sort_into newer_first [] p.versions, place_rows-total target rows start)
