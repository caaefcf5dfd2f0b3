-- ===== src/Shared/Rollout/Names.antt =====
-- packages/shared/src/rollout.ts: the texts that name a version and a bucket.
use ukpc_remote_control.Prelude.{
  ℕ, String, Bool, false, ◌&&◌, ◌==◌, Option, none, some, List, [], ◌∷◌, leb, ltb, nat_eq, length,
  all, codes, if◌then◌else◌,
}
use ukpc_remote_control.Shared.Rollout.{
  RolloutBucket, done, updated_unhealthy, updated_offline, pending_online, pending_offline, unknown,
}

abbrev is_digit : ℕ → Bool
is_digit c = leb b'0' c && leb c b'9'

-- `\d{1,4}`
abbrev few_digits : List ℕ → Bool
few_digits part = ltb 0 (length part) && leb (length part) 4 && all is_digit part

abbrev onto_first : ℕ → List (List ℕ) → List (List ℕ)
onto_first c [] = (c ∷ []) ∷ []
onto_first c (part ∷ parts) = (c ∷ part) ∷ parts

pub parts_at : ℕ → List ℕ → List (List ℕ)
parts_at sep [] = [] ∷ []
parts_at sep (c ∷ cs) =
    let rest = parts_at sep cs in if nat_eq c sep then [] ∷ rest else onto_first c rest

abbrev three_parts : List (List ℕ) → Bool
three_parts (a ∷ b ∷ c ∷ []) = few_digits a && few_digits b && few_digits c
three_parts _ = false

-- `VERSION_RE.test(v)`
unfoldable pub is_valid_version : String → Bool
unfolding parts_at
is_valid_version v = three_parts (parts_at b'.' (codes v))

-- the bucket that a text names; `isRolloutBucket` holds of the texts that name one
unfoldable pub bucket_named : String → Option RolloutBucket
bucket_named v =
    if v == "done"
    then some done
    else if v == "updatedUnhealthy"
    then some updated_unhealthy
    else if v == "updatedOffline"
    then some updated_offline
    else if v == "pendingOnline"
    then some pending_online
    else if v == "pendingOffline"
    then some pending_offline
    else if v == "unknown"
    then some unknown
    else none
