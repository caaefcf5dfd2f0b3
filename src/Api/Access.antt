-- ===== src/Api/Access.antt =====
-- apps/rc-api/src/devices/devices.service.ts and fleet.service.ts: which devices an operator may see.
use ukpc_remote_control.Prelude.{
  ℕ, String, Bool, false, ◌≡◌, refl, ◌&&◌, ◌||◌, ◌==◌, Option, none, some, List, [], ◌∷◌, arith,
  nat_eq, any, if◌then◌else◌,
}

-- a row of `operators`
pub record OperatorRow : Type 0 where
  pub id : ℕ
  pub username : String
  pub display_name : Option String
  pub password_hash : Option String
  pub hmdm_user_id : Option ℕ
  pub role : String
  pub active : Bool

-- `role IN ('admin', 'mdm_user')`
abbrev pub sees_all : String → Bool
sees_all role = role == "admin" || role == "mdm_user"

pub record Grants : Type 0 where
  pub operators : List OperatorRow
  pub group_access : List (ℕ × ℕ)  -- operator and group

-- `operators WHERE id = $1`: the ids are unique
unfoldable pub operator_at : List OperatorRow → ℕ → Option OperatorRow
operator_at [] id = none
operator_at (op ∷ ops) id =
    let rest = operator_at ops id in if nat_eq op.id id then some op else rest

abbrev same_grant : ℕ → ℕ → ℕ × ℕ → Bool
same_grant id group (a, g) = nat_eq a id && nat_eq g group

unfoldable pub has_group : Grants → ℕ → ℕ → Bool
has_group g id group = any (same_grant id group) g.group_access

abbrev is_active : Option OperatorRow → Bool
is_active none = false
is_active (some op) = op.active

abbrev is_overseer : Option OperatorRow → Bool
is_overseer none = false
is_overseer (some op) = sees_all op.role && op.active

unfoldable pub active_operator : Grants → ℕ → Bool
active_operator g id = is_active (operator_at g.operators id)

unfoldable pub overseer : Grants → ℕ → Bool
overseer g id = is_overseer (operator_at g.operators id)

-- the query of `assertGroupAccess`, for a device in a group, `none` where there is no such device
unfoldable pub may_access : Grants → ℕ → Option ℕ → Bool
unfolding active_operator overseer has_group
may_access g id none = overseer g id
may_access g id (some group) = (has_group g id group && active_operator g id) || overseer g id

-- the condition of the lists
unfoldable pub is_visible : Grants → ℕ → ℕ → Bool
unfolding overseer has_group
is_visible g id group = has_group g id group || overseer g id

overseer_active : (o : Option OperatorRow) → (is_overseer o && is_active o) ≡ is_overseer o
overseer_active none = refl
overseer_active (some op) = ground arith

-- An operator may open exactly those devices of the lists that stand in them while the operator is
-- active: the lists themselves do not ask whether an operator of the group is.
pub access_agrees :
    (g : Grants) (id group : ℕ)
    → may_access g id (some group) ≡ (is_visible g id group && active_operator g id)
unfolding may_access is_visible active_operator overseer
access_agrees g id group = ground (arith, overseer_active (operator_at g.operators id))
