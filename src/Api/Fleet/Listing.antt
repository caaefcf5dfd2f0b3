-- ===== src/Api/Fleet/Listing.antt =====
-- apps/rc-api/src/fleet/fleet.service.ts: `byId.get(id)!` in the listings.
use mathlib.Core.Path.{subst}
use ukpc_remote_control.Prelude.{
  ℕ, ◌≡◌, refl, sym, ap, ◌∙◌, String, Bool, true, false, ◌==◌, Option, none, some, List, [], ◌∷◌,
  ◌++◌, map, arith, eq_iff, eq_refl, All, Dict, lookup, insert, lookup-insert, Bool-cases, inl, inr,
  ◌⊎◌,
}
use ukpc_remote_control.Shared.Dashboard.{DashRow}
use ukpc_remote_control.Shared.Dashboard.Data.{DeviceBrief}
use ukpc_remote_control.Shared.Dashboard.Rows.{row_keys}
use ukpc_remote_control.Shared.Dashboard.Summary.{brief_of}
use ukpc_remote_control.Shared.Dashboard.Summary.Lists.{copies, listed, device_lists}
use ukpc_remote_control.Api.Redis.{Redis}
use ukpc_remote_control.Api.Fleet.Service.{
  Answer, found, unknown_key, by_id, cons_brief, briefs, answer_of, is_list_key, is_rollout_key,
  as_listed, BriefWithReasons, dashboard_list,
}

-- The row behind an id is there, and is of this device.
abbrev pub HasRow : Option DashRow → String → Type 0
HasRow none id = ⊥
HasRow (some row) id = row.device_id ≡ id

abbrev pub In : Dict DashRow → List String → Type 0
In table = All (λ id. HasRow (lookup id table) id)

-- The answer is a list of these devices.
abbrev pub Shows : Option (List DeviceBrief) → List String → Type 0
Shows none xs = ⊥
Shows (some bs) xs = map (λ b. b.device_id) bs ≡ xs

cons_brief-Shows :
    (o : Option DashRow) (rest : Option (List DeviceBrief)) (id : String) (xs : List String)
    → HasRow o id
    → Shows rest xs
    → Shows (cons_brief o rest) (id ∷ xs)
unfolding cons_brief brief_of
cons_brief-Shows none rest id xs h k = elim h [ ]
cons_brief-Shows (some row) none id xs h k = elim k [ ]
cons_brief-Shows (some row) (some bs) id xs h k =
    ap (λ ys. row.device_id ∷ ys) k ∙ ap (λ y. y ∷ xs) h

pub briefs-Shows :
    (table : Dict DashRow) (xs : List String) → In table xs → Shows (briefs table xs) xs
unfolding briefs
briefs-Shows table [] h = refl
briefs-Shows table (id ∷ rest) (a, h) =
    cons_brief-Shows (lookup id table) (briefs table rest) id rest a (briefs-Shows table rest h)

pub HasRow-insert :
    (r : DashRow) (table : Dict DashRow) (id : String)
    → ((r.device_id == id) ≡ true) ⊎ HasRow (lookup id table) id
    → HasRow (lookup id (insert r.device_id r table)) id
HasRow-insert r table id h =
    subst (λ o. HasRow o id) (sym (lookup-insert r.device_id id r table))
      (elim (Bool-cases (r.device_id == id)) [
        | inl b ↦ rw b ((eq_iff r.device_id id).0 b)
        | inr b ↦ rw b (elim h [ inl c ↦ ground (arith, b, c) | inr k ↦ k ])
      ])

-- what a table holds stays when rows are added
pub by_id-HasRow :
    (rows : List DashRow) (table : Dict DashRow) (id : String)
    → HasRow (lookup id table) id
    → HasRow (lookup id (by_id rows table)) id
unfolding by_id
by_id-HasRow [] table id h = h
by_id-HasRow (r ∷ rs) table id h =
    by_id-HasRow rs (insert r.device_id r table) id (HasRow-insert r table id (inr h))

In-append :
    (table : Dict DashRow) (xs ys : List String) → In table xs → In table ys → In table (xs ++ ys)
In-append table [] ys h k = k
In-append table (x ∷ xs) ys (a, h) k = (a, In-append table xs ys h k)

In-copies :
    (table : Dict DashRow) (key id : String) (keys : List String)
    → HasRow (lookup id table) id
    → In table (copies key keys id)
In-copies table key id [] h = tt
In-copies table key id (k ∷ ks) h =
    let ih = In-copies table key id ks h in
    elim (Bool-cases (k == key)) [ inl b ↦ rw b (h, ih) | inr b ↦ rw b ih ]

In-listed :
    (now : ℕ) (key : String) (rows : List DashRow) (table : Dict DashRow)
    → In (by_id rows table) (listed now key rows)
unfolding by_id
In-listed now key [] table = tt
In-listed now key (r ∷ rs) table =
    let table1 = insert r.device_id r table in
    let here =
      by_id-HasRow rs table1 r.device_id
        (HasRow-insert r table r.device_id (inl (eq_refl r.device_id))) in
    In-append (by_id rs table1) (copies key (row_keys now r) r.device_id) (listed now key rs)
      (In-copies (by_id rs table1) key r.device_id (row_keys now r) here)
      (In-listed now key rs table1)

-- The answer lists these devices, where the key is one.
abbrev pub Lists : Bool → Answer (List DeviceBrief ⊎ List BriefWithReasons) → List String → Type 0
Lists true (found (inl bs)) xs = map (λ b. b.device_id) bs ≡ xs
Lists false unknown_key xs = Unit
Lists _ _ xs = ⊥

answer_of-Lists :
    (o : Option (List DeviceBrief)) (xs : List String)
    → Shows o xs
    → Lists true (as_listed inl (answer_of o)) xs
answer_of-Lists none xs h = elim h [ ]
answer_of-Lists (some bs) xs h = h

module _ (r : Redis) (locale_lt : String → String → Bool) where
  -- For a key that does not begin with `rollout:`, the list behind a number of the dashboard has exactly the
  -- devices whose row has the key, in the order of the rows, and it finds the row of each; a key of
  -- no list is refused.
  pub dashboard_list-Lists :
      (rows : List DashRow) (now : ℕ) (key : String)
      → is_rollout_key key ≡ false
      → Lists (is_list_key key) (dashboard_list r locale_lt rows now key) (listed now key rows)
  unfolding dashboard_list
  dashboard_list-Lists rows now key h = rw h (elim (Bool-cases (is_list_key key)) [
    | inl b ↦ rw b (
        rw (device_lists locale_lt rows now 0 key) (
          answer_of-Lists (briefs (by_id rows []) (listed now key rows)) (listed now key rows)
            (briefs-Shows (by_id rows []) (listed now key rows) (In-listed now key rows []))))
    | inr b ↦ rw b tt
  ])
