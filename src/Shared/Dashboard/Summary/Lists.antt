-- ===== src/Shared/Dashboard/Summary/Lists.antt =====
-- The lists of devices behind the numbers of `summarizeFleet` (packages/shared/src/dashboard.ts).

use ukpc_remote_control.Prelude.{
  ℕ, ◌≡◌, refl, sym, ap, ◌∙◌, String, Bool, true, false, ◌==◌, some, List, [], ◌∷◌, ◌++◌,
  append-nil, append_assoc, inl, inr, arith, eq_iff, Dict, lookup, lookup-insert, push_if, get_or,
  if◌then◌else◌, Bool-cases,
}
use ukpc_remote_control.Shared.Dashboard.{DashRow}
use ukpc_remote_control.Shared.Dashboard.Rows.{row_keys}
use ukpc_remote_control.Shared.Dashboard.Summary.{
  add_to, add_all, Fleet, scan_row, scan_rows, start, ids, summarize_fleet,
}

-- a device once for every time that its row has the key
abbrev pub copies : String → List String → String → List String
copies key [] id = []
copies key (k ∷ ks) id = let rest = copies key ks id in if k == key then id ∷ rest else rest

-- the devices that the rows list under a key, in the order of the rows
abbrev pub listed : ℕ → String → List DashRow → List String
listed now key [] = []
listed now key (r ∷ rs) = copies key (row_keys now r) r.device_id ++ listed now key rs

ids-add_to :
    (lists : Dict (List String)) (k key id : String)
    → ids (add_to lists k id) key ≡ ids lists key ++ (if k == key then id ∷ [] else [])
ids-add_to lists k key id = elim (Bool-cases (k == key)) [
  | inl e ↦
      let same : k ≡ key = ground (arith, eq_iff k key) in
      let found : lookup key (add_to lists k id) ≡ some (ids lists k ++ id ∷ []) =
        lookup-insert k key (ids lists k ++ id ∷ []) lists ∙ ground arith in
      rw e (ap (λ o. get_or o []) found ∙ ap (λ x. ids lists x ++ id ∷ []) same)
  | inr e ↦
      let found : lookup key (add_to lists k id) ≡ lookup key lists =
        lookup-insert k key (ids lists k ++ id ∷ []) lists ∙ ground arith in
      rw e (ap (λ o. get_or o []) found ∙ sym (append-nil (ids lists key)))
]

push_if-append :
    (b : Bool) (x : String) (rest : List String)
    → push_if b x ++ rest ≡ (if b then x ∷ rest else rest)
push_if-append true x rest = refl
push_if-append false x rest = refl

ids-add_all :
    (lists : Dict (List String)) (key id : String) (keys : List String)
    → ids (add_all lists keys id) key ≡ ids lists key ++ copies key keys id
unfolding add_all
ids-add_all lists key id [] = sym (append-nil (ids lists key))
ids-add_all lists key id (k ∷ ks) =
    ids-add_all (add_to lists k id) key id ks
    ∙ ap (λ xs. xs ++ copies key ks id) (ids-add_to lists k key id)
    ∙ append_assoc (ids lists key) (push_if (k == key) id) (copies key ks id)
    ∙ ap (λ xs. ids lists key ++ xs) (push_if-append (k == key) id (copies key ks id))

ids-scan_rows :
    (now : ℕ) (key : String) (f : Fleet) (rows : List DashRow)
    → ids (scan_rows now f rows).lists key ≡ ids f.lists key ++ listed now key rows
unfolding scan_rows scan_row
ids-scan_rows now key f [] = sym (append-nil (ids f.lists key))
ids-scan_rows now key f (r ∷ rs) =
    ids-scan_rows now key (scan_row now f r) rs
    ∙ ap (λ xs. xs ++ listed now key rs) (ids-add_all f.lists key r.device_id (row_keys now r))
    ∙ append_assoc (ids f.lists key) (copies key (row_keys now r) r.device_id) (listed now key rs)

module _ (locale_lt : String → String → Bool) where
  -- Behind every key the summary lists the devices whose row has the key, in the order of the rows.
  pub device_lists :
      (rows : List DashRow) (now max_attention : ℕ) (key : String)
      → ids (summarize_fleet locale_lt rows now max_attention).lists key ≡ listed now key rows
  unfolding summarize_fleet lookup
  device_lists rows now max_attention key = ids-scan_rows now key start rows
