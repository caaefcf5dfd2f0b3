-- ===== src/Shared/Dashboard/Summary/Attention.antt =====
-- The devices that `summarizeFleet` lists for attention (packages/shared/src/dashboard.ts).
use ukpc_remote_control.Prelude.{
  ℕ, zero, suc, ◌+◌, ◌≤◌, ◌≡◌, refl, sym, ap, ◌∙◌, inl, inr, String, Bool, not, ◌&&◌, ◌||◌, ◌==◌,
  List, [], ◌∷◌, ◌++◌, append-nil, append_assoc, arith, eq_iff, ltb, length, length-append, any,
  take, if◌then◌else◌, Bool-cases, insert_sorted, sort_into, sort_by,
}
use ukpc_remote_control.Shared.Dashboard.{DashRow}
use ukpc_remote_control.Shared.Dashboard.Data.{AttentionItem}
use ukpc_remote_control.Shared.Dashboard.Rows.{online_reasons, offline_reasons}
use ukpc_remote_control.Shared.Dashboard.Summary.{
  item_of, names, Fleet, scan_row, scan_rows, start, late_items, ranked, summarize_fleet,
  worse_first, score_of,
}

-- the reasons for which a device wants attention
abbrev pub reasons_of : ℕ → DashRow → List String
reasons_of now r = if r.online then online_reasons r else offline_reasons now r

module _ {ℓ} {A : Type ℓ} (p : A → Bool) where
  any-append : (xs ys : List A) → any p (xs ++ ys) ≡ (any p xs || any p ys)
  any-append [] ys = refl
  any-append (x ∷ xs) ys = ground (arith, any-append xs ys)

-- Sorting keeps what is in a list, and its length.
module _ {ℓ} {A : Type ℓ} (before : A → A → Bool) (p : A → Bool) where
  any-insert_sorted : (x : A) (ys : List A) → any p (insert_sorted before x ys) ≡ (p x || any p ys)
  unfolding insert_sorted
  any-insert_sorted x [] = ground arith
  any-insert_sorted x (y ∷ ys) = ground (arith, any-insert_sorted x ys)

  any-sort_into : (ys xs : List A) → any p (sort_into before ys xs) ≡ (any p ys || any p xs)
  unfolding sort_into
  any-sort_into ys [] = ground arith
  any-sort_into ys (x ∷ xs) =
      ground (arith, any-sort_into (insert_sorted before x ys) xs, any-insert_sorted x ys)

module _ {ℓ} {A : Type ℓ} (before : A → A → Bool) where
  length-insert_sorted :
      (x : A) (ys : List A) → length (insert_sorted before x ys) ≡ suc (length ys)
  unfolding insert_sorted
  length-insert_sorted x [] = refl
  length-insert_sorted x (y ∷ ys) = ground (arith, length-insert_sorted x ys)

  length-sort_into : (ys xs : List A) → length (sort_into before ys xs) ≡ length ys + length xs
  unfolding sort_into
  length-sort_into ys [] = omega arith
  length-sort_into ys (x ∷ xs) =
      omega (arith, length-sort_into (insert_sorted before x ys) xs, length-insert_sorted x ys)

-- what the first loop adds
abbrev online_items : List DashRow → List AttentionItem
online_items [] = []
online_items (r ∷ rs) = (if r.online then item_of r (online_reasons r) else []) ++ online_items rs

scan_rows-attention :
    (now : ℕ) (f : Fleet) (rows : List DashRow)
    → (scan_rows now f rows).attention ≡ f.attention ++ online_items rows
unfolding scan_rows scan_row
scan_rows-attention now f [] = sym (append-nil f.attention)
scan_rows-attention now f (r ∷ rs) =
    scan_rows-attention now (scan_row now f r) rs
    ∙ append_assoc f.attention (if r.online then item_of r (online_reasons r) else [])
        (online_items rs)

abbrev pub is_of : String → AttentionItem → Bool
is_of id a = a.device_id == id

-- a row of the device that gives a reason
abbrev pub is_flagged : ℕ → String → DashRow → Bool
is_flagged now id r = r.device_id == id && ltb 0 (score_of (reasons_of now r))

any-names :
    (id : String) (items : List AttentionItem)
    → any (λ x. x == id) (names items) ≡ any (is_of id) items
any-names id [] = refl
any-names id (a ∷ rest) = ap (λ b. (a.device_id == id) || b) (any-names id rest)

any-item_of :
    (id : String) (r : DashRow) (reasons : List String)
    → any (is_of id) (item_of r reasons) ≡ ((r.device_id == id) && ltb 0 (score_of reasons))
any-item_of id r reasons = ground arith

any-online_items :
    (now : ℕ) (id : String) (r : DashRow) (rs : List DashRow)
    → any (is_of id) (online_items (r ∷ rs))
      ≡ ((r.online && is_flagged now id r) || any (is_of id) (online_items rs))
any-online_items now id r rs = elim (Bool-cases r.online) [
  | inl o ↦
      any-append (is_of id) (if r.online then item_of r (online_reasons r) else [])
        (online_items rs)
      ∙ ground (arith, any-item_of id r (online_reasons r))
  | inr o ↦
      any-append (is_of id) (if r.online then item_of r (online_reasons r) else [])
        (online_items rs)
      ∙ ground arith
]

any-late_items :
    (now : ℕ) (id : String) (scored : List String) (rows : List DashRow)
    → (any (λ x. x == id) scored || any (is_of id) (late_items now scored rows))
      ≡ (any (λ x. x == id) scored || any (λ r. not r.online && is_flagged now id r) rows)
unfolding late_items
any-late_items now id scored [] = refl
any-late_items now id scored (r ∷ rs) =
    let ih = any-late_items now id scored rs in
    let skip = (r.online || any (λ x. x == r.device_id) scored) in
    let split =
      any-append (is_of id) (if skip then [] else item_of r (offline_reasons now r))
        (late_items now scored rs) in
    elim (Bool-cases (r.device_id == id)) [
      | inl e ↦
          let same : any (λ x. x == r.device_id) scored ≡ any (λ x. x == id) scored =
            ap (λ d. any (λ x. x == d) scored) (ground (arith, eq_iff r.device_id id)) in
          ground (arith, ih, split, same, any-item_of id r (offline_reasons now r))
      | inr e ↦ ground (arith, ih, split, any-item_of id r (offline_reasons now r))
    ]

any-all_online_items :
    (now : ℕ) (id : String) (rows : List DashRow)
    → any (is_of id) (online_items rows) ≡ any (λ r. r.online && is_flagged now id r) rows
any-all_online_items now id [] = refl
any-all_online_items now id (r ∷ rs) =
    any-online_items now id r rs
    ∙ ap (λ b. (r.online && is_flagged now id r) || b) (any-all_online_items now id rs)

any-split :
    (p q : DashRow → Bool) (rows : List DashRow)
    → (any (λ r. p r && q r) rows || any (λ r. not (p r) && q r) rows) ≡ any q rows
any-split p q [] = refl
any-split p q (r ∷ rs) = ground (arith, any-split p q rs)

length-items :
    (now : ℕ) (scored : List String) (rows : List DashRow)
    → length (online_items rows) + length (late_items now scored rows) ≤ length rows
unfolding late_items
length-items now scored [] = omega arith
length-items now scored (r ∷ rs) =
    let here = if r.online then item_of r (online_reasons r) else [] in
    let there =
      if r.online || any (λ x. x == r.device_id) scored
      then []
      else item_of r (offline_reasons now r) in
    ground (
      arith,
      length-items now scored rs,
      length-append here (online_items rs),
      length-append there (late_items now scored rs),
    )

take_whole : {A : Type 0} (n : ℕ) (xs : List A) → length xs ≤ n → take n xs ≡ xs
take_whole zero [] h = refl
take_whole zero (x ∷ xs) h = ground arith
take_whole (suc n) [] h = refl
take_whole (suc n) (x ∷ xs) h = ap (λ ys. x ∷ ys) (take_whole n xs (omega arith))

module _ (locale_lt : String → String → Bool) where
  any-ranked :
      (rows : List DashRow) (now : ℕ) (id : String)
      → any (is_of id) (ranked locale_lt rows now) ≡ any (is_flagged now id) rows
  unfolding ranked sort_by
  any-ranked rows now id =
      let found = (scan_rows now start rows).attention in
      let late = late_items now (names found) rows in
      let at_first : any (is_of id) found ≡ any (λ r. r.online && is_flagged now id r) rows =
        ap (any (is_of id)) (scan_rows-attention now start rows)
        ∙ any-all_online_items now id rows in
      any-sort_into (worse_first locale_lt) (is_of id) [] (found ++ late)
      ∙ any-append (is_of id) found late
      ∙ ap (λ b. b || any (is_of id) late) (sym (any-names id found))
      ∙ any-late_items now id (names found) rows
      ∙ ap (λ b. b || any (λ r. not r.online && is_flagged now id r) rows)
          (any-names id found ∙ at_first)
      ∙ any-split (λ r. r.online) (is_flagged now id) rows

  length-ranked : (rows : List DashRow) (now : ℕ) → length (ranked locale_lt rows now) ≤ length rows
  unfolding ranked sort_by
  length-ranked rows now =
      let found = (scan_rows now start rows).attention in
      let late = late_items now (names found) rows in
      omega (
        arith,
        length-sort_into (worse_first locale_lt) [] (found ++ late),
        length-append found late,
        ap length (scan_rows-attention now start rows),
        length-items now (names found) rows,
      )

  -- When the list for attention has room for all devices, a device is on it exactly when one of its
  -- rows gives a reason.
  pub attention_iff :
      (rows : List DashRow) (now max_attention : ℕ) (id : String)
      → length rows ≤ max_attention
      → any (is_of id) (summarize_fleet locale_lt rows now max_attention).attention
        ≡ any (is_flagged now id) rows
  unfolding summarize_fleet
  attention_iff rows now max_attention id room =
      ap (any (is_of id)) (
        take_whole max_attention (ranked locale_lt rows now)
          (omega (arith, length-ranked rows now)))
      ∙ any-ranked rows now id
