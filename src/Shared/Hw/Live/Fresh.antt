-- ===== src/Shared/Hw/Live/Fresh.antt =====
-- The live hash after a heartbeat holds the readings of this heartbeat only
-- (packages/shared/src/hw.ts, apps/rc-ingest/src/ingest.service.ts).

use package.text.Mathlib.TextLemmas.{append_cancel_left}
use ukpc_remote_control.Prelude.{
  ℕ, ◌≡◌, refl, ap, ◌∙◌, inl, inr, String, Bool, true, false, not, ◌&&◌, ◌||◌, ◌==◌, Option, none,
  some, List, [], ◌∷◌, ◌++◌, map, Number, finite, negsuc, num, num_eq, is_finite, Dict, lookup,
  lookup-insert, lookup-remove, is_some, is_empty, any, filter, arith, eq_iff, if◌then◌else◌,
  Bool-cases,
}
use ukpc_remote_control.Shared.Json.{Json, null, bool, number, text, array, object, field}
use ukpc_remote_control.Shared.Hw.Live.{
  volatile_num, prefixed, unknown_is_minus_one, volatile_has_hw, reading, has_no, package_of,
  package_entry, set_all, delete_all, write_live, num_entry, num_entries, patch_of, hw_live_patch,
  read_back,
}

-- `a ?? b`
first : Option (List ℕ) → Option (List ℕ) → Option (List ℕ)
first none b = b
first (some a) b = some a

lookup_nil : (key : String) → lookup {V = List ℕ} key [] ≡ none
unfolding lookup
lookup_nil key = refl

first_same : (b : Bool) (o : Option (List ℕ)) → first o (if b then o else none) ≡ o
unfolding first
first_same true none = refl
first_same true (some x) = refl
first_same false none = refl
first_same false (some x) = refl

first-none : (o : Option (List ℕ)) → first o none ≡ o
unfolding first
first-none none = refl
first-none (some x) = refl

-- what is left of a value that is deleted unless the patch sets it
first_kept : (o hash : Option (List ℕ)) → (if not (is_some o) then none else first o hash) ≡ o
unfolding first
first_kept none hash = refl
first_kept (some x) hash = refl

lookup-append :
    (key : String) (xs ys : Dict (List ℕ))
    → lookup key (xs ++ ys) ≡ first (lookup key xs) (lookup key ys)
unfolding lookup first
lookup-append key [] ys = refl
lookup-append key ((k, v) ∷ xs) ys = ground (arith, lookup-append key xs ys)

lookup-set_all :
    (key : String) (set hash : Dict (List ℕ))
    → lookup key (set_all set hash) ≡ first (lookup key set) (lookup key hash)
unfolding set_all first lookup
lookup-set_all key [] hash = refl
lookup-set_all key ((k, v) ∷ rest) hash =
    lookup-insert k key v (set_all rest hash) ∙ ground (arith, lookup-set_all key rest hash)

lookup-delete_all :
    (key : String) (keys : List String) (hash : Dict (List ℕ))
    → lookup key (delete_all keys hash)
      ≡ (if any (λ k. k == key) keys then none else lookup key hash)
unfolding delete_all
lookup-delete_all key [] hash = refl
lookup-delete_all key (k ∷ ks) hash =
    lookup-remove k key (delete_all ks hash) ∙ ground (arith, lookup-delete_all key ks hash)

-- A key that is kept out of the filter is found as the filter says.
any-filter :
    (p : String → Bool) (key : String) (xs : List String)
    → any (λ k. k == key) (filter p xs) ≡ (any (λ k. k == key) xs && p key)
any-filter p key [] = refl
any-filter p key (x ∷ xs) = elim (Bool-cases (x == key)) [
  | inl e ↦
      let same : p x ≡ p key = ap p (ground (arith, eq_iff x key)) in
      ground (arith, any-filter p key xs, same)
  | inr e ↦ ground (arith, any-filter p key xs)
]

-- The prefix keeps names apart.
eq-prefixed : (a b : String) → (prefixed a == prefixed b) ≡ (a == b)
eq-prefixed a b = elim (Bool-cases (prefixed a == prefixed b)) [
  | inl f ↦
      let q : prefixed a ≡ prefixed b = ground (arith, eq_iff (prefixed a) (prefixed b)) in
      let same : a ≡ b = append_cancel_left "hw_" a b q in ground (arith, eq_iff a b)
  | inr f ↦ elim (Bool-cases (a == b)) [
    | inl e ↦
        let same : a ≡ b = ground (arith, eq_iff a b) in
        let q : prefixed a ≡ prefixed b = ap prefixed same in
        ground (arith, eq_iff (prefixed a) (prefixed b))
    | inr e ↦ ground arith
  ]
]

any-map-prefixed :
    (k : String) (ks : List String)
    → any (λ x. x == prefixed k) (map prefixed ks) ≡ any (λ x. x == k) ks
any-map-prefixed k [] = refl
any-map-prefixed k (x ∷ xs) = ground (arith, eq-prefixed x k, any-map-prefixed k xs)

-- A key that the set gives or the deletion names holds what the set gives.
lookup_written :
    (key : String) (set hash : Dict (List ℕ)) (names : List String) (o : Option (List ℕ))
    → lookup key set ≡ o
    → any (λ x. x == key) names ≡ true
    → lookup key (delete_all (filter (has_no set) names) (set_all set hash)) ≡ o
lookup_written key set hash names o found named =
    let gone : any (λ x. x == key) (filter (has_no set) names) ≡ not (is_some o) =
      any-filter (has_no set) key names ∙ rw (named, found) in
    lookup-delete_all key (filter (has_no set) names) (set_all set hash)
    ∙ rw gone (rw (lookup-set_all key set hash) (rw found (first_kept o (lookup key hash))))

app_is_no_number : (k : String) → any (λ x. x == k) volatile_num ≡ true → ("fgPkg" == k) ≡ false
app_is_no_number k h = elim (Bool-cases ("fgPkg" == k)) [
  | inl e ↦
      let same : "fgPkg" ≡ k = ground (arith, eq_iff "fgPkg" k) in
      let clash : false ≡ true = ap (λ y. any (λ x. x == y) volatile_num) same ∙ h in absurd (cc)
  | inr e ↦ e
]

AllFinite : Option Number → Type 0
AllFinite none = Unit
AllFinite (some x) = is_finite x ≡ true

reading-AllFinite : (k : String) (o : Option Json) → AllFinite (reading k o)
unfolding AllFinite reading
reading-AllFinite k none = tt
reading-AllFinite k (some null) = tt
reading-AllFinite k (some (bool b)) = tt
reading-AllFinite k (some (text s)) = tt
reading-AllFinite k (some (array elems)) = tt
reading-AllFinite k (some (object o)) = tt
reading-AllFinite k (some (number x)) = elim (Bool-cases (is_finite x)) [
  | inl e ↦
      elim (Bool-cases (
        (num_eq x (finite (negsuc 0)) && unknown_is_minus_one k)
        || (k == "display" && num_eq x (num 0)))) [ inl f ↦ rw (e, f) tt | inr f ↦ rw (e, f) e ]
  | inr e ↦ rw e tt
]

module _ (print : Number → List ℕ) (parse : List ℕ → Number) where
  shown : Option Number → Option (List ℕ)
  shown none = none
  shown (some x) = some (print x)

  lookup-num_entry :
      (k name : String) (o : Option Number)
      → lookup (prefixed k) (num_entry print parse name o) ≡ (if name == k then shown o else none)
  unfolding num_entry shown lookup
  lookup-num_entry k name none = ground arith
  lookup-num_entry k name (some x) = rw (eq-prefixed name k)

  lookup-num_entries :
      (v : Json) (k : String) (ks : List String)
      → lookup (prefixed k) (num_entries print parse v ks)
        ≡ (if any (λ x. x == k) ks then shown (reading k (field k v)) else none)
  unfolding num_entries first lookup
  lookup-num_entries v k [] = lookup_nil (prefixed k)
  lookup-num_entries v k (name ∷ ks) =
      let ih = lookup-num_entries v k ks in
      let o = reading name (field name v) in
      lookup-append (prefixed k) (num_entry print parse name o) (num_entries print parse v ks)
      ∙ elim (Bool-cases (name == k)) [
        | inl e ↦
            let same : name ≡ k = ground (arith, eq_iff name k) in
            let here : lookup (prefixed k) (num_entry print parse name o)
                ≡ shown (reading k (field k v)) =
              lookup-num_entry k name o ∙ rw e (ap (λ x. shown (reading x (field x v))) same) in
            ap (λ a. first a (lookup (prefixed k) (num_entries print parse v ks))) here
            ∙ ap (first (shown (reading k (field k v)))) ih
            ∙ rw e (first_same (any (λ x. x == k) ks) (shown (reading k (field k v))))
        | inr e ↦
            let here : lookup (prefixed k) (num_entry print parse name o) ≡ none =
              lookup-num_entry k name o ∙ rw e in
            ap (λ a. first a (lookup (prefixed k) (num_entries print parse v ks))) here
            ∙ rw (e, first) ih
      ]

  lookup-package_entry :
      (k : String) (o : Option (List ℕ))
      → any (λ x. x == k) volatile_num ≡ true
      → lookup (prefixed k) (package_entry o) ≡ none
  unfolding package_entry lookup
  lookup-package_entry k none h = refl
  lookup-package_entry k (some s) h = rw (eq-prefixed "fgPkg" k) (rw (app_is_no_number k h))

  -- The patch sets what was read now, or deletes.
  lookup-write_live :
      (v : Json) (k : String) (hash : Dict (List ℕ))
      → any (λ x. x == k) volatile_num ≡ true
      → lookup (prefixed k) (write_live (patch_of print parse v) hash)
        ≡ shown (reading k (field k v))
  unfolding write_live patch_of
  lookup-write_live v k hash h =
      let nums = num_entries print parse v volatile_num in
      let app = package_entry (package_of (field "fgPkg" v)) in
      let set = nums ++ app in
      let names = map prefixed (volatile_num ++ "fgPkg" ∷ []) in
      let o = shown (reading k (field k v)) in
      let found : lookup (prefixed k) set ≡ o =
        lookup-append (prefixed k) nums app
        ∙ ap (first (lookup (prefixed k) nums))
            (lookup-package_entry k (package_of (field "fgPkg" v)) h)
        ∙ first-none (lookup (prefixed k) nums)
        ∙ lookup-num_entries v k volatile_num
        ∙ rw h in
      let named : any (λ x. x == prefixed k) names ≡ true =
        any-map-prefixed k (volatile_num ++ "fgPkg" ∷ []) ∙ ground arith in
      lookup_written (prefixed k) set hash names o found named

  read_back-shown :
      (o : Option Number)
      → ((x : Number) → is_finite x ≡ true → (parse (print x) ≡ x) × (is_empty (print x) ≡ false))
      → AllFinite o
      → read_back print parse (shown o) ≡ o
  unfolding read_back shown AllFinite
  read_back-shown none round h = refl
  read_back-shown (some x) round h = rw (round x h).1 (rw (round x h).0 (rw h))

  -- Where a printed number is read back as it was, and a heartbeat has hardware fields, every reading
  -- of the live hash is the one of this heartbeat, or none: what was in the hash before does not stay.
  pub live_hash_fresh :
      (v : Json) (k : String) (hash : Dict (List ℕ))
      → ((x : Number) → is_finite x ≡ true → (parse (print x) ≡ x) × (is_empty (print x) ≡ false))
      → any (λ x. x == k) volatile_num ≡ true
      → volatile_has_hw (some v) ≡ true
      → read_back print parse
          (lookup (prefixed k) (write_live (hw_live_patch print parse (some v)) hash))
        ≡ reading k (field k v)
  unfolding hw_live_patch
  live_hash_fresh v k hash round known has = rw has (
      ap (read_back print parse) (lookup-write_live v k hash known)
      ∙ read_back-shown (reading k (field k v)) round (reading-AllFinite k (field k v)))
