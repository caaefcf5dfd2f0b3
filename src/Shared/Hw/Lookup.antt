-- ===== src/Shared/Hw/Lookup.antt =====
-- Which value a normalized hardware sample has under a key (packages/shared/src/hw.ts).
use ukpc_remote_control.Prelude.{
  ◌≡◌, refl, ap, ◌∙◌, inl, inr, String, Bool, true, false, ◌&&◌, ◌==◌, Option, none, some, List, [],
  ◌∷◌, arith, eq_iff, Number, all, not, lookup, if◌then◌else◌, Bool-cases,
}
use mathlib.Core.Path.{subst}
use ukpc_remote_control.Shared.Json.{Json, is_object, field}
use ukpc_remote_control.Shared.Hw.{
  Kind, Value, HwSample, sample_fields, kept, store, keep_fields, time_of, sample_at,
  normalize_hw_sample,
}

-- the kind of a field decides what is kept of its value
abbrev pub kept_as : Option Kind → Option Json → Option Value
kept_as none o = none
kept_as (some kind) o = kept kind o

is_unique : List (String × Kind) → Bool
is_unique [] = true
is_unique ((key, kind) ∷ rest) = all (λ f. not (f.0 == key)) rest && is_unique rest

-- `o`, or `d` if there is none
first : Option Value → Option Value → Option Value
first none d = d
first (some v) d = some v

first-none : (o : Option Value) → first o none ≡ o
unfolding first
first-none none = refl
first-none (some v) = refl

lookup-store :
    (key name : String) (o : Option Value) (rest : List (String × Value))
    → lookup key (store name o rest)
      ≡ (if name == key then first o (lookup key rest) else lookup key rest)
unfolding store first lookup
lookup-store key name none rest = ground arith
lookup-store key name (some v) rest = refl

both : (a b : Bool) → (a && b) ≡ true → (a ≡ true) × (b ≡ true)
both true b h = (refl, h)
both false b h = cc

lookup-none :
    (key : String) (fs : List (String × Kind))
    → all (λ f. not (f.0 == key)) fs ≡ true
    → lookup key fs ≡ none
unfolding lookup
lookup-none key [] h = refl
lookup-none key ((name, kind) ∷ rest) h =
    let (e, away) = both (not (name == key)) (all (λ f. not (f.0 == key)) rest) h in
    let other : (name == key) ≡ false = ground arith in rw other (lookup-none key rest away)

lookup-keep_fields :
    (raw : Json) (key : String) (fs : List (String × Kind))
    → is_unique fs ≡ true
    → lookup key (keep_fields raw fs) ≡ kept_as (lookup key fs) (field key raw)
unfolding keep_fields lookup is_unique
lookup-keep_fields raw key [] h = refl
lookup-keep_fields raw key ((name, kind) ∷ rest) h =
    let (away, unique) = both (all (λ f. not (f.0 == name)) rest) (is_unique rest) h in
    let ih = lookup-keep_fields raw key rest unique in
    let found = lookup-store key name (kept kind (field name raw)) (keep_fields raw rest) in
    elim (Bool-cases (name == key)) [
      | inl e ↦
          let same : name ≡ key = ground (arith, eq_iff name key) in
          let gone : lookup key rest ≡ none = lookup-none key rest (rw (← same) away) in
          let late : lookup key (keep_fields raw rest) ≡ none =
            ih ∙ ap (λ o. kept_as o (field key raw)) gone in
          found
          ∙ rw e (
              ap (first (kept kind (field name raw))) late
              ∙ first-none (kept kind (field name raw))
              ∙ ap (λ k. kept kind (field k raw)) same)
      | inr e ↦ found ∙ rw e ih
    ]

sample_fields_unique : is_unique sample_fields ≡ true
unfolding is_unique
sample_fields_unique = refl

FieldsAny : Json → String → Option HwSample → Type 0
FieldsAny raw key none = Unit
FieldsAny raw key (some s) =
    lookup key s.fields ≡ kept_as (lookup key sample_fields) (field key raw)

sample_at-FieldsAny :
    (raw : Json) (key : String) (t : Option Number) → FieldsAny raw key (sample_at raw t)
unfolding sample_at FieldsAny
sample_at-FieldsAny raw key none = tt
sample_at-FieldsAny raw key (some t) = lookup-keep_fields raw key sample_fields sample_fields_unique

normalize-FieldsAny : (raw : Json) (key : String) → FieldsAny raw key (normalize_hw_sample raw)
unfolding normalize_hw_sample FieldsAny
normalize-FieldsAny raw key = elim (Bool-cases (is_object raw)) [
  | inl e ↦ rw e (sample_at-FieldsAny raw key (time_of (field "ts" raw)))
  | inr e ↦ rw e tt
]

-- A key leads in a normalized sample to what the rule of its kind keeps of the value that the device
-- sent, and to nothing when the key is no known field.
pub normalize_hw_sample-fields :
    (raw : Json) (s : HwSample) (key : String)
    → normalize_hw_sample raw ≡ some s
    → lookup key s.fields ≡ kept_as (lookup key sample_fields) (field key raw)
unfolding FieldsAny
normalize_hw_sample-fields raw s key h = subst (FieldsAny raw key) h (normalize-FieldsAny raw key)
