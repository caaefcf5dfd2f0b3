-- ===== src/Ingest/Coherence/Patch.antt =====
-- The hardware part of the live state (`hwLivePatch` of packages/shared/src/hw.ts): it writes and deletes only
-- fields that begin with `hw_`.
use ukpc_remote_control.Prelude.{
  ℕ, ◌≡◌, refl, ap, ◌∙◌, String, Bool, false, ◌==◌, Option, none, some, List, [], ◌∷◌, ◌++◌, arith,
  append_assoc, filter, map, includes, Number, Dict, lookup, Bool-cases, inl, inr,
}
use ukpc_remote_control.Shared.Json.{Json, null, field}
use ukpc_remote_control.Shared.Hw.Live.{
  prefixed, hw_live_patch, patch_of, has_no, num_entry, num_entries, reading, package_entry,
  package_of, volatile_num, volatile_has_hw,
}
use ukpc_remote_control.Ingest.{Env}
use ukpc_remote_control.Ingest.Live.{texts_in}

-- the fields that no reading of the hardware is stored under
abbrev pub IsPlain : String → Type 0
IsPlain f = (k : String) → (prefixed k == f) ≡ false

module _ (print : Number → List ℕ) (parse : List ℕ → Number) (f : String) (plain : IsPlain f) where
  lookup-num_entry :
      (k : String) (o : Option Number) (rest : Dict (List ℕ))
      → lookup f (num_entry print parse k o ++ rest) ≡ lookup f rest
  unfolding num_entry lookup
  lookup-num_entry k none rest = refl
  lookup-num_entry k (some x) rest = ground (arith, plain k)

  lookup-num_entries :
      (v : Json) (ks : List String) (rest : Dict (List ℕ))
      → lookup f (num_entries print parse v ks ++ rest) ≡ lookup f rest
  unfolding num_entries
  lookup-num_entries v [] rest = refl
  lookup-num_entries v (k ∷ ks) rest =
      ap (lookup f) (
        append_assoc (num_entry print parse k (reading k (field k v)))
          (num_entries print parse v ks) rest)
      ∙ lookup-num_entry k (reading k (field k v)) (num_entries print parse v ks ++ rest)
      ∙ lookup-num_entries v ks rest

  lookup-package_entry : (o : Option (List ℕ)) → lookup f (package_entry o) ≡ none
  unfolding package_entry lookup
  lookup-package_entry none = refl
  lookup-package_entry (some s) = ground (arith, plain "fgPkg")

  abbrev present_of : Option Json → Json
  present_of none = null
  present_of (some v) = v

  pub lookup-hw_live_patch : (v : Option Json) → lookup f (hw_live_patch print parse v).set ≡ none
  unfolding hw_live_patch patch_of lookup
  lookup-hw_live_patch v = elim (Bool-cases (volatile_has_hw v)) [
    | inl b ↦ rw b (
        lookup-num_entries (present_of v) volatile_num
          (package_entry (package_of (field "fgPkg" (present_of v))))
        ∙ lookup-package_entry (package_of (field "fgPkg" (present_of v))))
    | inr b ↦ rw b refl
  ]

  includes-filter :
      (p : String → Bool) (ks : List String) → includes (filter p (map prefixed ks)) f ≡ false
  includes-filter p [] = refl
  includes-filter p (k ∷ ks) = ground (arith, includes-filter p ks, plain k)

  pub includes-hw_live_patch :
      (v : Option Json) → includes (hw_live_patch print parse v).del f ≡ false
  unfolding hw_live_patch patch_of
  includes-hw_live_patch v = elim (Bool-cases (volatile_has_hw v)) [
    | inl b ↦ rw b (
        includes-filter (has_no (patch_of print parse (present_of v)).set)
          (volatile_num ++ "fgPkg" ∷ []))
    | inr b ↦ rw b refl
  ]

pub lookup-texts_in :
    (e : Env) (f : String) (d : Dict (List ℕ)) → lookup f d ≡ none → lookup f (texts_in e d) ≡ none
unfolding lookup
lookup-texts_in e f [] h = refl
lookup-texts_in e f ((k, v) ∷ rest) h = let ih = lookup-texts_in e f rest in ground (arith, ih, h)
