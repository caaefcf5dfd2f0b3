-- ===== src/Shared/Topics/Round.antt =====
-- The device of a topic (packages/shared/src/mqtt-topics.ts).

use Prim.Native.Char.{Char, code}
use package.text.Mathlib.TextLemmas.{cons-append, nil-append}
use ukpc_remote_control.Prelude.{
  ◌≡◌, refl, sym, ap, ◌∙◌, String, Bool, true, false, not, ◌+s◌, List, [], ◌∷◌, arith, is_empty,
  nat_eq, codes, any, Bool-cases, inl, inr,
}
use ukpc_remote_control.Shared.Topics.{
  state, probe, event, head_with, split, last_of, device_id_from_topic, later, has_inner,
  starts_sys, is_sys,
}

-- no slash in a text
abbrev pub is_flat : String → Bool
is_flat s = not (any (λ c. nat_eq c b'/') (codes s))

split_flat : (s : String) → is_flat s ≡ true → split s ≡ s ∷ []
unfolding split
split_flat String.[] h = refl
split_flat (String.◌∷◌ c s) h = elim (Bool-cases (nat_eq (code c) b'/')) [
  | inl b ↦ ground (arith, b, h)
  | inr b ↦ let ih = split_flat s (ground (arith, b, h)) in rw (b, ih) refl
]

-- the last part with a text behind it
abbrev glue : List String → String → List String
glue [] d = d ∷ []
glue (part ∷ []) d = (part +s d) ∷ []
glue (part ∷ other ∷ parts) d = part ∷ glue (other ∷ parts) d

glue-head_with :
    (c : Char) (parts : List String) (d : String)
    → head_with (String.◌∷◌ c) (glue parts d) ≡ glue (head_with (String.◌∷◌ c) parts) d
glue-head_with c [] d =
    ap (λ s. s ∷ []) (sym (cons-append c "" d ∙ ap (String.◌∷◌ c) (nil-append d)))
glue-head_with c (part ∷ []) d = ap (λ s. s ∷ []) (sym (cons-append c part d))
glue-head_with c (part ∷ other ∷ parts) d = refl

head_with_some : (f : String → String) (parts : List String) → is_empty (head_with f parts) ≡ false
head_with_some f [] = refl
head_with_some f (part ∷ parts) = refl

split_some : (s : String) → is_empty (split s) ≡ false
unfolding split
split_some String.[] = refl
split_some (String.◌∷◌ c s) = elim (Bool-cases (nat_eq (code c) b'/')) [
  | inl b ↦ rw b refl
  | inr b ↦ rw b (head_with_some (String.◌∷◌ c) (split s))
]

glue_slash :
    (parts : List String) (d : String)
    → is_empty parts ≡ false
    → glue ("" ∷ parts) d ≡ "" ∷ glue parts d
glue_slash [] d h = ground (arith, h)
glue_slash (part ∷ parts) d h = refl

split-append : (p d : String) → is_flat d ≡ true → split (p +s d) ≡ glue (split p) d
unfolding split
split-append String.[] d h =
    ap split (nil-append d) ∙ split_flat d h ∙ ap (λ s. s ∷ []) (sym (nil-append d))
split-append (String.◌∷◌ c p) d h =
    let ih = split-append p d h in
    ap split (cons-append c p d) ∙ elim (Bool-cases (nat_eq (code c) b'/')) [
      | inl b ↦ rw (b, ih) (sym (glue_slash (split p) d (split_some p)))
      | inr b ↦ rw (b, ih) (glue-head_with c (split p) d)
    ]

-- The topics of a device lead back to it and to its handler, where its id has no slash.
pub topics_round :
    (d : String)
    → is_flat d ≡ true
    → (device_id_from_topic (state d) ≡ d)
      × (device_id_from_topic (probe d) ≡ d)
      × (device_id_from_topic (event d) ≡ d)
      × (has_inner "event" (event d) ≡ true)
      × (has_inner "event" (probe d) ≡ false)
      × (has_inner "probe" (probe d) ≡ true)
      × (has_inner "event" (state d) ≡ false)
      × (has_inner "probe" (state d) ≡ false)
      × (is_sys (state d) ≡ false)
      × (is_sys (probe d) ≡ false)
      × (is_sys (event d) ≡ false)
unfolding device_id_from_topic has_inner is_sys split
topics_round d h =
    let s : split (state d) ≡ _ = split-append "rc/state/" d h in
    let p : split (probe d) ≡ _ = split-append "rc/probe/" d h in
    let e : split (event d) ≡ _ = split-append "rc/event/" d h in
    (
      ap last_of s ∙ nil-append d,
      ap last_of p ∙ nil-append d,
      ap last_of e ∙ nil-append d,
      ap (later "event") e,
      ap (later "event") p,
      ap (later "probe") p,
      ap (later "event") s,
      ap (later "probe") s,
      ap starts_sys s,
      ap starts_sys p,
      ap starts_sys e,
    )
