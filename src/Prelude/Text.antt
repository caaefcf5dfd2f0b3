-- ===== src/Prelude/Text.antt =====
-- Text: the code points of a string where the program walks it, and dictionaries with string keys
-- as association lists in insertion order, each key once.
use Prim.Native.Nat.{ℕ}
use Prim.Native.Char.{Char, code}
use Prim.Native.String
use Prim.Native.String.{String}
use mathlib.Core.Path.{◌≡◌, refl, sym, ap, ◌∙◌}
use mathlib.Core.Bool.{Bool, false, ◌||◌}
use mathlib.Core.Option.{Option, none, some}
use mathlib.Core.List.{List, [], ◌∷◌}
use native.Mathlib.Omega.{arith}
use text.Mathlib.Text.{◌==◌}
use text.Mathlib.TextEquality.{eq_iff}
use text.Mathlib.TextLemmas.{append_cancel_left, cons-append}
use mathlib.Core.Logic.{inl, inr}
use ukpc_remote_control.Prelude.Tests.{if◌then◌else◌, nat_eq, Bool-cases}

abbrev pub codes : String → List ℕ
codes String.[] = []
codes (String.◌∷◌ c s) = code c ∷ codes s

-- `a + b` on strings
infixl 65 ◌+s◌
abbrev pub ◌+s◌ : String → String → String
a +s b = String.◌++◌ a b

-- `xs.includes(x)`
abbrev pub includes : List String → String → Bool
includes [] x = false
includes (y ∷ ys) x = y == x || includes ys x

-- A `Map` or an object used as one.
abbrev pub Dict {ℓ} : Type ℓ → Type ℓ
Dict V = List (String × V)

module _ {ℓ} {V : Type ℓ} where
  -- `dict.get(key)`, `dict[key]`
  unfoldable pub lookup : String → Dict V → Option V
  lookup key [] = none
  lookup key ((name, value) ∷ dict) = if name == key then some value else lookup key dict

  -- `dict.set(key, value)`, `dict[key] = value`: a key that is there keeps its place
  unfoldable pub insert : String → V → Dict V → Dict V
  insert key value [] = (key, value) ∷ []
  insert key value ((name, old) ∷ dict) =
      if name == key then (name, value) ∷ dict else (name, old) ∷ insert key value dict

  -- `dict.delete(key)`
  unfoldable pub remove : String → Dict V → Dict V
  remove key [] = []
  remove key ((name, value) ∷ dict) =
      let others = remove key dict in if name == key then others else (name, value) ∷ others

  pub lookup-insert :
      (key other : String) (value : V) (dict : Dict V)
      → lookup other (insert key value dict)
        ≡ (if key == other then some value else lookup other dict)
  unfolding insert lookup
  lookup-insert key other value [] = refl
  lookup-insert key other value ((name, old) ∷ dict) =
      let ih = lookup-insert key other value dict in
      ground (arith, ih, eq_iff name other, eq_iff name key, eq_iff key other)

  pub lookup-remove :
      (key other : String) (dict : Dict V)
      → lookup other (remove key dict) ≡ (if key == other then none else lookup other dict)
  unfolding remove lookup
  lookup-remove key other [] = ground arith
  lookup-remove key other ((name, value) ∷ dict) =
      let ih = lookup-remove key other dict in
      ground (arith, ih, eq_iff key other, eq_iff name other, eq_iff name key)

  -- an UPDATE of the row with a key
  unfoldable pub adjust : String → (V → V) → Dict V → Dict V
  adjust key f [] = []
  adjust key f ((name, value) ∷ dict) =
      let others = adjust key f dict in
      if name == key then (name, f value) ∷ others else (name, value) ∷ others

  -- what a function makes of a value that may be there
  abbrev pub on_some : (V → V) → Option V → Option V
  on_some f none = none
  on_some f (some value) = some (f value)

  pub lookup-adjust :
      (key other : String) (f : V → V) (dict : Dict V)
      → lookup other (adjust key f dict)
        ≡ (if key == other then on_some f (lookup other dict) else lookup other dict)
  unfolding adjust lookup
  lookup-adjust key other f [] = ground arith
  lookup-adjust key other f ((name, value) ∷ dict) =
      let ih = lookup-adjust key other f dict in
      ground (arith, ih, eq_iff key other, eq_iff name other, eq_iff name key)

  -- `a ?? b`
  abbrev pub or_else : Option V → Option V → Option V
  or_else none b = b
  or_else (some a) b = some a

abbrev head_or : List ℕ → ℕ
head_or [] = 0
head_or (c ∷ cs) = c

-- Texts that begin with different characters are different.
pub differ :
    (a b : Char) (p q s t : String)
    → nat_eq (code a) (code b) ≡ false
    → (String.◌∷◌ a p +s s == String.◌∷◌ b q +s t) ≡ false
differ a b p q s t h = elim (Bool-cases (String.◌∷◌ a p +s s == String.◌∷◌ b q +s t)) [
  | inl e ↦
      let first =
        ap (λ x. head_or (codes x))
          (sym (cons-append a p s)
            ∙ (eq_iff (String.◌∷◌ a p +s s) (String.◌∷◌ b q +s t)).0 e
            ∙ cons-append b q t) in
      ground (arith, first, h)
  | inr e ↦ e
]

-- Texts that differ differ after a common beginning.
pub differ_after : (p s t : String) → (s == t) ≡ false → (p +s s == p +s t) ≡ false
differ_after p s t h = elim (Bool-cases (p +s s == p +s t)) [
  | inl e ↦
      let same = append_cancel_left p s t ((eq_iff (p +s s) (p +s t)).0 e) in
      ground (arith, h, same, eq_iff s t)
  | inr e ↦ e
]
