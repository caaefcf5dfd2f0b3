-- ===== src/Shared/Json.antt =====
-- Values that `JSON.parse` gives. A text is its UTF-16 code units, which is what `slice` counts.
use ukpc_remote_control.Prelude.{
  ℕ, String, Bool, true, false, ◌==◌, Option, none, some, List, [], ◌∷◌, Number, take, nat_eq,
  if◌then◌else◌,
}

mutual
  pub data Json : Type 0 where
    null : Json
    bool : Bool → Json
    number : Number → Json
    text : List ℕ → Json
    array : Elems → Json
    object : Fields → Json

  pub data Elems : Type 0 where
    no_elems : Elems
    elem_then : Json → Elems → Elems

  pub data Fields : Type 0 where
    no_fields : Fields
    field_then : String → Json → Fields → Fields

unfoldable pub find : String → Fields → Option Json
find key no_fields = none
find key (field_then name value rest) = if name == key then some value else find key rest

-- `(raw as Record<string, unknown>)[key]` of what is no `null`: `none` is `undefined`
unfoldable pub field : String → Json → Option Json
unfolding find
field key (object fields) = find key fields
field key _ = none

-- `raw && typeof raw === 'object'`
abbrev pub is_object : Json → Bool
is_object (object _) = true
is_object (array _) = true
is_object _ = false

-- `s.replace(/\u0000/g, '')`
unfoldable pub without_nul : List ℕ → List ℕ
without_nul [] = []
without_nul (u ∷ us) = let rest = without_nul us in if nat_eq u 0 then rest else u ∷ rest

-- `s.replace(/\u0000/g, '').slice(0, max)`
unfoldable pub clean : ℕ → List ℕ → List ℕ
unfolding without_nul
clean max s = take max (without_nul s)
