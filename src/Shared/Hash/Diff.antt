-- ===== src/Shared/Hash/Diff.antt =====
-- `capsDiff` finds no difference exactly between equal capabilities (packages/shared/src/hash.ts).
use ukpc_remote_control.Prelude.{
  ◌≡◌, refl, sym, ap, ◌∙◌, ◌↔◌, Bool, true, eq_iff, eq_refl, Option, none, some, [], nat_eq, arith,
}
use ukpc_remote_control.Shared.Types.{KnoxState, ProjectMedia, Encoder, Caps}
use ukpc_remote_control.Shared.Hash.{media_no, knox_no, bool_eq, encoder_eq, changes_of, caps_diff}

media_eq : (a b : ProjectMedia) → nat_eq (media_no a) (media_no b) ≡ true → a ≡ b
media_eq a b h = ground arith

knox_eq : (a b : KnoxState) → nat_eq (knox_no a) (knox_no b) ≡ true → a ≡ b
knox_eq a b h = ground arith

bool_eq_sound : (a b : Bool) → bool_eq a b ≡ true → a ≡ b
bool_eq_sound a b h = ground arith

encoder_eq_sound : (a b : Option Encoder) → encoder_eq a b ≡ true → a ≡ b
encoder_eq_sound none none h = refl
encoder_eq_sound none (some b) h = cc
encoder_eq_sound (some a) none h = cc
encoder_eq_sound (some a) (some b) h = ground (arith, eq_iff a.name b.name, bool_eq_sound a.hw b.hw)

encoder_eq_refl : (a : Option Encoder) → encoder_eq a a ≡ true
encoder_eq_refl none = refl
encoder_eq_refl (some a) = ground (arith, eq_refl a.name)

changes_of_self : (a : Caps) → changes_of a a ≡ []
unfolding changes_of
changes_of_self a = ground (arith, encoder_eq_refl a.encoder)

no_changes : (a b : Caps) → changes_of a b ≡ [] → a ≡ b
unfolding changes_of
no_changes a b h = ground (
  arith,
  media_eq a.project_media b.project_media,
  bool_eq_sound a.a11y b.a11y,
  knox_eq a.knox b.knox,
  bool_eq_sound a.overlay b.overlay,
  bool_eq_sound a.secure_settings b.secure_settings,
  encoder_eq_sound a.encoder b.encoder,
)

-- No change is found exactly where the capabilities are the same.
pub caps_diff_iff : (prev next : Caps) → (caps_diff (some prev) next ≡ []) ↔ (prev ≡ next)
unfolding caps_diff
caps_diff_iff prev next =
    (λ h. no_changes prev next h, λ e. ap (changes_of prev) (sym e) ∙ changes_of_self prev)
