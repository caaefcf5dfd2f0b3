-- ===== src/Shared/Hash.antt =====
-- packages/shared/src/hash.ts: the hash of the capabilities of a device, and how they differ.
--
-- `stringify` is `stableStringify` on capabilities, `sha1` the hash function. The texts that
-- `JSON.stringify` gives are equal where the values are.
pub mod Diff
use ukpc_remote_control.Prelude.{
  ℕ, String, Bool, true, false, not, ◌&&◌, ◌==◌, ◌+s◌, Option, none, some, List, [], ◌∷◌, ◌++◌,
  nat_eq, push_if, if◌then◌else◌,
}
use ukpc_remote_control.Shared.Types.{
  KnoxState, licensed, unlicensed, unsupported, ProjectMedia, allow, default, blocked, Encoder,
  Caps,
}
use ukpc_remote_control.Db.{Cell, media, knox, flag, encoder, absent, Change, initial, changed}

unfoldable pub caps_hash : (Caps → String) → (String → String) → Caps → String → String
caps_hash stringify sha1 caps ver = sha1 (stringify caps +s ver)

abbrev pub media_no : ProjectMedia → ℕ
media_no allow = 0
media_no default = 1
media_no blocked = 2

abbrev pub knox_no : KnoxState → ℕ
knox_no licensed = 0
knox_no unlicensed = 1
knox_no unsupported = 2

abbrev pub bool_eq : Bool → Bool → Bool
bool_eq true b = b
bool_eq false b = not b

abbrev pub encoder_eq : Option Encoder → Option Encoder → Bool
encoder_eq none none = true
encoder_eq none (some e) = false
encoder_eq (some e) none = false
encoder_eq (some a) (some b) = a.name == b.name && bool_eq a.hw b.hw

abbrev pub cell_of : Option Encoder → Cell
cell_of none = absent
cell_of (some e) = encoder e.name e.hw

-- the loop over the fields of both objects
unfoldable pub changes_of : Caps → Caps → List Change
changes_of a b =
    push_if (not (nat_eq (media_no a.project_media) (media_no b.project_media)))
      (changed "projectMedia" (media a.project_media) (media b.project_media))
    ++ (push_if (not (bool_eq a.a11y b.a11y)) (changed "a11y" (flag a.a11y) (flag b.a11y))
        ++ (push_if (not (nat_eq (knox_no a.knox) (knox_no b.knox)))
              (changed "knox" (knox a.knox) (knox b.knox))
            ++ (push_if (not (bool_eq a.overlay b.overlay))
                  (changed "overlay" (flag a.overlay) (flag b.overlay))
                ++ (push_if (not (bool_eq a.secure_settings b.secure_settings))
                      (changed "secureSettings" (flag a.secure_settings) (flag b.secure_settings))
                    ++ push_if (not (encoder_eq a.encoder b.encoder))
                        (changed "encoder" (cell_of a.encoder) (cell_of b.encoder))))))

unfoldable pub caps_diff : Option Caps → Caps → List Change
unfolding changes_of
caps_diff none next = initial ∷ []
caps_diff (some prev) next = changes_of prev next
