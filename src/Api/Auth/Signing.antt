-- ===== src/Api/Auth/Signing.antt =====
-- apps/rc-api/src/auth/auth.service.ts: who is signed in by a token of the MDM console.
use mathlib.Core.Path.{subst}
use ukpc_remote_control.Prelude.{
  if◌then◌else◌, sym, not, ◌||◌, ◌&&◌, ℕ, ◌≡◌, ◌⊎◌, refl, ap, String, Bool, true, false, not, ◌||◌,
  ◌==◌, ◌+s◌, Option, none, some, List, [], ◌∷◌, arith, eq_iff, eq_refl, ◌&&◌, Bool-cases, inl, inr,
}
use ukpc_remote_control.Api.Access.{OperatorRow}
use ukpc_remote_control.Api.Auth.{
  Signed, issue, named, upsert, new_mdm, Verified, is_serial, user_for, admit_mdm, sso_as,
  login_sso,
}

-- a change of a row that keeps its name leaves the other rows alone
named-upsert_other :
    (change : OperatorRow → OperatorRow) (new : OperatorRow) (ops : List OperatorRow)
    (username : String)
    → ((op : OperatorRow) → (change op).username ≡ op.username)
    → (new.username == username) ≡ false
    → named username (upsert change new ops) ≡ named username ops
unfolding named upsert
named-upsert_other change new [] username same other = ground (arith, other)
named-upsert_other change new (op ∷ ops) username same other =
    let ih = named-upsert_other change new ops username same other in
    let kept = same op in
    ground (
      arith,
      ih,
      other,
      kept,
      eq_iff op.username new.username,
      eq_iff new.username username,
      eq_iff op.username username,
    )

-- the row of a name has the name
IsNamed : String → Option OperatorRow → Type 0
IsNamed username none = Unit
IsNamed username (some op) = op.username ≡ username

named-IsNamed : (username : String) (ops : List OperatorRow) → IsNamed username (named username ops)
unfolding named IsNamed
named-IsNamed username [] = tt
named-IsNamed username (op ∷ ops) = elim (Bool-cases (op.username == username)) [
  | inl b ↦ rw b ((eq_iff op.username username).0 b)
  | inr b ↦ rw b (named-IsNamed username ops)
]

named-upsert :
    (change : OperatorRow → OperatorRow) (new : OperatorRow) (ops : List OperatorRow)
    → ((op : OperatorRow) → (change op).username ≡ op.username)
    → named new.username (upsert change new ops)
      ≡ some (elim (named new.username ops) [ none ↦ new | some op ↦ change op ])
unfolding named upsert
named-upsert change new [] same = ground (arith, eq_refl new.username)
named-upsert change new (op ∷ ops) same = elim (Bool-cases (op.username == new.username)) [
  | inl b ↦ let kept = same op in ground (arith, b, kept)
  | inr b ↦ let ih = named-upsert change new ops same in ground (arith, b, ih)
]

-- whether an account may sign in by a token: a new one may, and one that is active and of the role
abbrev pub may_sign : Option OperatorRow → Bool
may_sign none = true
may_sign (some op) = op.active && op.role == "mdm_user"

-- Exactly who may is signed in, as the MDM's user of that name, with its role.
abbrev pub Comes : Bool → String → Option Signed → Type 0
Comes true user none = ⊥
Comes true user (some s) = (s.role ≡ "mdm_user") × (s.username ≡ "mdm:" +s user)
Comes false user signed = signed ≡ none

Comes-if :
    (active fits : Bool) (user : String) (s : Signed)
    → (fits ≡ true → s.role ≡ "mdm_user")
    → s.username ≡ "mdm:" +s user
    → Comes (active && fits) user (if not active || not fits then none else some s)
Comes-if true true user s h k = (h refl, k)
Comes-if true false user s h k = refl
Comes-if false fits user s h k = refl

abbrev refreshed : ℕ → String → Option OperatorRow → OperatorRow
refreshed fresh user none = new_mdm fresh user
refreshed fresh user (some op) = record op { display_name = some user }

admit_mdm-Comes :
    (fresh : ℕ) (user : String) (o : Option OperatorRow)
    → IsNamed ("mdm:" +s user) o
    → Comes (may_sign o) user (admit_mdm (some (refreshed fresh user o)))
unfolding admit_mdm issue IsNamed
admit_mdm-Comes fresh user none h = (refl, refl)
admit_mdm-Comes fresh user (some op) h =
    Comes-if op.active (op.role == "mdm_user") user (issue (record op { display_name = some user }))
      (λ fits. (eq_iff op.role "mdm_user").0 fits) h

-- What the answer of the MDM must say: the token is valid, and it is of this user and of this device.
abbrev pub Names : Option Verified → String → String → Type 0
Names none d user = ⊥
Names (some v) d user =
    (v.valid ≡ true) × (v.user ≡ some user) × ((user == "") ≡ false) × (v.serial ≡ some d)

-- The two outcomes: nothing happens, and no user is named; or the user that is named is signed in, if its
-- account may be, and all other accounts are as they were.
abbrev pub Signs :
    List OperatorRow → Bool → Option Verified → String → List OperatorRow × Option Signed → Type 0
Signs ops configured answer d (after, signed) =
    ((after ≡ ops)
      × (signed ≡ none)
      × ((user : String) → configured ≡ true → ¬ Names answer d user))
    ⊎ ((user : String) × (configured ≡ true)
        × Names answer d user
        × Comes (may_sign (named ("mdm:" +s user) ops)) user signed
        × ((username : String)
            → ("mdm:" +s user == username) ≡ false
            → named username after ≡ named username ops))

abbrev Chosen : Option Verified → String → Option String → Type 0
Chosen answer d none = (user : String) → ¬ Names answer d user
Chosen answer d (some user) = Names answer d user

is_serial_same : (serial : Option String) (d : String) → is_serial serial d ≡ true → serial ≡ some d
is_serial_same none d h = cc
is_serial_same (some serial) d h = ap some ((eq_iff serial d).0 h)

same_is_serial : (serial : Option String) (d : String) → serial ≡ some d → is_serial serial d ≡ true
same_is_serial serial d h = rw h (eq_refl d)

user_for-Chosen_of :
    (v : Verified) (d : String) (named_user : Option String)
    → v.user ≡ named_user
    → Chosen (some v) d (user_for (some v) d)
unfolding user_for
user_for-Chosen_of v d none h = rw h (λ user names. let e = names.1 in cc)
user_for-Chosen_of v d (some user) h =
    elim (Bool-cases (v.valid && not (user == "") && is_serial v.serial d)) [
      | inl b ↦
          rw (h, b)
            (
              ground (arith, b),
              refl,
              ground (arith, b),
              is_serial_same v.serial d (ground (arith, b)),
            )
      | inr b ↦
          rw (h, b)
            (λ other names.
              let same : Path (Option String) (some user) (some other) = names.1 in
              let serial = same_is_serial v.serial d names.3 in
              ground (arith, b, names.0, names.2, serial, same))
    ]

user_for-Chosen : (answer : Option Verified) (d : String) → Chosen answer d (user_for answer d)
unfolding user_for
user_for-Chosen none d = λ user h. h
user_for-Chosen (some v) d = user_for-Chosen_of v d v.user refl

sso_as-Signs :
    (ops : List OperatorRow) (fresh : ℕ) (answer : Option Verified) (d : String) (o : Option String)
    → Chosen answer d o
    → Signs ops true answer d (sso_as ops fresh o)
unfolding sso_as
sso_as-Signs ops fresh answer d none h = inl (refl, refl, λ user on. h user)
sso_as-Signs ops fresh answer d (some user) h =
    let change : OperatorRow → OperatorRow = λ op. record op { display_name = some user } in
    let before = named ("mdm:" +s user) ops in
    let found : named ("mdm:" +s user) (upsert change (new_mdm fresh user) ops)
        ≡ some (refreshed fresh user before) =
      named-upsert change (new_mdm fresh user) ops (λ op. refl) in
    inr (
      user,
      refl,
      h,
      subst (λ o. Comes (may_sign before) user (admit_mdm o)) (sym found)
          (admit_mdm-Comes fresh user before (named-IsNamed ("mdm:" +s user) ops)),
      λ username other.
          named-upsert_other change (new_mdm fresh user) ops username (λ op. refl) other,
    )

-- Where the check of tokens is set up and the MDM answers that the token is valid, of a user with a name and
-- of this very device, this user is signed in as an `mdm_user` under the name `mdm:<user>`, but not if
-- there is an account of this name that is not active or has another role; no other account changes. In any other case nobody is signed in and no account changes.
pub login_sso-Signs :
    (ops : List OperatorRow) (fresh : ℕ) (configured : Bool) (answer : Option Verified) (d : String)
    → Signs ops configured answer d (login_sso ops fresh configured answer d)
unfolding login_sso
login_sso-Signs ops fresh true answer d =
    sso_as-Signs ops fresh answer d (user_for answer d) (user_for-Chosen answer d)
login_sso-Signs ops fresh false answer d = inl (refl, refl, λ user on h. ground (arith, on))
