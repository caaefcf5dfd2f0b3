-- ===== src/Api/Auth.antt =====
-- apps/rc-api/src/auth/auth.service.ts and jwt.guard.ts: signing in, and the guard of the API.
--
-- What the servers of the MDM answer, the comparison of a password (`bcrypt.compare`) and the verification
-- of a token are parameters; `none` is an exception or a refusal. The table is a list whose ids and
-- usernames are unique; `fresh` is the id of a new row.
pub mod Signing
use ukpc_remote_control.Prelude.{
  ℕ, String, Bool, true, false, not, ◌&&◌, ◌||◌, ◌==◌, ◌+s◌, Option, none, some, List, [], ◌∷◌,
  ◌++◌, is_some, if◌then◌else◌,
}
use ukpc_remote_control.Api.Access.{OperatorRow}

-- what `issue` signs and answers
pub record Signed : Type 0 where
  pub sub : ℕ
  pub username : String
  pub role : String
  pub display_name : Option String

unfoldable pub issue : OperatorRow → Signed
issue op = record {
  sub = op.id;
  username = op.username;
  role = op.role;
  display_name = op.display_name;
}

unfoldable pub named : String → List OperatorRow → Option OperatorRow
named username [] = none
named username (op ∷ ops) =
    let rest = named username ops in if op.username == username then some op else rest

-- `op.password_hash` as a condition and for the comparison
abbrev password_ok : (String → String → Bool) → String → Option String → Bool
password_ok compare password none = false
password_ok compare password (some hash) = not (hash == "") && compare password hash

login_as : (String → String → Bool) → String → Option OperatorRow → Option Signed
login_as compare password none = none
login_as compare password (some op) =
    if op.active && password_ok compare password op.password_hash then some (issue op) else none

unfoldable pub login : (String → String → Bool) → List OperatorRow → String → String → Option Signed
unfolding login_as
login compare ops username password = login_as compare password (named username ops)

-- INSERT … ON CONFLICT (username) DO UPDATE: `change` on the row that is there
unfoldable pub upsert :
    (OperatorRow → OperatorRow) → OperatorRow → List OperatorRow → List OperatorRow
upsert change new [] = new ∷ []
upsert change new (op ∷ ops) =
    let rest = upsert change new ops in
    if op.username == new.username then change op ∷ ops else op ∷ rest

abbrev pub new_mdm : ℕ → String → OperatorRow
new_mdm fresh user = record {
  id = fresh;
  username = "mdm:" +s user;
  display_name = some user;
  password_hash = none;
  hmdm_user_id = none;
  role = "mdm_user";
  active = true;
}

abbrev pub new_hmdm : ℕ → String → ℕ → OperatorRow
new_hmdm fresh login' user_id = record {
  id = fresh;
  username = login';
  display_name = some login';
  password_hash = none;
  hmdm_user_id = some user_id;
  role = "operator";
  active = true;
}

-- `upsertFromHmdm`
unfoldable pub upsert_hmdm : List OperatorRow → ℕ → String → ℕ → List OperatorRow
upsert_hmdm ops fresh login' user_id =
    upsert (λ op. record op { hmdm_user_id = some user_id; active = true })
      (new_hmdm fresh login' user_id) ops

signed_of : Option OperatorRow → Option Signed
signed_of none = none
signed_of (some op) = some (issue op)

login_profile : List OperatorRow → ℕ → Option (String × ℕ) → List OperatorRow × Option Signed
unfolding signed_of
login_profile ops fresh none = (ops, none)
login_profile ops fresh (some (login', user_id)) =
    let ops1 = upsert_hmdm ops fresh login' user_id in (ops1, signed_of (named login' ops1))

-- `loginHmdm`, with the profile that the MDM verified
unfoldable pub login_hmdm :
    List OperatorRow → ℕ → Option (String × ℕ) → List OperatorRow × Option Signed
unfolding login_profile
login_hmdm ops fresh profile = login_profile ops fresh profile

-- the body of the answer about a single-use token
pub record Verified : Type 0 where
  pub valid : Bool
  pub user : Option String
  pub serial : Option String

abbrev pub is_serial : Option String → String → Bool
is_serial none d = false
is_serial (some serial) d = serial == d

-- the user whom the answer names for a device
unfoldable pub user_for : Option Verified → String → Option String
user_for none d = none
user_for (some v) d = elim v.user [
  | none ↦ none
  | some user ↦ if v.valid && not (user == "") && is_serial v.serial d then some user else none
]

-- `if (!op.active || op.role !== 'mdm_user') throw`
unfoldable pub admit_mdm : Option OperatorRow → Option Signed
admit_mdm none = none
admit_mdm (some op) = if not op.active || not (op.role == "mdm_user") then none else some (issue op)

sso_as : List OperatorRow → ℕ → Option String → List OperatorRow × Option Signed
unfolding admit_mdm
sso_as ops fresh none = (ops, none)
sso_as ops fresh (some user) =
    let ops1 = upsert (λ op. record op { display_name = some user }) (new_mdm fresh user) ops in
    (ops1, admit_mdm (named ("mdm:" +s user) ops1))

-- `loginSso`; `configured`: both settings of the RustDesk API are there
unfoldable pub login_sso :
    List OperatorRow → ℕ → Bool → Option Verified → String → List OperatorRow × Option Signed
unfolding sso_as user_for
login_sso ops fresh configured answer d =
    if configured then sso_as ops fresh (user_for answer d) else (ops, none)
