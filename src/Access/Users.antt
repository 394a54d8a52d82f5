-- ===== src/Access/Users.antt =====
-- Users, sessions and the administration of users: app/routers/auth.py and app/routers/admin_users.py. The
-- hash of a password, its check and the token library are arguments.
use siem_sentinel_xv.Base.{
  ℕ, ℤ, ◌+◌, ◌*◌, pos, eq_ℤ, ◌==◌, Bool, true, false, not, Option, none, some, List, String, [],
  ◌∷◌, ◌++◌, find_first, update_first, remove_first, ◌=ₛ◌, if◌then◌else◌,
}
use siem_sentinel_xv.Text.{decimal}
use siem_sentinel_xv.Value.{
  Value, int, str, list, Items, nil, cons, Fields, end, field, get_or_null, is_null,
}
use siem_sentinel_xv.Number.{int_of}
use siem_sentinel_xv.Http.{Response, ok, fail, ◌>>=◌, found_or, require}
use siem_sentinel_xv.Access.{role_admin, role_analyst, role_permissions}

-- app/models/user.py
pub record User : Type 0 where
  pub id : ℕ
  pub email : String
  pub full_name : Option String
  pub hashed_password : String
  pub is_active : Bool
  pub is_admin : Bool

-- The token library: a token of some claims that runs out at a time, and the claims of a token that is
-- signed and has not run out at a time.
pub record Tokens : Type 0 where
  pub encode : Fields → ℕ → String
  pub decode : ℕ → String → Option Fields

-- `create_access_token`, at a time and for so many minutes
unfoldable pub create_access_token : Tokens → ℕ → ℕ → Fields → String
create_access_token tokens now minutes claims = tokens.encode claims (now + minutes * 60 * 1000000)

-- `decode_access_token`
unfoldable pub decode_access_token : Tokens → ℕ → String → Option Fields
decode_access_token tokens now token = tokens.decode now token

unfoldable pub text_items : List String → Items
text_items [] = nil
text_items (s ∷ rest) = cons (str s) (text_items rest)

-- `get_user_by_email`
unfoldable pub get_user_by_email : String → List User → Option User
get_user_by_email email users = find_first (λ u. u.email =ₛ email) users

unfoldable pub user_by_id : ℕ → List User → Option User
user_by_id id users = find_first (λ u. u.id == id) users

-- `authenticate_user`
unfoldable pub authenticate_user :
    (String → String → Bool) → List User → String → String → Option User
unfolding get_user_by_email
authenticate_user verify users email password = elim (get_user_by_email email users) [
  | none ↦ none
  | some u ↦
      if not u.is_active
      then none
      else if not (verify password u.hashed_password)
      then none
      else some u
]

-- `register_user`, for the id that the database gives next
unfoldable pub register_user :
    (String → String) → ℕ → String → Option String → String → List User → Response (List User)
register_user hash next email full_name password users = elim (get_user_by_email email users) [
  | some u ↦ fail 400
  | none ↦ ok (
      users
      ++ record {
        id = next;
        email = email;
        full_name = full_name;
        hashed_password = hash password;
        is_active = true;
        is_admin = false;
      }
        ∷ [])
]

pub record Login : Type 0 where
  pub access_token : String
  pub user_id : ℕ
  pub tenant_id : String
  pub role : String
  pub permissions : List String

abbrev pub role_of : User → String
role_of user = if user.is_admin then role_admin else role_analyst

-- The claims of a session; a user has no tenant of its own.
unfoldable pub session_claims : User → Fields
unfolding text_items role_permissions
session_claims user = field "sub" (str (decimal user.id)) (
    field "user_id" (int (pos user.id)) (
      field "tenant_id" (str "default") (
        field "role" (str (role_of user))
          (field "permissions" (list (text_items (role_permissions (role_of user)))) end))))

-- `login_for_access_token`
unfoldable pub login_for_access_token :
    (String → String → Bool) → Tokens → ℕ → ℕ → List User → String → String → Response Login
unfolding create_access_token
login_for_access_token verify tokens now minutes users email password =
    found_or 401 (authenticate_user verify users email password) >>= λ user. ok (record {
      access_token = create_access_token tokens now minutes (session_claims user);
      user_id = user.id;
      tenant_id = "default";
      role = role_of user;
      permissions = role_permissions (role_of user);
    })

-- The user of an id, which raises if it is no number.
abbrev pub user_at : Option ℤ → List User → Response (Option User)
user_at none users = fail 500
user_at (some n) users = ok (find_first (λ u. eq_ℤ (pos u.id) n) users)

abbrev pub with_id : Value → List User → Response (Option User)
with_id v users = user_at (int_of v) users

abbrev pub if_active : Option User → Response User
if_active none = fail 401
if_active (some u) = if u.is_active then ok u else fail 401

-- `get_current_user`
unfoldable pub get_current_user : Tokens → ℕ → List User → String → Response User
get_current_user tokens now users token = found_or 401 (tokens.decode now token) >>= λ payload.
    let user_id = get_or_null payload "sub" in
    if is_null user_id then fail 401 else with_id user_id users >>= if_active

-- `forgot_password`: the address and the token that are mailed, if the address is known
unfoldable pub forgot_password : Tokens → ℕ → List User → String → Option (String × String)
unfolding create_access_token
forgot_password tokens now users email = elim (get_user_by_email email users) [
  | none ↦ none
  | some u ↦ some (
    u.email,
    create_access_token tokens now 60
        (field "sub" (str (decimal u.id)) (field "scope" (str "password_reset") end)),
  )
]

-- `_require_admin`
abbrev pub require_admin : User → Response (Unit {0})
require_admin u = require 403 u.is_admin

-- `create_user`
unfoldable pub create_user :
    (String → String)
    → User
    → ℕ
    → String
    → Option String
    → String
    → Bool
    → List User
    → Response (List User)
create_user hash current next email full_name password is_admin users =
    require_admin current >>= λ _. elim (get_user_by_email email users) [
      | some u ↦ fail 400
      | none ↦ ok (
          users
          ++ record {
            id = next;
            email = email;
            full_name = full_name;
            hashed_password = hash password;
            is_active = true;
            is_admin = is_admin;
          }
            ∷ [])
    ]

-- UserUpdateIn
pub record UserUpdate : Type 0 where
  pub full_name : Option String
  pub is_admin : Option Bool
  pub is_active : Option Bool

abbrev pub or_else {ℓ} : {A : Type ℓ} → Option A → A → A
or_else none x = x
or_else (some y) x = y

abbrev pub or_some {ℓ} : {A : Type ℓ} → Option A → Option A → Option A
or_some none x = x
or_some (some y) x = some y

unfoldable pub updated : UserUpdate → User → User
updated p u = record u {
  full_name = or_some p.full_name u.full_name;
  is_admin = or_else p.is_admin u.is_admin;
  is_active = or_else p.is_active u.is_active;
}

-- `update_user`
unfoldable pub update_user : User → ℕ → UserUpdate → List User → Response (List User)
update_user current user_id payload users = require_admin current >>= λ _.
    found_or 404 (user_by_id user_id users) >>= λ _.
    ok (update_first (λ u. u.id == user_id) (updated payload) users)

-- `admin_set_user_password`
unfoldable pub admin_set_user_password :
    (String → String) → User → ℕ → String → List User → Response (List User)
admin_set_user_password hash current user_id password users = require_admin current >>= λ _.
    found_or 404 (user_by_id user_id users) >>= λ _.
    ok (
      update_first (λ u. u.id == user_id) (λ u. record u { hashed_password = hash password }) users)

-- `delete_user`
unfoldable pub delete_user : User → ℕ → List User → Response (List User)
delete_user current user_id users = require_admin current >>= λ _.
    require 400 (not (user_id == current.id)) >>= λ _.
    found_or 404 (user_by_id user_id users) >>= λ _. ok (remove_first (λ u. u.id == user_id) users)
