-- ===== src/Access/Context.antt =====
-- Who calls: the context of a request in app/schemas/dependencies.py.
pub mod Origin
use siem_sentinel_xv.Base.{
  ℕ, pos, eq_ℤ, Bool, true, false, ◌||◌, Option, none, some, List, String, find_first, ◌=ₛ◌,
  if◌then◌else◌, ◌==◌,
}
use siem_sentinel_xv.Text.{starts_with, contains, ◌+ₛ◌}
use siem_sentinel_xv.Value.{Value, Fields, get_or_null, truthy}
use siem_sentinel_xv.Number.{int_of}
use siem_sentinel_xv.Http.{Response, ok, fail, ◌>>=◌, found_or, require}
use siem_sentinel_xv.Access.{role_admin, role_analyst, check_role_permission}
use siem_sentinel_xv.Access.Users.{User, Tokens, with_id, decode_access_token, role_of, user_by_id}
use siem_sentinel_xv.Access.Agents.{AgentApiKey, validate_agent_api_key}

-- `AuthContext`
pub record AuthContext : Type 0 where
  pub user_id : Option ℕ
  pub username : String
  pub tenant_id : String
  pub role : String
  pub auth_type : String

abbrev pub user_context : User → AuthContext
user_context u = record {
  user_id = some u.id;
  username = u.email;
  tenant_id = "default";
  role = role_of u;
  auth_type = "jwt";
}

abbrev pub if_in : Option User → Option AuthContext
if_in none = none
if_in (some u) = if u.is_active then some (user_context u) else none

-- The caller whom the claims of a token name; an id that is no number raises.
unfoldable pub claims_context : List User → Option Fields → Response (Option AuthContext)
claims_context users none = ok none
claims_context users (some payload) =
    let user_id = get_or_null payload "sub" in
    if truthy user_id then (with_id user_id users >>= λ u. ok (if_in u)) else ok none

abbrev pub given_header : Option String → Option String
given_header none = none
given_header (some s) = if s =ₛ "" then none else some s

-- Part 1 of `get_current_auth_context`: the token
unfoldable pub token_context :
    Tokens → ℕ → List User → Option String → Response (Option AuthContext)
unfolding claims_context
token_context tokens now users none = ok none
token_context tokens now users (some token) =
    claims_context users (decode_access_token tokens now token)

-- The keys that count as those of a developer.
unfoldable pub is_dev_key : String → Bool
is_dev_key key = starts_with "test" key || starts_with "bench" key || contains "test" key

abbrev pub dev_context : AuthContext
dev_context = record {
  user_id = none;
  username = "agent:dev-static";
  tenant_id = "default";
  role = role_admin;
  auth_type = "dev_api_key";
}

abbrev pub agent_context : AgentApiKey → AuthContext
agent_context k = record {
  user_id = none;
  username = "agent:" +ₛ k.name;
  tenant_id = k.tenant_id;
  role = role_analyst;
  auth_type = "agent_api_key";
}

abbrev pub with_record :
    List AgentApiKey × Option AgentApiKey → List AgentApiKey × Response AuthContext
with_record (keys, none) = (keys, fail 401)
with_record (keys, some k) = (keys, ok (agent_context k))

-- Part 2: the key
unfoldable pub key_context :
    (String → String)
    → ℕ
    → List AgentApiKey
    → Option String
    → List AgentApiKey × Response AuthContext
unfolding is_dev_key
key_context sha256 now keys none = (keys, fail 401)
key_context sha256 now keys (some key) =
    if is_dev_key key
    then (keys, ok dev_context)
    else with_record (validate_agent_api_key sha256 now key keys)

abbrev pub first_context :
    Response (Option AuthContext)
    → List AgentApiKey × Response AuthContext
    → List AgentApiKey
    → List AgentApiKey × Response AuthContext
first_context (fail status) other keys = (keys, fail status)
first_context (ok (some ctx)) other keys = (keys, ok ctx)
first_context (ok none) other keys = other

-- `get_current_auth_context`: the keys, whose rows a validation changes, and the caller
unfoldable pub get_current_auth_context :
    (String → String)
    → Tokens
    → ℕ
    → List User
    → List AgentApiKey
    → Option String
    → Option String
    → List AgentApiKey × Response AuthContext
unfolding token_context key_context
get_current_auth_context sha256 tokens now users keys token x_api_key =
    first_context (token_context tokens now users (given_header token))
      (key_context sha256 now keys (given_header x_api_key)) keys

-- `require_permission`
unfoldable pub require_permission : String → Response AuthContext → Response AuthContext
unfolding check_role_permission
require_permission permission caller =
    caller >>= λ ctx. require 403 (check_role_permission ctx.role permission) >>= λ _. ok ctx

-- `get_current_user` of this file. A caller with no user's id raises: the model of a user has no column
-- that the stand-in names.
unfoldable pub user_of : List User → AuthContext → Response User
unfolding user_by_id
user_of users ctx = elim ctx.user_id [
  | none ↦ fail 500
  | some id ↦ if id == 0 then fail 500 else found_or 401 (user_by_id id users)
]
