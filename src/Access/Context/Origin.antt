-- ===== src/Access/Context/Origin.antt =====
-- Where a caller's context comes from, `get_current_auth_context` of app/schemas/dependencies.py.
use siem_sentinel_xv.Base.{
  ℕ, ℤ, pos, negsuc, eq_ℤ, ◌⊎◌, ◌≡◌, ◌∙◌, sym, refl, ap, true, false, Option, none, some, List,
  String, Member, find_first, find_first_found, ◌=ₛ◌, arith, eq_iff, Bool-cases, some_inj, inl, inr,
}
use siem_sentinel_xv.Text.{strip}
use siem_sentinel_xv.Value.{Fields, get_or_null, truthy}
use siem_sentinel_xv.Number.{int_of}
use siem_sentinel_xv.Http.{Response, ok, fail, ◌>>=◌}
use siem_sentinel_xv.Access.Users.{User, Tokens, user_at, decode_access_token}
use siem_sentinel_xv.Access.Agents.{AgentApiKey, is_past, judge_key, judged, validate_agent_api_key}
use siem_sentinel_xv.Access.Context.{
  AuthContext, user_context, if_in, claims_context, given_header, token_context, is_dev_key,
  dev_context, agent_context, with_record, key_context, first_context, get_current_auth_context,
}

-- What stands behind a context: an active user whose id is the subject of a valid token, a developer's key, or an active
-- row of the keys that has not run out and holds the hash of the text that is sent.
pub data Origin (sha256 : String → String) (tokens : Tokens) (now : ℕ) (users : List User)
    (keys : List AgentApiKey) (token header : Option String) (ctx : AuthContext) : Type 0 where
  session :
      (t : String) (payload : Fields) (u : User)
      → token ≡ some t
      → tokens.decode now t ≡ some payload
      → int_of (get_or_null payload "sub") ≡ some (pos u.id)
      → Member u users
      → u.is_active ≡ true
      → ctx ≡ user_context u
      → Origin sha256 tokens now users keys token header ctx
  developer :
      (key : String)
      → header ≡ some key
      → is_dev_key key ≡ true
      → ctx ≡ dev_context
      → Origin sha256 tokens now users keys token header ctx
  agent :
      (key : String) (k : AgentApiKey)
      → header ≡ some key
      → Member k keys
      → k.status ≡ "active"
      → is_past now k.expires_at ≡ false
      → k.key_hash ≡ sha256 (strip key)
      → ctx ≡ agent_context k
      → Origin sha256 tokens now users keys token header ctx

ok_inj {ℓ} : {A : Type ℓ} {x y : A} → ok x ≡ ok y → x ≡ y
ok_inj {x = x} e = ap (λ r. elim r [ ok z ↦ z | fail s ↦ x ]) e

if_in_found :
    (u : Option User) (ctx : AuthContext)
    → if_in u ≡ some ctx
    → (v : User) × (u ≡ some v) × (v.is_active ≡ true) × (ctx ≡ user_context v)
if_in_found none ctx h = absurd (cc)
if_in_found (some u) ctx h = elim (Bool-cases u.is_active) [
  | inl y ↦ (u, refl, y, sym (some_inj (rw y at h)))
  | inr n ↦ absurd (ground arith)
]

own_id : (k : ℕ) (n : ℤ) → eq_ℤ (pos k) n ≡ true → n ≡ pos k
own_id k (pos m) h = ap pos (ground (arith, h))
own_id k (negsuc m) h = absurd (ground (arith, h))

user_at_found :
    (n : Option ℤ) (users : List User) (ctx : AuthContext)
    → (user_at n users >>= λ u. ok (if_in u)) ≡ ok (some ctx)
    → (u : User) × (n ≡ some (pos u.id))
      × Member u users
      × (u.is_active ≡ true)
      × (ctx ≡ user_context u)
user_at_found none users ctx h = cc
user_at_found (some n) users ctx h =
    let found = if_in_found (find_first (λ u. eq_ℤ (pos u.id) n) users) ctx (ok_inj h) in
    let (own, m) = find_first_found (λ u. eq_ℤ (pos u.id) n) users found.0 found.1 in
    (found.0, ap some (own_id found.0.id n own), m, found.2, found.3)

claims_context_found :
    (users : List User) (claims : Option Fields) (ctx : AuthContext)
    → claims_context users claims ≡ ok (some ctx)
    → (payload : Fields) × (claims ≡ some payload)
      × (u : User) × (int_of (get_or_null payload "sub") ≡ some (pos u.id))
      × Member u users
      × (u.is_active ≡ true)
      × (ctx ≡ user_context u)
unfolding claims_context
claims_context_found users none ctx h = cc
claims_context_found users (some payload) ctx h =
    elim (Bool-cases (truthy (get_or_null payload "sub"))) [
      | inl y ↦
          let (u, i, m, a, c) =
            user_at_found (int_of (get_or_null payload "sub")) users ctx (rw y at h) in
          (payload, refl, u, i, m, a, c)
      | inr n ↦ cc (rw n at h)
    ]

token_context-Origin :
    (sha256 : String → String) (tokens : Tokens) (now : ℕ) (users : List User)
    (keys : List AgentApiKey) (token header : Option String) (ctx : AuthContext)
    → token_context tokens now users token ≡ ok (some ctx)
    → Origin sha256 tokens now users keys token header ctx
unfolding token_context claims_context decode_access_token
token_context-Origin sha256 tokens now users keys none header ctx h = cc
token_context-Origin sha256 tokens now users keys (some t) header ctx h =
    let (payload, e, u, i, m, a, c) = claims_context_found users (tokens.decode now t) ctx h in
    session t payload u refl e i m a c

judged-Origin :
    (now : ℕ) (k j : AgentApiKey)
    → judged now (some k) ≡ some j
    → (k.status ≡ "active")
      × (is_past now k.expires_at ≡ false)
      × (agent_context j ≡ agent_context k)
unfolding judge_key
judged-Origin now k j h = (
  ground (arith, eq_iff k.status "active"),
  ground (arith, eq_iff k.status "active"),
  ground (arith, eq_iff k.status "active"),
)

-- A key that is found, as the row that stands behind it.
judged_found :
    (now : ℕ) (found : Option AgentApiKey) (j : AgentApiKey)
    → judged now found ≡ some j
    → (k : AgentApiKey) × (found ≡ some k)
      × (k.status ≡ "active")
      × (is_past now k.expires_at ≡ false)
      × (agent_context j ≡ agent_context k)
judged_found now none j h = cc
judged_found now (some k) j h =
    let (active, in_time, same) = judged-Origin now k j h in (k, refl, active, in_time, same)

with_record_found :
    (r : List AgentApiKey × Option AgentApiKey) (ctx : AuthContext)
    → (with_record r).1 ≡ ok ctx
    → (j : AgentApiKey) × (r.1 ≡ some j) × (ctx ≡ agent_context j)
with_record_found (keys, none) ctx h = cc
with_record_found (keys, some j) ctx h = (j, refl, sym (ok_inj h))

validated_found :
    (sha256 : String → String) (now : ℕ) (key : String) (keys : List AgentApiKey) (j : AgentApiKey)
    → (validate_agent_api_key sha256 now key keys).1 ≡ some j
    → judged now (find_first (λ k. k.key_hash =ₛ sha256 (strip key)) keys) ≡ some j
unfolding validate_agent_api_key
validated_found sha256 now key keys j h = elim (Bool-cases (key =ₛ "")) [
  | inl y ↦ cc (rw y at h)
  | inr n ↦ rw n at h
]

key_context-Origin :
    (sha256 : String → String) (tokens : Tokens) (now : ℕ) (users : List User)
    (keys : List AgentApiKey) (token header : Option String) (ctx : AuthContext)
    → (key_context sha256 now keys header).1 ≡ ok ctx
    → Origin sha256 tokens now users keys token header ctx
unfolding key_context
key_context-Origin sha256 tokens now users keys token none ctx h = cc
key_context-Origin sha256 tokens now users keys token (some key) ctx h =
    elim (Bool-cases (is_dev_key key)) [
      | inl y ↦ developer key refl y (sym (ok_inj (rw y at h)))
      | inr n ↦
          let (j, valid, c) =
            with_record_found (validate_agent_api_key sha256 now key keys) ctx (rw n at h) in
          let (k, found, active, in_time, same) =
            judged_found now _ j (validated_found sha256 now key keys j valid) in
          let (hash, m) = find_first_found _ keys k found in
          agent key k refl m active in_time ((eq_iff k.key_hash (sha256 (strip key))).0 hash)
            (c ∙ same)
    ]

-- Which of two contexts is the one that is found.
first_context_found :
    (one : Response (Option AuthContext)) (other : List AgentApiKey × Response AuthContext)
    (keys : List AgentApiKey) (ctx : AuthContext)
    → (first_context one other keys).1 ≡ ok ctx
    → (one ≡ ok (some ctx)) ⊎ (other.1 ≡ ok ctx)
first_context_found (fail status) other keys ctx h = cc
first_context_found (ok none) other keys ctx h = inr h
first_context_found (ok (some c)) other keys ctx h = inl (ap (λ x. ok (some x)) (ok_inj h))

-- Nobody gets a context from nowhere: behind each there is an active user of the database whose id is the
-- subject of a valid token, or a text that counts as a developer's key, or an active row of the keys that has not run
-- out and whose hash is that of the text which was sent; and the context is that user's, the developer's
-- or that row's, its tenant and its role included.
pub get_current_auth_context-Origin :
    (sha256 : String → String) (tokens : Tokens) (now : ℕ) (users : List User)
    (keys : List AgentApiKey) (token header : Option String) (ctx : AuthContext)
    → (get_current_auth_context sha256 tokens now users keys token header).1 ≡ ok ctx
    → Origin sha256 tokens now users keys (given_header token) (given_header header) ctx
unfolding get_current_auth_context
get_current_auth_context-Origin sha256 tokens now users keys token header ctx h =
    elim (first_context_found (token_context tokens now users (given_header token))
      (key_context sha256 now keys (given_header header)) keys ctx h) [
        | inl one ↦
            token_context-Origin sha256 tokens now users keys (given_header token)
              (given_header header) ctx one
        | inr other ↦
            key_context-Origin sha256 tokens now users keys (given_header token)
              (given_header header) ctx other
      ]
