-- ===== src/Access/Agents.antt =====
-- The keys of the agents and the agents that report, app/services/agent_api_key_service.py and
-- app/routers/agents.py. SHA-256 and the random part of a key are arguments; a time is a number of
-- microseconds; the metadata of an agent is left out.
pub mod Revoked
use siem_sentinel_xv.Base.{
  ℕ, suc, ◌+◌, ◌-◌, ◌*◌, ltb, ◌==◌, Bool, true, false, not, ◌&&◌, ◌||◌, Option, none, some, List,
  String, [], ◌∷◌, ◌++◌, find_first, update_first, length, ◌=ₛ◌, if◌then◌else◌,
}
use siem_sentinel_xv.Text.{strip, lower, contains, ◌+ₛ◌}

-- app/models/agent_api_key.py
pub record AgentApiKey : Type 0 where
  pub id : String
  pub tenant_id : String
  pub agent_id : Option String
  pub name : String
  pub key_hash : String
  pub status : String
  pub last_used_at : Option ℕ
  pub expires_at : Option ℕ

-- `generate_key_secret`, from a random text
unfoldable pub generate_key_secret : String → String
unfolding ◌+ₛ◌
generate_key_secret token = "sx_live_" +ₛ token

-- `hash_key_secret`
unfoldable pub hash_key_secret : (String → String) → String → String
hash_key_secret sha256 raw_key = sha256 (strip raw_key)

-- `create_agent_api_key`: the key, which is shown once, and the rows with the new one
unfoldable pub create_agent_api_key :
    (String → String)
    → String
    → String
    → String
    → String
    → Option String
    → Option ℕ
    → List AgentApiKey
    → String × List AgentApiKey
unfolding generate_key_secret hash_key_secret
create_agent_api_key sha256 token id name tenant_id agent_id expires_at keys =
    let raw_key = generate_key_secret token in
    (
      raw_key,
      keys
          ++ record {
            id = id;
            tenant_id = tenant_id;
            agent_id = agent_id;
            name = name;
            key_hash = hash_key_secret sha256 raw_key;
            status = "active";
            last_used_at = none;
            expires_at = expires_at;
          }
            ∷ [],
    )

abbrev pub is_past : ℕ → Option ℕ → Bool
is_past now none = false
is_past now (some t) = ltb t now

-- What becomes of the row that a key's hash finds.
unfoldable pub judge_key : ℕ → AgentApiKey → AgentApiKey × Bool
judge_key now k =
    if not (k.status =ₛ "active")
    then (k, false)
    else if is_past now k.expires_at
    then (record k { status = "expired" }, false)
    else (record k { last_used_at = some now }, true)

abbrev pub judged : ℕ → Option AgentApiKey → Option AgentApiKey
judged now none = none
judged now (some k) = if (judge_key now k).1 then some (judge_key now k).0 else none

-- `validate_agent_api_key`, at a time
unfoldable pub validate_agent_api_key :
    (String → String) → ℕ → String → List AgentApiKey → List AgentApiKey × Option AgentApiKey
unfolding hash_key_secret judge_key
validate_agent_api_key sha256 now raw_key keys =
    let key_hash = hash_key_secret sha256 raw_key in
    if raw_key =ₛ "" then (keys, none) else (
      update_first (λ k. k.key_hash =ₛ key_hash) (λ k. (judge_key now k).0) keys,
      judged now (find_first (λ k. k.key_hash =ₛ key_hash) keys),
    )

abbrev pub revoke : AgentApiKey → AgentApiKey
revoke k = record k { status = "revoked" }

abbrev is_found {ℓ} : {A : Type ℓ} → Option A → Bool
is_found none = false
is_found (some a) = true

-- `revoke_agent_api_key`
unfoldable pub revoke_agent_api_key : String → List AgentApiKey → List AgentApiKey × Bool
revoke_agent_api_key key_id keys = (
  update_first (λ k. k.id =ₛ key_id) revoke keys,
  is_found (find_first (λ k. k.id =ₛ key_id) keys),
)

-- `compute_agent_status`
unfoldable pub compute_agent_status : ℕ → Option ℕ → String
compute_agent_status now none = "offline"
compute_agent_status now (some last_seen_at) =
    if ltb now (last_seen_at + 300 * 1000000)
    then "healthy"
    else if ltb now (last_seen_at + 1800 * 1000000)
    then "delayed"
    else "offline"

-- app/models/agent.py
pub record RegisteredAgent : Type 0 where
  pub id : String
  pub tenant_id : String
  pub name : String
  pub hostname : String
  pub ip_address : Option String
  pub os_info : Option String
  pub status : String
  pub agent_version : String
  pub last_seen_at : Option ℕ

-- AgentHeartbeatIn
pub record AgentHeartbeat : Type 0 where
  pub hostname : String
  pub ip_address : Option String
  pub os_info : Option String
  pub agent_version : String

abbrev pub is_agent : String → String → RegisteredAgent → Bool
is_agent tenant_id hostname a = a.hostname =ₛ hostname && a.tenant_id =ₛ tenant_id

abbrev pub given_text : Option String → Option String → Option String
given_text none old = old
given_text (some s) old = if s =ₛ "" then old else some s

abbrev pub given : String → String → String
given s old = if s =ₛ "" then old else s

abbrev pub beat : ℕ → AgentHeartbeat → RegisteredAgent → RegisteredAgent
beat now p a = record a {
  ip_address = given_text p.ip_address a.ip_address;
  os_info = given_text p.os_info a.os_info;
  agent_version = given p.agent_version a.agent_version;
  status = "healthy";
  last_seen_at = some now;
}

-- `record_agent_heartbeat`, for the caller's tenant
unfoldable pub record_agent_heartbeat :
    ℕ → String → String → AgentHeartbeat → List RegisteredAgent → List RegisteredAgent
record_agent_heartbeat now id tenant_id p agents =
    let old = find_first (is_agent tenant_id p.hostname) agents in
    if is_found old
    then update_first (is_agent tenant_id p.hostname) (beat now p) agents
    else agents
      ++ record {
        id = id;
        tenant_id = tenant_id;
        name = p.hostname;
        hostname = p.hostname;
        ip_address = p.ip_address;
        os_info = p.os_info;
        status = "healthy";
        agent_version = p.agent_version;
        last_seen_at = some now;
      }
        ∷ []
