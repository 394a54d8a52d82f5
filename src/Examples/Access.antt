-- ===== src/Examples/Access.antt =====
-- Keys, callers and the ingest at concrete inputs.
use siem_sentinel_xv.Base.{
  ◌+◌, ◌≡◌, ◌≢◌, refl, true, false, none, some, List, String, [], ◌∷◌, length, text_ne, ltb, ◌=ₛ◌,
  if◌then◌else◌,
}
use siem_sentinel_xv.Text.{strip, lower, starts_with, contains}
use siem_sentinel_xv.Value.{str, end, field, get_or_null}
use siem_sentinel_xv.Number.{int_of}
use siem_sentinel_xv.Http.{ok}
use siem_sentinel_xv.Access.{check_role_permission, role_permissions, perm_alerts_manage}
use siem_sentinel_xv.Access.Keys.{generate_api_key, parse_api_key, remove_char}
use siem_sentinel_xv.Access.Keys.RoundTrip.{parse_api_key-generate_api_key}
use siem_sentinel_xv.Access.Users.{User, Tokens, decode_access_token}
use siem_sentinel_xv.Access.Agents.{
  AgentApiKey, create_agent_api_key, generate_key_secret, hash_key_secret, judge_key,
  validate_agent_api_key, revoke_agent_api_key,
}
use siem_sentinel_xv.Access.Agents.Revoked.{create, here, next, revoke_agent_api_key-IsFinal}
use siem_sentinel_xv.Access.Context.{
  AuthContext, user_context, get_current_auth_context, token_context, claims_context, key_context,
  is_dev_key,
}
use siem_sentinel_xv.Access.Context.Origin.{Origin, get_current_auth_context-Origin}
use siem_sentinel_xv.Ingest.{
  NormalizedEvent, acknowledged, raised, Broker, NatsService, BatchAck, connect,
  publish_normalized_event, stamp, account, publish_all, batch_response, ingest_batch_events,
}
use siem_sentinel_xv.Ingest.Tenant.{
  Sends, OfTenant, ingest_batch_events-OfTenant, ingest_batch_events-counts,
}

parse_api_key-generate_api_key_example :
    parse_api_key (generate_api_key "aB3-x_9" "s-E_cr3t").0
    ≡ some ((generate_api_key "aB3-x_9" "s-E_cr3t").1, "s-E_cr3t")
unfolding generate_api_key remove_char
parse_api_key-generate_api_key_example =
    parse_api_key-generate_api_key "aB3-x_9" "s-E_cr3t" refl refl (text_ne "aB3x9" "" refl)
      (text_ne "s-E_cr3t" "" refl)

key_made : (generate_api_key "aB3-x_9" "s-E_cr3t").0 ≡ "sx_live_aB3x9.s-E_cr3t"
unfolding generate_api_key remove_char
key_made = refl

analyst_manages : check_role_permission " Analyst" perm_alerts_manage ≡ true
unfolding check_role_permission role_permissions strip lower
analyst_manages = refl

-- What stands for SHA-256 in the runs.
abbrev hash : String → String
hash s = s

abbrev old_key : AgentApiKey
old_key = record {
  id = "k1";
  tenant_id = "acme";
  agent_id = none;
  name = "web";
  key_hash = "sx_live_11";
  status = "active";
  last_used_at = none;
  expires_at = some 50;
}

abbrev new_key : AgentApiKey
new_key = record {
  id = "k2";
  tenant_id = "acme";
  agent_id = none;
  name = "mail";
  key_hash = "sx_live_22";
  status = "active";
  last_used_at = some 9;
  expires_at = none;
}

abbrev after_revocation : List AgentApiKey
after_revocation = (revoke_agent_api_key "k1" (old_key ∷ [])).0

revoke_agent_api_key-IsFinal_example : new_key.id ≢ "k1"
unfolding create_agent_api_key validate_agent_api_key revoke_agent_api_key generate_key_secret
    hash_key_secret judge_key strip
revoke_agent_api_key-IsFinal_example =
    revoke_agent_api_key-IsFinal hash "k1" (old_key ∷ [])
      (create_agent_api_key hash "22" "k2" "mail" "acme" none none after_revocation).1 9
      " sx_live_22 " new_key ((λ e. tt), tt)
      (next here
        (create after_revocation "22" "k2" "mail" "acme" none none (text_ne "k2" "k1" refl)))
      refl

expired_key : (validate_agent_api_key hash 51 "sx_live_11" (old_key ∷ [])).1 ≡ none
unfolding validate_agent_api_key hash_key_secret judge_key strip
expired_key = refl

abbrev ana : User
ana = record {
  id = 7;
  email = "ana@acme.mx";
  full_name = none;
  hashed_password = "h";
  is_active = true;
  is_admin = false;
}

abbrev tokens : Tokens
tokens = record {
  encode = λ claims expires. "token";
  decode = λ now t. if t =ₛ "token" then some (field "sub" (str "7") end) else none;
}

get_current_auth_context-Origin_example :
    Origin hash tokens 3 (ana ∷ []) (old_key ∷ []) (some "token") none (user_context ana)
unfolding get_current_auth_context token_context claims_context decode_access_token get_or_null
    int_of
get_current_auth_context-Origin_example =
    get_current_auth_context-Origin hash tokens 3 (ana ∷ []) (old_key ∷ []) (some "token") none
      (user_context ana) refl

-- A key with the word in it stands for an administrator, whatever the rows of the keys.
dev_key :
    (get_current_auth_context hash tokens 3 [] [] none (some "my-latest-key")).1
    ≡ ok (record {
      user_id = none;
      username = "agent:dev-static";
      tenant_id = "default";
      role = "admin";
      auth_type = "dev_api_key";
    })
unfolding get_current_auth_context token_context key_context is_dev_key starts_with contains
dev_key = refl

-- The second message of the broker's is refused.
abbrev broker : Broker
broker = record {
  connects = λ n. true;
  answers = λ n. if ltb n 1 then acknowledged "EVENTS" 40 else raised true;
}

abbrev idle : NatsService
idle = record { connected = false; connections = 0; messages = 0; sent = []; unacknowledged = [] }

abbrev two_events : List NormalizedEvent
two_events =
    record { event_id = "e1"; tenant_id = "other"; body = end }
    ∷ record { event_id = "e2"; tenant_id = "default"; body = end }
    ∷ []

abbrev acme : AuthContext
acme = record {
  user_id = none;
  username = "agent:web";
  tenant_id = "acme";
  role = "analyst";
  auth_type = "agent_api_key";
}

ingest_batch_events-OfTenant_example :
    Sends idle (ingest_batch_events broker 5000 acme two_events idle).0 (OfTenant "acme")
ingest_batch_events-OfTenant_example =
    ingest_batch_events-OfTenant broker 5000 acme two_events idle (text_ne "acme" "" refl)
      (text_ne "acme" "default" refl)

abbrev told : BatchAck
told = record {
  status = "partial_error";
  total = 2;
  accepted_count = 1;
  failed_count = 1;
  tenant_id = "acme";
  items =
      record {
        status = "accepted";
        event_id = "e1";
        tenant_id = "acme";
        stream = some "EVENTS";
        sequence = some 40;
      }
      ∷ record {
        status = "error";
        event_id = "e2";
        tenant_id = "acme";
        stream = none;
        sequence = none;
      }
      ∷ [];
}

ingest_batch_events-counts_example :
    (told.total ≡ length two_events)
    × (told.accepted_count + told.failed_count ≡ length two_events)
    × (length told.items ≡ length two_events)
    × (length (ingest_batch_events broker 5000 acme two_events idle).0.sent
        ≡ length idle.sent + told.accepted_count)
unfolding ingest_batch_events stamp publish_all account batch_response publish_normalized_event
    connect
ingest_batch_events-counts_example =
    ingest_batch_events-counts broker 5000 acme two_events idle told refl
