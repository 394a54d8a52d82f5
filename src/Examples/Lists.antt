-- ===== src/Examples/Lists.antt =====
-- The security lists at concrete rows; IPv4 stands for `ipaddress`, its networks being those with a
-- prefix of two digits.
use siem_sentinel_xv.Base.{
  ℕ, ◌≡◌, refl, pos, map, true, false, not, ◌&&◌, Option, none, some, List, String, [], ◌∷◌, All,
  inl, text_ne, ltb, leb,
}
use siem_sentinel_xv.Text.{strip, lower}
use siem_sentinel_xv.Value.{
  get, Value, str, null, dict, list, int, nil, cons, Fields, end, field, get_or_null, as_str,
  to_str, items,
}
use siem_sentinel_xv.Net.{parse_v4}
use siem_sentinel_xv.Detection.Fields.{get_canonical_field}
use siem_sentinel_xv.RuleEngine.{Rule, Binding}
use siem_sentinel_xv.RuleEngine.Bindings.{ignore, gate, bindings_of}
use siem_sentinel_xv.SecurityLists.{
  Address, IpAddresses, Entry, Service, ensure_cache, is_non_global_ip,
}
use siem_sentinel_xv.SecurityLists.Query.{
  get_list_by_name, get_blm_ignore_list, get_blm_inventory_map,
}
use siem_sentinel_xv.SecurityLists.Fallback.{load_fallback_entries}
use siem_sentinel_xv.SecurityLists.Trust.{trusted, untrusted, traits_of, is_trusted_event_for_rule}
use siem_sentinel_xv.SecurityLists.Trust.Scope.{
  unserved-makes_no_difference, is_trusted_event_for_rule-untrusted,
}
use siem_sentinel_xv.SecurityLists.Edit.{
  State, Creation, Author, entry_of, create_entry, delete_entry, toggle_entry, delete_found,
  delete_row,
}
use siem_sentinel_xv.SecurityLists.Edit.Cache.{IsLoaded, IsFresh, ensure_cache-IsFresh}
use siem_sentinel_xv.SecurityLists.Edit.History.{
  created, toggled, here, next, replay, replay-audits,
}
use siem_sentinel_xv.SecurityLists.Serve.{services_for, gate-create_entry}

abbrev v4 : Option ℕ → Option Address
v4 none = none
v4 (some n) = some (record { version = 4; number = n })

abbrev ip : IpAddresses
ip = record {
  ip_address = λ s. v4 (parse_v4 s);
  ip_network = λ s. none;
  is_global = λ a. not (leb 167772160 a.number && ltb a.number 184549376);
}

abbrev creation : Creation
creation = record {
  tenant_id = "global";
  list_type = "list_ref";
  value = " 203.0.113.9 ";
  value_type = "ip";
  list_name = some "scanners";
  rule_code = none;
  reason = some "audit";
  expires_at = some 900000000;
  enabled = true;
  created_by = "ana";
  ip_address = none;
}

abbrev empty : State
empty = record {
  db = record { readable = true; entries = []; audits = []; next_id = 1 };
  service = record { ttl_seconds = 60; last_load = none; cache_entries = []; fallback = [] };
  notices = [];
}

abbrev author : Author
author = record { name = "luis"; ip_address = none; reason = none }

abbrev later : State
later =
    (toggle_entry 30 1 none author
      (create_entry 20 creation (create_entry 10 creation empty).0).0).0

replay-audits_example : replay later.db.audits [] ≡ later.db.entries
unfolding create_entry
replay-audits_example =
    replay-audits empty later (refl, refl)
      (next
        (next (next here (created 10 creation empty))
          (created 20 creation (create_entry 10 creation empty).0))
        (toggled 30 1 none author (create_entry 20 creation (create_entry 10 creation empty).0).0))

abbrev entry : Entry
entry = entry_of 1 creation

-- A deletion takes its own line of audit with it.
no_trace : (delete_entry 40 1 author (create_entry 10 creation empty).0).0.db.audits ≡ []
unfolding create_entry delete_entry delete_found delete_row
no_trace = refl

abbrev filled : Service
filled = record {
  ttl_seconds = 60;
  last_load = some 850000000;
  cache_entries = entry ∷ [];
  fallback = [];
}

ensure_cache-IsFresh_example :
    IsLoaded (ensure_cache empty.db 905000000 filled)
    × All (IsFresh 60 905000000) (ensure_cache empty.db 905000000 filled).cache_entries
ensure_cache-IsFresh_example =
    ensure_cache-IsFresh empty.db 905000000 filled refl (record { live = (refl, tt) })

abbrev binding : Binding
binding = record {
  id = 3;
  list_name = "scanners";
  role = "exclusion";
  match_field = "ip_client";
  operator = "in_ref";
  action_config = end;
  enabled = true;
}

abbrev rule : Rule
rule = record {
  id = 7;
  name = "SSH brute force";
  enabled = true;
  source = "SSH_AUTH";
  event_type = "auth_login";
  severity = pos 8;
  clause = dict end;
  group_by = "source.ip" ∷ [];
  window_seconds = 300;
  let_block = end;
  condition = record { text = ""; tree = none };
  cooldown_seconds = 900;
  evidence = end;
  emit = end;
  detection_bindings_operator = "AND";
  legacy_list_policy = false;
  bindings = binding ∷ [];
}

abbrev snap : Value
snap = dict (field "ip_client" (str "203.0.113.9") end)

abbrev served : List Entry
served =
    (ensure_cache (create_entry 10 creation empty).0.db 500
      (create_entry 10 creation empty).0.service).cache_entries

gate-create_entry_example :
    (reason : String) × (value : String) × (gate
        (services_for ip (λ op a b. none) end none "acme" served)
        snap
        rule
        "SSH"
        "unknown"
      ≡ ignore reason value)
unfolding strip get_canonical_field bindings_of as_str
gate-create_entry_example =
    gate-create_entry ip (λ op a b. none) 10 500 creation empty "acme" snap end none rule binding
      "SSH" "unknown" refl refl refl refl (text_ne (strip (strip " 203.0.113.9 ")) "" refl) refl
      refl (inl refl) refl

-- An entry of another tenant.
abbrev foreign : Entry
foreign = record entry { tenant_id = "globex"; list_type = "whitelist_ip"; value = "203.0.113.9" }

abbrev event : Fields
event = field "ip_client" (str "203.0.113.9") end

unserved-makes_no_difference_example :
    (is_trusted_event_for_rule ip event none null none "acme" (entry ∷ foreign ∷ [])
      ≡ is_trusted_event_for_rule ip event none null none "acme" (entry ∷ []))
    × (get_list_by_name "scanners" "acme" (entry ∷ foreign ∷ [])
        ≡ get_list_by_name "scanners" "acme" (entry ∷ []))
    × (get_blm_ignore_list ip "" "" "acme" (entry ∷ foreign ∷ [])
        ≡ get_blm_ignore_list ip "" "" "acme" (entry ∷ []))
    × (get_blm_inventory_map "shared" "acme" (entry ∷ foreign ∷ [])
        ≡ get_blm_inventory_map "shared" "acme" (entry ∷ []))
unserved-makes_no_difference_example =
    unserved-makes_no_difference ip event none null none "" "" "scanners" "shared" "acme"
      (entry ∷ []) [] foreign refl

-- An emit with a title and no lists.
abbrev own_emit : Fields
own_emit = field "title" (str "Failed logins") end

is_trusted_event_for_rule-untrusted_example :
    is_trusted_event_for_rule ip event none
      (dict own_emit)
      (some "SSH")
      "acme"
      (entry ∷ foreign ∷ [])
    ≡ untrusted
unfolding get traits_of get_or_null strip lower is_non_global_ip parse_v4 to_str
is_trusted_event_for_rule-untrusted_example =
    is_trusted_event_for_rule-untrusted ip event none own_emit (some "SSH") "acme"
      (entry ∷ foreign ∷ []) refl (refl, refl, refl) (refl, (refl, tt))

-- A local address is trusted first.
local_first :
    is_trusted_event_for_rule ip (field "ip_client" (str "10.0.0.9") end) none null none "acme" []
    ≡ trusted "non_global_ip" "10.0.0.9"
unfolding is_trusted_event_for_rule get_or_null strip lower is_non_global_ip parse_v4 to_str
local_first = refl

-- An inventory's server of a row without a name is called None.
unnamed_server :
    get_blm_inventory_map "shared" "acme"
      (record entry { list_type = "blm_shared"; list_name = none } ∷ [])
    ≡ ("203.0.113.9", "None") ∷ []
unfolding get_blm_inventory_map strip
unnamed_server = refl

-- The second part of a file that cannot be read stops at its fault.
half_a_fallback :
    map
      (λ e. e.value)
      (load_fallback_entries
        (some (
          dict (
            field "trusted_ips"
              (list (cons (str " 1.2.3.4") nil))
              (field "trusted_countries" (int (pos 5)) end))))
        none
        none
        none)
    ≡ "1.2.3.4" ∷ []
unfolding load_fallback_entries get_or_null strip items to_str
half_a_fallback = refl
