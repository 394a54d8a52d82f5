-- ===== src/Examples/Rules.antt =====
-- The rule engine at a concrete rule.
use siem_sentinel_xv.Base.{
  ℕ, ◌+◌, ◌*◌, ◌≡◌, refl, inr, true, false, none, some, List, String, [], ◌∷◌, length, keep, pos,
  arith,
}
use siem_sentinel_xv.Base.{◌++◌}
use siem_sentinel_xv.RuleEngine.Bindings.{Context}
use siem_sentinel_xv.RuleEngine.Window.Own.{is_recent, push-recent}
use siem_sentinel_xv.Value.{Value, dict, str, int, end, field}
use siem_sentinel_xv.Expr.{name, constant, compared, test, no_test, ge}
use siem_sentinel_xv.RuleEngine.{Rule, Binding, Db, Services, Engine, GroupKey, BufItem}
use siem_sentinel_xv.RuleEngine.Index.Laws.{reload_rules-rules_at, under}
use siem_sentinel_xv.RuleEngine.Context.{Seen}
use siem_sentinel_xv.RuleEngine.Turn.Cooldown.{IsSpaced}
use siem_sentinel_xv.RuleEngine.Turn.Effects.{turn-excluded, turn-other}
use siem_sentinel_xv.RuleEngine.OnEvent.Laws.{feed-IsSteady, IsSteady, Arrival}
use siem_sentinel_xv.RuleEngine.OnEvent.Alerts.{feed-AreSound, AreSound}
use siem_sentinel_xv.RuleEngine.OnEvent.{
  see, on_event, turns, source_of, event_type_of, geo_country_of, asn_number_of, action_of,
}
use siem_sentinel_xv.RuleEngine.OnEvent.Laws.{feed}
use siem_sentinel_xv.RuleEngine.Turn.{
  turn, pass, conclude, judge, set_window, set_state, state_of, cools_down, alert_for, last_items,
  ids_of, group_values_of, put_groups, log_ignored,
}
use siem_sentinel_xv.RuleEngine.Context.{context_of, resolve_let_block}
use siem_sentinel_xv.RuleEngine.Index.{
  norm_event_type, maybe_reload, reload_rules, index_from, index_rule, sort_index, sort_by_id,
  insert_by_id, rules_at,
}
use siem_sentinel_xv.RuleEngine.Bindings.{
  gate, exclusion_gate, legacy_gate, first_exclusion, bindings_of, binds, detects, apply_contexts,
  put_all,
}
use siem_sentinel_xv.RuleEngine.Window.{
  push, evict, measure, present, distinct, count_of, tally, tally_all, best_from, count_action,
}
use siem_sentinel_xv.Detection.Clause.{
  match_clause, match_fields, meets_condition, meets_operators, if_given, build_group_key,
}
use siem_sentinel_xv.Detection.Fields.{get_canonical_field}
use siem_sentinel_xv.Detection.Source.{norm_source, category_of}
use siem_sentinel_xv.Expr.{safe_eval, eval_tree, eval, allowed, apply_cmp, with_names}
use siem_sentinel_xv.Value.{get, put, has_key, as_str, get_or_null, millionths}
use siem_sentinel_xv.Base.{◌*ℤ◌}
use siem_sentinel_xv.Net.{ip_subnet}
use siem_sentinel_xv.Text.{lower, upper, strip, join}

abbrev office : Binding
office = record {
  id = 1;
  list_name = "office_ips";
  role = "exclusion";
  match_field = "source.ip";
  operator = "in_ref";
  action_config = end;
  enabled = true;
}

abbrev ssh : Rule
ssh = record {
  id = 7;
  name = "SSH brute force";
  enabled = true;
  source = "SSH_AUTH";
  event_type = "auth_login";
  severity = pos 8;
  clause = dict end;
  group_by = "source.ip" ∷ [];
  window_seconds = 300;
  let_block = end;
  condition = record {
    text = "count >= 2";
    tree = some (compared (name "count") (test ge (constant (int (pos 2))) no_test));
  };
  cooldown_seconds = 900;
  evidence = end;
  emit = end;
  detection_bindings_operator = "AND";
  legacy_list_policy = false;
  bindings = office ∷ [];
}

abbrev services : Services
services = record {
  lists = record { get_list = λ n. "10.0.0.9" ∷ []; ip_in_cidrs = λ ip l. false };
  trusted = λ emit code. none;
  arithmetic = λ op a b. none;
}

abbrev db : Db
db = record { rules = ssh ∷ []; states = λ k. none; alerts = []; ignored = [] }

abbrev engine : Engine
engine = record { index = []; windows = λ k. []; last_reload_at = none; reload_ttl_seconds = 60 }

abbrev from_ip : String → Value
from_ip ip = dict (
    field "source" (str "ssh_secure") (
      field "ip_client" (str ip)
        (field "event" (dict (field "action" (str "auth_login") end)) end)))

abbrev arrival : ℕ → Arrival
arrival t = record { snap = from_ip "10.0.0.7"; ts = t * 1000000; now = t * 1000000 }

abbrev stream : List Arrival
stream = arrival 10 ∷ arrival 11 ∷ arrival 12 ∷ arrival 950 ∷ arrival 951 ∷ []

-- Two alerts: the second event's, and one after the cooldown.
two_alerts : length (feed services engine db stream).1.alerts ≡ 2
unfolding see on_event turns source_of event_type_of geo_country_of asn_number_of action_of feed
    turn pass conclude judge set_window set_state state_of cools_down context_of resolve_let_block
    alert_for last_items ids_of group_values_of put_groups log_ignored norm_event_type maybe_reload
    reload_rules index_from index_rule sort_index sort_by_id insert_by_id rules_at gate
    exclusion_gate legacy_gate first_exclusion bindings_of binds detects apply_contexts put_all push
    evict measure present distinct count_of tally tally_all best_from count_action match_clause
    match_fields meets_condition meets_operators if_given build_group_key get_canonical_field
    norm_source category_of safe_eval eval_tree eval allowed apply_cmp with_names get put has_key
    as_str get_or_null ip_subnet lower upper strip join millionths ◌*ℤ◌
two_alerts = refl

abbrev key : GroupKey
key = record { rule_id = 7; group_key = "10.0.0.7" }

start-IsSpaced : IsSpaced 900 key db
unfolding state_of
start-IsSpaced = record { spaced = tt; remembered = refl }

feed-IsSteady_example :
    IsSteady 900 key (feed services engine db stream).0 (feed services engine db stream).1
feed-IsSteady_example =
    feed-IsSteady services engine db stream key 900 (omega arith)
      (record { rules_ok = (inr refl, tt); index_ok = tt; spaced = start-IsSpaced })

feed-AreSound_example :
    AreSound (feed services engine db stream).0 (feed services engine db stream).1
feed-AreSound_example =
    feed-AreSound services engine db stream
      (record { rules_ok = ((omega arith, omega arith), tt); index_ok = tt; alerts_ok = tt })

reload_rules-rules_at_example :
    rules_at ("SSH_AUTH", "auth_login") (reload_rules db 5 engine).index
    ≡ sort_by_id (keep (under ("SSH_AUTH", "auth_login")) (keep (λ r. r.enabled) db.rules))
reload_rules-rules_at_example = reload_rules-rules_at db 5 engine ("SSH_AUTH", "auth_login")

abbrev excluded : Seen
excluded = see (from_ip "10.0.0.9") 5

turn-excluded_example :
    ((turn services excluded ssh (λ k. []) db).0 ≡ (λ k. []))
    × ((turn services excluded ssh (λ k. []) db).1.states ≡ db.states)
    × ((turn services excluded ssh (λ k. []) db).1.alerts ≡ db.alerts)
    × (length (turn services excluded ssh (λ k. []) db).1.ignored ≡ length db.ignored + 1)
unfolding see bindings_of binds match_clause match_fields meets_condition meets_operators if_given
    get_canonical_field get as_str get_or_null
turn-excluded_example = turn-excluded services excluded ssh (λ k. []) db refl refl

turn-other_example :
    ((turn services (see (from_ip "10.0.0.7") 5) ssh (λ k. []) db).0
        (record { rule_id = 8; group_key = "10.0.0.7" })
      ≡ [])
    × ((turn services (see (from_ip "10.0.0.7") 5) ssh (λ k. []) db).1.states
          (record { rule_id = 8; group_key = "10.0.0.7" })
        ≡ none)
turn-other_example =
    turn-other services (see (from_ip "10.0.0.7") 5) ssh
      (record { rule_id = 8; group_key = "10.0.0.7" }) (λ k. []) db refl

abbrev item : BufItem
item = record {
  ts = 5;
  event_id = str "e";
  raw_id = str "r";
  server = some "s";
  path = none;
  ip_client = some "10.0.0.7";
  ip_subnet24 = some "10.0.0.0/24";
  username = none;
  action = some "fail";
}

abbrev raised : Binding
raised = record office {
  role = "context";
  action_config = field "adjust_severity" (int (pos 99)) end;
}

abbrev plain : Context
plain = record { severity = pos 7; metadata = end; adjustments = [] }

push-recent_example :
    push 300 (item ∷ []) (record item { ts = 400000000 })
    ≡ keep (is_recent 400000000 300) (item ∷ []) ++ record item { ts = 400000000 } ∷ []
push-recent_example = push-recent 300 (item ∷ []) (record item { ts = 400000000 }) (tt, tt)
