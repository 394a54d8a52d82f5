-- ===== src/RuleEngine/Turn.antt =====
-- The turn of one rule in the loop of `on_event`, app/services/rule_engine_v2.py.
pub mod Cooldown
pub mod Effects
use siem_sentinel_xv.Base.{
  ℕ, zero, suc, ◌+◌, ◌-◌, ◌*◌, ◌/◌, ◌%◌, ℤ, pos, negsuc, eq_ℤ, ltb, ◌==◌, Bool, true, false, not,
  ◌&&◌, ◌||◌, Option, none, some, List, String, [], ◌∷◌, ◌++◌, map, mem, drop, length, ◌=ₛ◌,
  if◌then◌else◌,
}
use siem_sentinel_xv.Text.{strip, lower, contains, starts_with}
use siem_sentinel_xv.Value.{
  Value, null, bool, int, float, str, Fields, end, field, get, has_key, put, is_null, as_str, ◌or◌,
}
use siem_sentinel_xv.Number.{int_of, float_of_text}
use siem_sentinel_xv.Expr.{safe_eval}
use siem_sentinel_xv.Detection.Fields.{get_canonical_field}
use siem_sentinel_xv.Detection.Clause.{build_group_key}
use siem_sentinel_xv.RuleEngine.{
  Rule, BufItem, GroupKey, RuleState, Ignored, Metrics, Alert, Db, Services, Windows,
}
use siem_sentinel_xv.RuleEngine.Bindings.{
  Gate, ignore, go_on, gate, detects, bindings_of, Context, apply_contexts, put_all,
}
use siem_sentinel_xv.RuleEngine.Window.{push, measure}
use siem_sentinel_xv.RuleEngine.Context.{Seen, context_of}

abbrev pub same_group : GroupKey → GroupKey → Bool
same_group k j = k.rule_id == j.rule_id && k.group_key =ₛ j.group_key

unfoldable pub set_window : GroupKey → List BufItem → Windows → Windows
set_window k dq w j = if same_group k j then dq else w j

unfoldable pub set_state : GroupKey → RuleState → Db → Db
set_state k st db = record db { states = λ j. if same_group k j then some st else db.states j }

abbrev pub fresh_state : RuleState
fresh_state = record { last_seen_at = none; last_alert_at = none; condition_error = none }

abbrev pub or_fresh : Option RuleState → RuleState
or_fresh none = fresh_state
or_fresh (some st) = st

-- `_get_or_create_rule_state_locked`, where the database does not fail
unfoldable pub state_of : GroupKey → Db → RuleState
state_of k db = or_fresh (db.states k)

-- The alerts of the same rule and group rest for the cooldown after an alert.
unfoldable pub cools_down : Rule → RuleState → ℕ → Bool
cools_down rule st ts = elim st.last_alert_at [
  | none ↦ false
  | some last ↦ ltb 0 rule.cooldown_seconds && ltb ts (last + rule.cooldown_seconds * 1000000)
]

-- list(dq)[-n:]: all of it for 0, and all but the first for a negative n
unfoldable pub last_items : ℤ → List BufItem → List BufItem
last_items (pos zero) dq = dq
last_items (pos (suc n)) dq = drop (length dq - suc n) dq
last_items (negsuc n) dq = drop (suc n) dq

unfoldable pub ids_of : List BufItem → List Value
ids_of [] = []
ids_of (it ∷ dq) = let rest = ids_of dq in if is_null it.event_id then rest else it.event_id ∷ rest

-- int(evidence_cfg.get("last_n", 10))
abbrev pub last_n : Rule → Option ℤ
last_n rule = elim (get rule.evidence "last_n") [ none ↦ some (pos 10) | some v ↦ int_of v ]

unfoldable pub put_groups : Value → List String → Fields → Fields
put_groups snap [] gv = gv
put_groups snap (f ∷ fs) gv =
    let ff = strip f in
    put_groups snap fs
      (if ff =ₛ "" || has_key gv ff then gv else put ff (get_canonical_field snap ff) gv)

-- `group_values` of the evidence
unfoldable pub group_values_of : Value → List String → Fields
group_values_of snap gb =
    let read = get_canonical_field snap in
    let base =
      field "server" (read "server")
        (field "ip_client" (read "ip_client") (field "username" (read "username") end)) in
    put "extra.asn.org" (read "extra.asn.org") (
      put "extra.asn.number" (read "extra.asn.number") (
        put "extra.geo.country_code" (read "extra.geo.country_code")
          (put "extra.vhost" (read "extra.vhost") (put_groups snap gb base))))

abbrev pub text_or_none : String → Option String
text_or_none s = if s =ₛ "" then none else some s

abbrev pub group_by_of : Rule → List String
group_by_of rule = elim rule.group_by [ [] ↦ "server" ∷ [] | f ∷ fs ↦ f ∷ fs ]

-- `int(rule.severity or 3)`, `int(rule.window_seconds or 300)`
abbrev pub severity_of : Rule → ℤ
severity_of rule = if eq_ℤ rule.severity (pos 0) then pos 3 else rule.severity

abbrev pub window_of : Rule → ℕ
window_of rule = if rule.window_seconds == 0 then 300 else rule.window_seconds

unfoldable pub alert_for : Services → Seen → Rule → String → Bool → List BufItem → ℤ → Alert
alert_for services ev rule group trusted dq n =
    let c =
      apply_contexts services.lists ev.snap (bindings_of "context" rule)
        (record { severity = severity_of rule; metadata = end; adjustments = [] }) in
    record {
      rule_id = rule.id;
      rule_name = rule.name;
      severity = c.severity;
      server = ev.server;
      source = ev.source;
      event_type = ev.event_type;
      group_key = group;
      s3_key = text_or_none (
          as_str (
            get_canonical_field ev.snap "s3_key"
            or get_canonical_field ev.snap "extra.s3_key"
            or str ""));
      triggered_at = ev.ts;
      metrics = measure dq;
      window_seconds = window_of rule;
      trusted = trusted;
      event_ids = ids_of (last_items n dq);
      group_by = group_by_of rule;
      group_values = group_values_of ev.snap (group_by_of rule);
      context = c.metadata;
      severity_adjustments = c.adjustments;
    }

-- state.last_seen_at = ev_ts
abbrev pub seen_state : Seen → GroupKey → Db → RuleState
seen_state ev k db = record (state_of k db) { last_seen_at = some ev.ts }

-- What comes of the condition: an exception of it is noted in the state; one of the evidence's
-- settings, which the alert needs, ends the turn.
unfoldable pub judge :
    Services → Seen → Rule → GroupKey → Bool → List BufItem → Db → Option Bool → Option ℤ → Db
judge services ev rule k trusted dq db none n =
    set_state k (record (seen_state ev k db) { condition_error = some rule.condition.text }) db
judge services ev rule k trusted dq db (some false) n = set_state k (seen_state ev k db) db
judge services ev rule k trusted dq db (some true) none = set_state k (seen_state ev k db) db
judge services ev rule k trusted dq db (some true) (some n) =
    record (set_state k (record (seen_state ev k db) { last_alert_at = some ev.ts }) db) {
      alerts = db.alerts ++ alert_for services ev rule k.group_key trusted dq n ∷ [];
    }

-- The end of a turn, once the window is updated: cooldown, condition, alert.
unfoldable pub conclude : Services → Seen → Rule → GroupKey → Bool → List BufItem → Db → Db
conclude services ev rule k trusted dq db =
    if cools_down rule (state_of k db) ev.ts
    then set_state k (seen_state ev k db) db
    else judge services ev rule k trusted dq db
        (safe_eval services.arithmetic rule.condition (context_of ev rule k.group_key (measure dq)))
        (last_n rule)

abbrev pub item_of : Seen → BufItem
item_of ev = record {
  ts = ev.ts;
  event_id = get_canonical_field ev.snap "id";
  raw_id = get_canonical_field ev.snap "raw_id";
  server = ev.server;
  path = ev.path;
  ip_client = ev.ip;
  ip_subnet24 = ev.subnet24;
  username = elim ev.user [ none ↦ none | some u ↦ some (lower u) ];
  action = ev.action;
}

abbrev pub or_unknown : Option String → String
or_unknown none = "unknown"
or_unknown (some ip) = ip

abbrev pub tenant_of : Value → String
tenant_of snap = as_str (
    get_canonical_field snap "tenant_id"
    or get_canonical_field snap "extra.tenant_id"
    or str "global")

-- str(rule_emit.get("code") or rule.name or "")
abbrev pub code_of : Rule → String
code_of rule = elim (get rule.emit "code") [
  | none ↦ rule.name
  | some v ↦ as_str (v or str rule.name)
]

-- `log_ignored_event`
unfoldable pub log_ignored : Seen → Rule → String → String → Db → Db
log_ignored ev rule reason value db = record db {
  ignored =
      db.ignored
      ++ record {
        tenant_id = tenant_of ev.snap;
        ignore_reason = reason;
        value_matched = value;
        rule_code = code_of rule;
        source = ev.source;
        server = ev.server;
        ip_client = ev.ip;
      }
        ∷ [];
}

abbrev pub group_of : Seen → Rule → GroupKey
group_of ev rule = record {
  rule_id = rule.id;
  group_key = build_group_key ev.snap (group_by_of rule);
}

-- What the gate and the detections make of the turn.
unfoldable pub pass : Services → Seen → Rule → Windows → Db → Gate → Bool → Windows × Db
pass services ev rule w db (ignore reason value) detected = (w, log_ignored ev rule reason value db)
pass services ev rule w db (go_on trusted) false = (w, db)
pass services ev rule w db (go_on trusted) true =
    let k = group_of ev rule in
    let dq = push (window_of rule) (w k) (item_of ev) in
    (set_window k dq w, conclude services ev rule k trusted dq db)

unfoldable pub turn : Services → Seen → Rule → Windows → Db → Windows × Db
turn services ev rule w db =
    pass services ev rule w db (gate services ev.snap rule (code_of rule) (or_unknown ev.ip))
      (detects services ev.snap rule)
