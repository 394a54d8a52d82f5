-- ===== src/Correlation/Engine.antt =====
-- `CorrelationEngine`: the rules and their windows. `windows`, a defaultdict, is a function; the
-- key-value store is NATS's, and is given by what it holds and by the keys at which it fails. The
-- alerts that RuleEngineV2 raises for the same event are an argument, `none` where its call raises.
-- Of an alert, its random id and the time of the clock are left out.

pub mod Windows
pub mod Rules
pub mod Keys
use siem_sentinel_xv.Base.{
  ℕ, ℤ, Bool, true, false, not, ◌&&◌, Option, none, some, List, String, [], ◌∷◌, ◌++◌, length, keep,
  ◌=ₛ◌, if◌then◌else◌,
}
use siem_sentinel_xv.Text.{replace_char, ◌+ₛ◌}
use siem_sentinel_xv.Value.{Value}
use siem_sentinel_xv.Detection.Fields.{get_canonical_field}
use siem_sentinel_xv.Correlation.Rule.{DetectionRule, matches_event, get_group_key}
use siem_sentinel_xv.Correlation.Window.{
  Hit, Bucket, Outcome, bucket_hit, stored_hit, get_event_ids, stored_event_ids,
}

-- What the engine reads of a NormalizedEvent: its document, its id, its tenant and its time.
pub record Event : Type 0 where
  pub doc : Value
  pub id : String
  pub tenant : String
  pub ts : ℕ

pub record Key : Type 0 where
  pub tenant : String
  pub rule : String
  pub group : String

abbrev pub same_key : Key → Key → Bool
same_key k j = k.tenant =ₛ j.tenant && k.rule =ₛ j.rule && k.group =ₛ j.group

abbrev pub Windows : Type 0
Windows = Key → Bucket

-- self.windows[k] = b
unfoldable pub set_window : Key → Bucket → Windows → Windows
set_window k b w j = if same_key k j then b else w j

pub record Alert : Type 0 where
  pub rule_id : String
  pub rule_name : String
  pub description : String
  pub category : String
  pub tenant_id : String
  pub severity : ℕ
  pub risk_score : ℤ
  pub group_key : String
  pub trigger_count : ℕ
  pub related_event_ids : List String
  pub source_ip : Value
  pub host_name : Value

pub record Engine : Type 0 where
  pub rules : List DetectionRule
  pub windows : Windows

-- `register_rule`
unfoldable pub register_rule : DetectionRule → Engine → Engine
register_rule rule eng = record eng {
  rules = keep (λ r. not (r.id =ₛ rule.id)) eng.rules ++ rule ∷ [];
}

unfoldable pub alert_of : (Bucket → List String) → DetectionRule → Event → Bucket → Alert
unfolding get_canonical_field get_group_key
alert_of ids rule event events = record {
  rule_id = rule.id;
  rule_name = rule.name;
  description = rule.description;
  category = rule.category;
  tenant_id = event.tenant;
  severity = rule.severity;
  risk_score = rule.risk_score;
  group_key = get_group_key rule event.doc;
  trigger_count = length events;
  related_event_ids = ids events;
  source_ip = get_canonical_field event.doc "source.ip";
  host_name = get_canonical_field event.doc "host.name";
}

abbrev pub alerts_of : (Bucket → List String) → DetectionRule → Event → Option Bucket → List Alert
alerts_of ids rule event none = []
alerts_of ids rule event (some events) = alert_of ids rule event events ∷ []

abbrev pub hit_of : Event → Hit
hit_of event = record { ts = event.ts; id = event.id }

abbrev pub key_of : DetectionRule → Event → Key
key_of rule event = record {
  tenant = event.tenant;
  rule = rule.id;
  group = get_group_key rule event.doc;
}

abbrev pub applies : DetectionRule → Event → Bool
applies rule event = rule.enabled && matches_event rule event.doc

-- One turn of the loop over the rules, with the windows in memory.
unfoldable pub apply_rule : DetectionRule → Event → Windows → Windows × List Alert
apply_rule rule event w =
    let k = key_of rule event in
    let (b, fired) = bucket_hit rule.time_window_seconds rule.threshold (w k) (hit_of event) in
    if applies rule event
    then (set_window k b w, alerts_of get_event_ids rule event fired)
    else (w, [])

unfoldable pub apply_rules : List DetectionRule → Event → Windows → Windows × List Alert
unfolding apply_rule
apply_rules [] event w = (w, [])
apply_rules (rule ∷ rules) event w =
    let (w', alerts) = apply_rule rule event w in
    let (w'', more) = apply_rules rules event w' in (w'', alerts ++ more)

-- What `process_event` returns: the alerts of the windows, and those of RuleEngineV2.
pub record Generated {ℓ} (A : Type ℓ) : Type ℓ where
  pub window_alerts : List Alert
  pub db_alerts : List A

abbrev pub or_rolled_back {ℓ} : {A : Type ℓ} → Option (List A) → List A
or_rolled_back none = []
or_rolled_back (some alerts) = alerts

-- `process_event`
unfoldable pub process_event {ℓ} :
    {A : Type ℓ} → Engine → Event → Option (List A) → Engine × Generated A
unfolding apply_rules
process_event eng event found =
    let (w, alerts) = apply_rules eng.rules event eng.windows in
    (
      record eng { windows = w },
      record { window_alerts = alerts; db_alerts = or_rolled_back found },
    )

-- The NATS key-value store: `get` is none where the key is missing or the call raises; `put` does
-- nothing where the call raises.
pub record KvStore : Type 0 where
  pub held : String → Option Bucket
  pub get_fails : String → Bool
  pub put_fails : String → Bool

abbrev pub or_empty : Option Bucket → Bucket
or_empty none = []
or_empty (some events) = events

unfoldable pub kv_get : KvStore → String → Bucket
kv_get kv k = if kv.get_fails k then [] else or_empty (kv.held k)

unfoldable pub kv_put : KvStore → String → Bucket → KvStore
kv_put kv k events =
    if kv.put_fails k
    then kv
    else record kv { held = λ j. if k =ₛ j then some events else kv.held j }

-- f"{tenant}.{rule}.{group}".replace("/", "_").replace(" ", "_")
unfoldable pub raw_key : Key → String
unfolding ◌+ₛ◌ replace_char
raw_key k =
    replace_char " " "_" (replace_char "/" "_" (k.tenant +ₛ "." +ₛ k.rule +ₛ "." +ₛ k.group))

-- One turn of the loop of `process_event_async`, with a store.
unfoldable pub apply_rule_stored : DetectionRule → Event → KvStore → KvStore × List Alert
unfolding kv_get kv_put raw_key
apply_rule_stored rule event kv =
    let k = raw_key (key_of rule event) in
    let (events, fired) =
      stored_hit rule.time_window_seconds rule.threshold (kv_get kv k) (hit_of event) in
    if applies rule event
    then (kv_put kv k events, alerts_of stored_event_ids rule event fired)
    else (kv, [])

unfoldable pub apply_rules_stored : List DetectionRule → Event → KvStore → KvStore × List Alert
unfolding apply_rule_stored
apply_rules_stored [] event kv = (kv, [])
apply_rules_stored (rule ∷ rules) event kv =
    let (kv', alerts) = apply_rule_stored rule event kv in
    let (kv'', more) = apply_rules_stored rules event kv' in (kv'', alerts ++ more)

-- `process_event_async`: with a store, the windows in memory are left alone.
unfoldable pub process_event_async {ℓ} :
    {A : Type ℓ}
    → Engine
    → Option KvStore
    → Event
    → Option (List A)
    → (Engine × Option KvStore) × Generated A
unfolding process_event apply_rules_stored
process_event_async eng none event found =
    let (eng', out) = process_event eng event found in ((eng', none), out)
process_event_async eng (some kv) event found =
    let (kv', alerts) = apply_rules_stored eng.rules event kv in
    ((eng, some kv'), record { window_alerts = alerts; db_alerts = or_rolled_back found })
