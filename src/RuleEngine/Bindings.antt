-- ===== src/RuleEngine/Bindings.antt =====
-- The lists that are bound to a rule, in app/services/rule_engine_v2.py: exclusions, detections and
-- contexts, and the trust of the older rules.
pub mod Severity
use siem_sentinel_xv.Base.{
  ℤ, pos, ◌+ℤ◌, max_ℤ, min_ℤ, Bool, true, false, not, Option, none, some, List, String, [], ◌∷◌,
  ◌++◌, keep, any, all, ◌=ₛ◌, if◌then◌else◌,
}
use siem_sentinel_xv.Text.{strip, upper, ◌+ₛ◌}
use siem_sentinel_xv.Value.{
  Value, dict, str, Fields, end, field, get, put, truthy, get_or_null, as_str, dict_of,
}
use siem_sentinel_xv.Number.{int_of}
use siem_sentinel_xv.Detection.Fields.{get_canonical_field}
use siem_sentinel_xv.Detection.Clause.{Lists, match_clause}
use siem_sentinel_xv.RuleEngine.{Binding, Rule, Services, Adjustment}

-- The active bindings of a role.
unfoldable pub bindings_of : String → Rule → List Binding
bindings_of role rule = keep (λ b. b.role =ₛ role) (keep (λ b. b.enabled) rule.bindings)

-- {b.match_field: {b.operator: b.list_name}}
abbrev pub clause_of : Binding → Value
clause_of b = dict (field b.match_field (dict (field b.operator (str b.list_name) end)) end)

unfoldable pub binds : Lists → Value → Binding → Bool
binds lists snap b = match_clause lists snap (clause_of b)

-- The first exclusion that the event meets.
unfoldable pub first_exclusion : Lists → Value → List Binding → Option Binding
first_exclusion lists snap [] = none
first_exclusion lists snap (b ∷ bs) =
    let rest = first_exclusion lists snap bs in if binds lists snap b then some b else rest

-- What comes of the exclusions and of trust: the event is ignored for the rule, with a reason and the
-- value that matched, or it goes on, as trusted or not.
pub data Gate : Type 0 where
  ignore : String → String → Gate
  go_on : Bool → Gate

-- bool(rule_emit.get("ignore_trust"))
abbrev pub ignores_trust : Rule → Bool
ignores_trust rule = truthy (get_or_null rule.emit "ignore_trust")

-- `a or b` on texts
abbrev pub or_text : String → String → String
or_text s t = if s =ₛ "" then t else s

-- Trust counts for the older rules only.
unfoldable pub legacy_gate : Rule → Option (String × String) → String → Gate
legacy_gate rule none fallback = go_on false
legacy_gate rule (some (reason, value)) fallback =
    if not rule.legacy_list_policy
    then go_on false
    else if ignores_trust rule
    then go_on true
    else ignore (or_text reason "trusted_event") (or_text value fallback)

-- What an exclusion that the event meets makes of what trust says.
unfoldable pub exclusion_gate : Value → Rule → String → Gate → Option Binding → Gate
exclusion_gate snap rule fallback trust none = trust
exclusion_gate snap rule fallback trust (some b) =
    if ignores_trust rule
    then trust
    else ignore ("exclusion_binding:" +ₛ b.list_name)
        (or_text (as_str (get_canonical_field snap b.match_field)) fallback)

-- Parts A and B of the turn of a rule; `fallback` is the event's address, or "unknown".
unfoldable pub gate : Services → Value → Rule → String → String → Gate
gate services snap rule code fallback =
    exclusion_gate snap rule fallback (legacy_gate rule (services.trusted rule.emit code) fallback)
      (first_exclusion services.lists snap (bindings_of "exclusion" rule))

abbrev pub is_nonempty : List Binding → Bool
is_nonempty [] = false
is_nonempty _ = true

-- Parts C and D: the rule's match, then its detections, all of them or one of them.
unfoldable pub detects : Services → Value → Rule → Bool
detects services snap rule =
    let bs = bindings_of "detection" rule in
    let op = strip (upper rule.detection_bindings_operator) in
    if not (match_clause services.lists snap rule.clause)
    then false
    else if is_nonempty bs
    then (if op =ₛ "AND"
        then all (binds services.lists snap) bs
        else any (binds services.lists snap) bs)
    else true

-- What the contexts make of an alert.
pub record Context : Type 0 where
  pub severity : ℤ
  pub metadata : Fields
  pub adjustments : List Adjustment

-- `adjust_severity`: an offset that is no number changes nothing; the result is kept within 0 and 30.
unfoldable pub adjust : Binding → Context → Context
adjust b c = elim (get b.action_config "adjust_severity") [
  | none ↦ c
  | some v ↦ elim (int_of v) [
    | none ↦ c
    | some offset ↦
        let result = max_ℤ (pos 0) (min_ℤ (pos 30) (c.severity +ℤ offset)) in
        record c {
          severity = result;
          adjustments =
              c.adjustments
              ++ record {
                binding_id = b.id;
                list_name = b.list_name;
                original = c.severity;
                adjustment = offset;
                result = result;
              }
                ∷ [];
        }
  ]
]

unfoldable pub put_all : Fields → Fields → Fields
put_all end fs = fs
put_all (field k v new) fs = put_all new (put k v fs)

-- `set_metadata`
unfoldable pub set_metadata : Binding → Context → Context
set_metadata b c = elim (dict_of (get_or_null b.action_config "set_metadata")) [
  | none ↦ c
  | some new ↦ record c { metadata = put_all new c.metadata }
]

unfoldable pub apply_contexts : Lists → Value → List Binding → Context → Context
apply_contexts lists snap [] c = c
apply_contexts lists snap (b ∷ bs) c =
    apply_contexts lists snap bs (if binds lists snap b then set_metadata b (adjust b c) else c)
