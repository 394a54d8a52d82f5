-- ===== src/IncidentEngine/Match.antt =====
-- `_match_rule`, `_build_group_key` and the readers of app/services/incident_engine.py. A result of none
-- is an exception: `strip` of an entry that is no text.
use siem_sentinel_xv.Base.{
  ℤ, pos, ltb_ℤ, Bool, true, false, not, ◌||◌, Option, none, some, List, String, [], ◌∷◌, map, mem,
  any, keep, ◌=ₛ◌, if◌then◌else◌,
}
use siem_sentinel_xv.Text.{strip, join, starts_with, ◌+ₛ◌}
use siem_sentinel_xv.Value.{
  Value, null, str, list, Fields, end, get, get_or_null, as_str, dict_of, items,
}
use siem_sentinel_xv.Number.{int_of}
use siem_sentinel_xv.IncidentEngine.{IncidentRule, AlertRow}

-- `_as_list`
unfoldable pub as_list : Value → List Value
unfolding items
as_list null = []
as_list (list vs) = items vs
as_list v = v ∷ []

-- `_extract_group_values`
unfoldable pub extract_group_values : Value → Fields
extract_group_values evidence = elim (dict_of evidence) [
  | none ↦ end
  | some fs ↦ elim (dict_of (get_or_null fs "group_values")) [ none ↦ end | some gv ↦ gv ]
]

abbrev pub or_dash : String → String
or_dash s = if s =ₛ "" then "-" else s

-- `_build_group_key`
unfoldable pub build_incident_key : List String → Fields → String
unfolding join as_str
build_incident_key group_by gv = join "|" (map (λ f. or_dash (as_str (get_or_null gv f))) group_by)

-- v.strip()
abbrev pub stripped : Value → Option String
stripped (str s) = some (strip s)
stripped _ = none

abbrev pub cons_if_some : Option String → Option (List String) → Option (List String)
cons_if_some (some s) (some ss) = some (s ∷ ss)
cons_if_some _ _ = none

-- [c.strip() for c in vs if _as_str(c).strip()]
unfoldable pub texts : List Value → Option (List String)
texts [] = some []
texts (v ∷ vs) =
    let rest = texts vs in if strip (as_str v) =ₛ "" then rest else cons_if_some (stripped v) rest

-- The alert's rule has the code: it is its name, or stands before a separator.
unfoldable pub has_code : String → String → Bool
has_code name c =
    name =ₛ c
    || starts_with (c +ₛ " ") name
    || starts_with (c +ₛ "\t") name
    || starts_with (c +ₛ "-") name
    || starts_with (c +ₛ ":") name

-- What a criterion makes of its list, where the match has it.
abbrev pub on_texts : (List String → Bool) → Option Value → Option Bool
on_texts test none = some true
on_texts test (some v) = elim (texts (as_list v)) [ none ↦ none | some ss ↦ some (test ss) ]

abbrev pub is_no_text : List String → Bool
is_no_text [] = true
is_no_text _ = false

abbrev pub text_or_empty : Option String → String
text_or_empty none = ""
text_or_empty (some s) = s

-- int(m.get("min_severity")), or 0
abbrev pub int_or_zero : Value → ℤ
int_or_zero v = elim (int_of v) [ none ↦ pos 0 | some n ↦ n ]

unfoldable pub severe_enough : AlertRow → Option Value → Bool
severe_enough alert none = true
severe_enough alert (some v) = not (ltb_ℤ alert.severity (int_or_zero v))

unfoldable pub code_criterion : AlertRow → Fields → Option Bool
code_criterion alert m = on_texts (any (has_code (strip alert.rule_name))) (get m "alert_codes_any")

unfoldable pub name_criterion : AlertRow → Fields → Option Bool
name_criterion alert m = on_texts (mem (strip alert.rule_name)) (get m "alert_names_any")

unfoldable pub server_criterion : AlertRow → Fields → Option Bool
server_criterion alert m =
    on_texts (λ ss. is_no_text ss || mem (strip (text_or_empty alert.server)) ss)
      (get m "server_any")

-- A criterion that fails, or raises, ends the match.
abbrev pub and_also : Option Bool → Option Bool → Option Bool
and_also none rest = none
and_also (some false) rest = some false
and_also (some true) rest = rest

-- `_match_rule`
unfoldable pub match_rule : AlertRow → IncidentRule → Option Bool
match_rule alert rule = elim (dict_of rule.match) [
  | none ↦ some true
  | some m ↦ and_also (code_criterion alert m) (
      and_also (name_criterion alert m)
        (and_also (some (severe_enough alert (get m "min_severity"))) (server_criterion alert m)))
]

-- [str(x) for x in _as_list(rule.group_by) if _as_str(x).strip()]
unfoldable pub group_by_of : IncidentRule → List String
group_by_of rule =
    let given = keep (λ s. not (strip s =ₛ "")) (map as_str (as_list rule.group_by)) in
    let field = strip rule.primary_entity_field in
    elim given [
      | [] ↦ if field =ₛ "" then "server" ∷ [] else "server" ∷ field ∷ []
      | f ∷ fs ↦ f ∷ fs
    ]
