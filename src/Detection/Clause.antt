-- ===== src/Detection/Clause.antt =====
-- `match_clause` and `build_group_key` of app/services/detection_core.py. The security lists are an
-- argument: the values of a list, by its name, for the tenant of the call. `cidrs` is `_ip_in_cidrs`
-- of the list service.
use siem_sentinel_xv.Base.{
  ℤ, leb_ℤ, ltb_ℤ, Bool, true, false, not, ◌&&◌, none, some, List, String, ◌=ₛ◌, mem, map, any,
  if◌then◌else◌,
}
use siem_sentinel_xv.Text.{strip, contains, join}
use siem_sentinel_xv.Value.{
  Value, Fields, end, field, get, truthy, is_null, as_str, value_eq, value_in, items, list_of,
  dict_of,
}
use siem_sentinel_xv.Number.{float_of}
use siem_sentinel_xv.Detection.Fields.{get_canonical_field}

-- The security lists that a match may name: `get_list_by_name` for the event's tenant, and the test of
-- an address against a list of addresses and networks.
pub record Lists : Type 0 where
  pub get_list : Value → List String
  pub ip_in_cidrs : String → List String → Bool

-- One operator of a condition, on the field's value and the operator's operand.
abbrev pub Operator : Type 0
Operator = Value → Value → Bool

unfoldable pub op_exists : Operator
op_exists val want =
    let present = not (is_null val) && not (strip (as_str val) =ₛ "") in
    if truthy want then present else not present

unfoldable pub op_contains : Operator
op_contains val needle = contains (as_str needle) (as_str val)

-- Some text of the list that is not empty is a part of the value.
unfoldable pub contains_any : List String → String → Bool
contains_any needles hay = any (λ x. not (x =ₛ "") && contains x hay) needles

unfoldable pub op_contains_any : Operator
op_contains_any val arr = elim (list_of arr) [
  | none ↦ false
  | some xs ↦ contains_any (map as_str (items xs)) (as_str val)
]

unfoldable pub op_in : Operator
op_in val arr = elim (list_of arr) [ none ↦ false | some xs ↦ value_in val (items xs) ]

unfoldable pub op_not_in : Operator
op_not_in val arr = elim (list_of arr) [ none ↦ true | some xs ↦ not (value_in val (items xs)) ]

-- `float(val)` against `float(operand)`; false where either raises
unfoldable pub op_compare : (ℤ → ℤ → Bool) → Operator
op_compare test val operand = elim (float_of val) [
  | none ↦ false
  | some x ↦ elim (float_of operand) [ none ↦ false | some y ↦ test x y ]
]

-- The test of an operator that the condition has; true where it has not.
unfoldable pub if_given : String → Operator → Value → Fields → Bool
if_given name op val cond = elim (get cond name) [ none ↦ true | some operand ↦ op val operand ]

module _ (lists : Lists) where
  open lists use {get_list, ip_in_cidrs}

  -- A condition that is a dict: each operator that it has must hold.
  unfoldable pub meets_operators : Value → Fields → Bool
  meets_operators val cond =
      let given = λ (name : String) (op : Operator). if_given name op val cond in
      given "exists" op_exists
      && given "eq" value_eq
      && given "contains" op_contains
      && given "contains_any" op_contains_any
      && given "in" op_in
      && given "not_in" op_not_in
      && given "in_ref" (λ v name. mem (as_str v) (get_list name))
      && given "not_in_ref" (λ v name. not (mem (as_str v) (get_list name)))
      && given "contains_any_ref" (λ v name. contains_any (get_list name) (as_str v))
      && given "cidr_match" (λ v name. ip_in_cidrs (as_str v) (get_list name))
      && given ">=" (op_compare (λ x y. leb_ℤ y x))
      && given ">" (op_compare (λ x y. ltb_ℤ y x))
      && given "<=" (op_compare (λ x y. leb_ℤ x y))
      && given "<" (op_compare (λ x y. ltb_ℤ x y))

  unfoldable pub meets_condition : Value → Value → Bool
  meets_condition val cond = elim (dict_of cond) [
    | some ops ↦ meets_operators val ops
    | none ↦ value_eq val cond
  ]

  -- The loop over the fields of a match.
  unfoldable pub match_fields : Value → Fields → Bool
  match_fields event end = true
  match_fields event (field path cond rest) =
      meets_condition (get_canonical_field event path) cond && match_fields event rest

  -- `match_clause`
  unfoldable pub match_clause : Value → Value → Bool
  match_clause event clause = elim (dict_of clause) [
    | none ↦ true
    | some fs ↦ match_fields event fs
  ]

abbrev pub or_dash : String → String
or_dash s = if s =ₛ "" then "-" else s

-- `build_group_key`
unfoldable pub build_group_key : Value → List String → String
build_group_key event group_by =
    join "|" (map (λ f. or_dash (as_str (get_canonical_field event f))) group_by)
