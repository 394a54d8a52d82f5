-- ===== src/EntityJob/Attrs.antt =====
-- What app/services/entity_job.py reads of an alert's evidence: the entity that it is about, and what it
-- tells of it.
use siem_sentinel_xv.Base.{
  Bool, true, false, Option, none, some, List, String, [], ◌∷◌, ◌=ₛ◌, if◌then◌else◌,
}
use siem_sentinel_xv.Text.{strip, lower, upper}
use siem_sentinel_xv.Value.{
  Value, int, str, dict, Fields, end, field, get_or_null, put, as_str, dict_of, truthy,
}
use siem_sentinel_xv.Number.{int_of}
use siem_sentinel_xv.RuleEngine.Bindings.{put_all}
use siem_sentinel_xv.IncidentEngine.Match.{extract_group_values}

-- `_pick`: the first of the values that is there and not blank
unfoldable pub pick : Fields → List String → Option Value
pick gv [] = none
pick gv (k ∷ ks) =
    let rest = pick gv ks in
    if strip (as_str (get_or_null gv k)) =ₛ "" then rest else some (get_or_null gv k)

abbrev pub dict_or_empty : Value → Fields
dict_or_empty v = elim (dict_of v) [ none ↦ end | some fs ↦ fs ]

-- attrs[k] = {**attrs.get(k, {}), **new}
unfoldable pub merge_section : String → Fields → Fields → Fields
merge_section k new attrs = put k (dict (put_all new (dict_or_empty (get_or_null attrs k)))) attrs

-- The same, where the value is a dict.
abbrev pub merge_if_dict : String → Value → Fields → Fields
merge_if_dict k v attrs = elim (dict_of v) [ none ↦ attrs | some new ↦ merge_section k new attrs ]

abbrev add_country : Option Value → Fields → Fields
add_country none attrs = attrs
add_country (some cc) attrs =
    if truthy cc
    then merge_section "geo" (field "country_code" (str (upper (strip (as_str cc)))) end) attrs
    else attrs

abbrev number_or_text : Value → Value
number_or_text v = elim (int_of v) [ none ↦ str (strip (as_str v)) | some n ↦ int n ]

abbrev add_asn : Option Value → Fields → Fields
add_asn none attrs = attrs
add_asn (some v) attrs =
    if truthy v then merge_section "asn" (field "number" (number_or_text v) end) attrs else attrs

-- `_extract_entity_attrs_from_alert`
unfoldable pub extract_attrs : Value → Fields
extract_attrs evidence =
    let ev = dict_or_empty evidence in
    let gv = extract_group_values evidence in
    let cc = pick gv ("extra.geo.country_code" ∷ "geo.country_code" ∷ "country_code" ∷ []) in
    let asn = pick gv ("extra.asn.number" ∷ "asn.number" ∷ "asn" ∷ []) in
    let enrich = dict_or_empty (get_or_null ev "enrich") in
    merge_if_dict "asn" (get_or_null enrich "asn") (
      merge_if_dict "geo" (get_or_null enrich "geo") (
        merge_if_dict "asn" (get_or_null ev "asn")
          (merge_if_dict "geo" (get_or_null ev "geo") (add_asn asn (add_country cc end)))))

abbrev merge_value : String → Value → Fields → Fields
merge_value k v cur = elim (dict_of v) [ none ↦ put k v cur | some new ↦ merge_section k new cur ]

-- The loop of `_merge_attrs`.
unfoldable pub merge_attrs : Fields → Fields → Fields
merge_attrs cur end = cur
merge_attrs cur (field k v incoming) = merge_attrs (merge_value k v cur) incoming

-- An entity by its type, its key and its likely scope.
pub record Picked : Type 0 where
  pub entity_type : String
  pub entity_key : String
  pub scope : String

abbrev picked : String → String → String → Option Picked
picked t k s = some (record { entity_type = t; entity_key = k; scope = s })

-- `_pick_primary_entity`
unfoldable pub pick_primary_entity : Value → Option Picked
pick_primary_entity evidence =
    let read : String → String =
      λ k. strip (as_str (get_or_null (extract_group_values evidence) k)) in
    let is_there : String → Bool = λ k. if read k =ₛ "" then false else true in
    if is_there "username"
    then picked "user" (lower (read "username")) "local"
    else if is_there "ip_client"
    then picked "ip" (read "ip_client") "local"
    else if is_there "ip_subnet24"
    then picked "subnet24" (read "ip_subnet24") "local"
    else if is_there "extra.vhost"
    then picked "host" (lower (read "extra.vhost")) "local"
    else if is_there "extra.asn.number"
    then picked "asn" (read "extra.asn.number") "global"
    else if is_there "extra.geo.country_code"
    then picked "country" (upper (read "extra.geo.country_code")) "global"
    else if is_there "server"
    then picked "server" (read "server") "local"
    else none
