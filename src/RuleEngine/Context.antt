-- ===== src/RuleEngine/Context.antt =====
-- What `on_event` of app/services/rule_engine_v2.py reads of an event, and the names of a rule's
-- condition: `_coerce_scalar`, `_resolve_let_block` and the context.
use siem_sentinel_xv.Base.{
  ℕ, suc, ◌-◌, ◌/◌, ◌%◌, ℤ, pos, negsuc, ◌==◌, Bool, ◌||◌, Option, none, some, String, [], ◌∷◌, mem,
  ◌=ₛ◌, if◌then◌else◌,
}
use siem_sentinel_xv.Text.{strip, lower, contains, starts_with}
use siem_sentinel_xv.Value.{Value, null, bool, int, float, str, Fields, end, field, put}
use siem_sentinel_xv.Number.{float_of_text}
use siem_sentinel_xv.Detection.Fields.{get_canonical_field}
use siem_sentinel_xv.RuleEngine.{Rule, Metrics}
use siem_sentinel_xv.RuleEngine.Bindings.{put_all}

-- What `on_event` reads of the event before its loop. `geo_country` and `asn_number` are there if the
-- event has such a dict.
pub record Seen : Type 0 where
  pub snap : Value
  pub source : String
  pub event_type : String
  pub ts : ℕ
  pub geo_country : Option Value
  pub asn_number : Option Value
  pub ip : Option String
  pub user : Option String
  pub server : Option String
  pub action : Option String
  pub path : Option String
  pub subnet24 : Option String

-- A float without a fraction becomes an int.
abbrev pub number_value : ℤ → Value
number_value (pos x) = if x % 1000000 == 0 then int (pos (x / 1000000)) else float (pos x)
number_value (negsuc x) =
    if suc x % 1000000 == 0 then int (negsuc (suc x / 1000000 - 1)) else float (negsuc x)

unfoldable pub coerce_text : String → Value
coerce_text s =
    let sl = lower s in
    if s =ₛ ""
    then str ""
    else if mem sl ("true" ∷ "false" ∷ [])
    then bool (sl =ₛ "true")
    else elim (float_of_text s) [ none ↦ str s | some x ↦ number_value x ]

-- `_coerce_scalar`
unfoldable pub coerce_scalar : Value → Value
coerce_scalar (str t) = coerce_text (strip t)
coerce_scalar v = v

-- The texts of a let that name a field of the event.
abbrev pub is_path : String → Bool
is_path vv =
    contains "." vv
    || starts_with "extra" vv
    || mem vv ("server" ∷ "ip_client" ∷ "username" ∷ "ip_subnet24" ∷ "ip_subnet16" ∷ [])

unfoldable pub let_value : Value → Value → Value
let_value snap (str t) =
    let vv = strip t in
    if vv =ₛ ""
    then null
    else if is_path vv
    then coerce_scalar (get_canonical_field snap vv)
    else coerce_scalar (str vv)
let_value snap v = coerce_scalar v

-- `_resolve_let_block`
unfoldable pub resolve_let_block : Value → Fields → Fields → Fields
resolve_let_block snap end out = out
resolve_let_block snap (field k v rest) out =
    resolve_let_block snap rest
      (if strip k =ₛ "" then out else put (strip k) (let_value snap v) out)

abbrev pub text_value : Option String → Value
text_value none = null
text_value (some s) = str s

abbrev pub count_value : ℕ → Value
count_value n = int (pos n)

abbrev put_given : String → Option Value → Fields → Fields
put_given k none fs = fs
put_given k (some v) fs = put k v fs

-- The names that a condition may use.
unfoldable pub context_of : Seen → Rule → String → Metrics → Fields
context_of ev rule group m =
    let base = field "count" (count_value m.count) (
      field "unique_paths" (count_value m.unique_paths) (
        field "unique_ips" (count_value m.unique_ips) (
          field "unique_users" (count_value m.unique_users) (
            field "unique_servers" (count_value m.unique_servers) (
              field "unique_subnets24" (count_value m.unique_subnets24) (
                field "top_subnet24_hits" (count_value m.top_subnet24_hits) (
                  field "top_subnet24" (text_value m.top_subnet24) (
                    field "fail_count" (count_value m.fail_count) (
                      field "success_count" (count_value m.success_count) (
                        field "server" (get_canonical_field ev.snap "server") (
                          field "source" (str ev.source) (
                            field "event_type" (str ev.event_type) (
                              field "group_key" (str group) (
                                field "ip_client" (get_canonical_field ev.snap "ip_client") (
                                  field "ip_subnet24" (text_value ev.subnet24) (
                                    field "username" (get_canonical_field ev.snap "username")
                                      end)))))))))))))))) in
    let enriched =
      put_given "asn_number" ev.asn_number (put_given "geo_country" ev.geo_country base) in
    put_all (resolve_let_block ev.snap rule.let_block end) enriched
