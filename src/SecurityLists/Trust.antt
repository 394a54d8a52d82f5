-- ===== src/SecurityLists/Trust.antt =====
-- Whether an event is trusted for a rule: `is_trusted_event_for_rule` of
-- app/services/security_list_service.py.
pub mod Scope
use siem_sentinel_xv.Base.{
  ℕ, ℤ, Bool, true, false, not, ◌&&◌, ◌||◌, Option, none, some, List, String, [], ◌∷◌, map, mem,
  keep, ◌=ₛ◌, if◌then◌else◌,
}
use siem_sentinel_xv.Text.{strip, lower, upper, ◌+ₛ◌}
use siem_sentinel_xv.Value.{
  Value, null, str, Fields, end, get, get_or_null, dict_of, truthy, to_str, show_int, ◌or◌, is_null,
}
use siem_sentinel_xv.Number.{int_of_text}
use siem_sentinel_xv.SecurityLists.{Entry, IpAddresses, ip_in_cidrs, is_non_global_ip}
use siem_sentinel_xv.SecurityLists.Fallback.{iterate}
use siem_sentinel_xv.SecurityLists.Query.{serves, same_text}

-- What is read of an event; the texts that are not there are empty.
pub record Traits : Type 0 where
  pub ip_client : String
  pub username : String
  pub asn_num : Option ℤ
  pub geo_country : Option String

-- str(event.get(k) or "").strip()
abbrev pub read_text : Fields → String → String
read_text event k = strip (to_str (get_or_null event k or str ""))

abbrev extra_of : Fields → Fields
extra_of event = elim (dict_of (get_or_null event "extra")) [ none ↦ end | some d ↦ d ]

-- The number of the network, under `asn` or beside it.
unfoldable pub asn_value : Fields → Value
asn_value event = elim (dict_of (get_or_null (extra_of event) "asn")) [
  | none ↦ get_or_null (extra_of event) "asn_number"
  | some asn ↦ get_or_null asn "number"
]

abbrev asn_number : Value → Option ℤ
asn_number v = if is_null v then none else int_of_text (strip (to_str v))

unfoldable pub traits_of : Fields → Option String → Traits
unfolding asn_value
traits_of event geo_country = record {
  ip_client = read_text event "ip_client";
  username = lower (read_text event "username");
  asn_num = asn_number (asn_value event);
  geo_country = geo_country;
}

-- The answer: trusted, with the reason and the value that matched, or not; or it raises.
pub data Verdict : Type 0 where
  trusted : String → String → Verdict
  untrusted : Verdict
  raised : Verdict

-- A test that is asked where those before it do not trust the event.
abbrev pub else_ask : Verdict → Verdict → Verdict
else_ask untrusted next = next
else_ask found next = found

-- `geo_country and test(geo_country.upper())`
abbrev pub with_country : Option String → (String → Bool) → Bool
with_country none test = false
with_country (some c) test = not (c =ₛ "") && test (upper c)

abbrev pub with_asn : Option ℤ → (String → Bool) → Bool
with_asn none test = false
with_asn (some n) test = test (show_int n)

abbrev pub text_or_empty : Option String → String
text_or_empty none = ""
text_or_empty (some s) = s

abbrev pub asn_text : Option ℤ → String
asn_text none = ""
asn_text (some n) = show_int n

-- [f(str(x).strip()) for x in emit.get(k, []) if str(x).strip()]
unfoldable pub extras : Fields → String → (String → String) → Option (List String)
extras emit k f = elim (get emit k) [
  | none ↦ some []
  | some v ↦ elim (iterate v) [
    | none ↦ none
    | some vs ↦ some (map f (keep (λ s. not (s =ₛ "")) (map (λ x. strip (to_str x)) vs)))
  ]
]

abbrev pub with_extras : Option (List String) → (List String → Verdict) → Verdict
with_extras none f = raised
with_extras (some xs) f = f xs

abbrev pub values_of : (Entry → Bool) → List Entry → List String
values_of p es = map (λ e. e.value) (keep p es)

abbrev pub is_trusted_ip : Entry → Bool
is_trusted_ip e =
    e.list_type =ₛ "whitelist_ip"
    || e.list_type =ₛ "whitelist_cidr"
    || e.list_type =ₛ "trusted_server"

module _ (ip : IpAddresses) (t : Traits) where
  -- One exception of a rule, by the kind of its value.
  unfoldable pub exception_verdict : String → Entry → Verdict
  exception_verdict rule_code e =
      let val = strip e.value in
      let found =
        λ (kind : String). trusted "rule_exception" ("rule:" +ₛ rule_code +ₛ kind +ₛ val) in
      if (e.value_type =ₛ "ip" || e.value_type =ₛ "cidr")
        && not (t.ip_client =ₛ "")
        && ip_in_cidrs ip t.ip_client (val ∷ [])
      then found "|ip:"
      else if e.value_type =ₛ "country_code" && with_country t.geo_country (λ c. c =ₛ upper val)
      then found "|country:"
      else if e.value_type =ₛ "username" && not (t.username =ₛ "") && t.username =ₛ lower val
      then found "|user:"
      else if e.value_type =ₛ "asn" && with_asn t.asn_num (λ n. n =ₛ val)
      then found "|asn:"
      else untrusted

  unfoldable pub exceptions_verdict : String → List Entry → Verdict
  unfolding exception_verdict
  exceptions_verdict rule_code [] = untrusted
  exceptions_verdict rule_code (e ∷ es) =
      else_ask (exception_verdict rule_code e) (exceptions_verdict rule_code es)

  -- Part A: the exceptions of the rule
  unfoldable pub by_exception : Option String → List Entry → Verdict
  unfolding exceptions_verdict
  by_exception none active = untrusted
  by_exception (some code) active =
      if code =ₛ ""
      then untrusted
      else exceptions_verdict code
          (keep (λ e. e.list_type =ₛ "exception_rule" && same_text e.rule_code code) active)

  -- What the rule's own emit trusts.
  unfoldable pub by_emit : Fields → Verdict
  unfolding extras
  by_emit emit =
      else_ask
        (with_extras (extras emit "trusted_ips_extra" (λ s. s)) (λ xs.
          if not (t.ip_client =ₛ "") && ip_in_cidrs ip t.ip_client xs
          then trusted "rule_emit_extra_ip" t.ip_client
          else untrusted))
        (else_ask
          (with_extras (extras emit "trusted_countries_extra" upper) (λ xs.
            if with_country t.geo_country (λ c. mem c xs)
            then trusted "rule_emit_extra_country" (text_or_empty t.geo_country)
            else untrusted))
          (with_extras (extras emit "trusted_usernames_extra" lower) (λ xs.
            if not (t.username =ₛ "") && mem t.username xs
            then trusted "rule_emit_extra_user" t.username
            else untrusted)))

  -- Part B: the lists of trust
  unfoldable pub by_lists : List Entry → Verdict
  by_lists active =
      if with_country t.geo_country
        (λ c. mem c (map upper (values_of (λ e. e.list_type =ₛ "trusted_country") active)))
      then trusted "trusted_country" (text_or_empty t.geo_country)
      else if with_asn t.asn_num (λ n. mem n (values_of (λ e. e.list_type =ₛ "trusted_asn") active))
      then trusted "trusted_asn" (asn_text t.asn_num)
      else if not (t.ip_client =ₛ "") && ip_in_cidrs ip t.ip_client (values_of is_trusted_ip active)
      then trusted "trusted_ip" t.ip_client
      else untrusted

  -- The steps in the order of the code; an emit that is no dict trusts nothing.
  unfoldable pub trust : List Entry → Option Fields → Option String → Verdict
  unfolding by_exception by_emit by_lists
  trust active emit rule_code =
      if is_non_global_ip ip t.ip_client
      then trusted "non_global_ip" t.ip_client
      else else_ask (by_exception rule_code active)
          (else_ask (elim emit [ none ↦ untrusted | some d ↦ by_emit d ]) (by_lists active))

-- `is_trusted_event_for_rule`, of the entries of the cache
unfoldable pub is_trusted_event_for_rule :
    IpAddresses → Fields → Option String → Value → Option String → String → List Entry → Verdict
unfolding trust traits_of
is_trusted_event_for_rule ip event geo_country rule_emit rule_code tenant_id entries =
    trust ip (traits_of event geo_country) (keep (serves tenant_id) entries) (dict_of rule_emit)
      rule_code
