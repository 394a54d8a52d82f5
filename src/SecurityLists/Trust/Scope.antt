-- ===== src/SecurityLists/Trust/Scope.antt =====
-- Which entries matter for a tenant, in app/services/security_list_service.py.
use siem_sentinel_xv.Base.{
  ℤ, ◌≡◌, refl, ap, Bool, false, ◌&&◌, ◌||◌, Option, none, some, List, String, [], ◌∷◌, ◌++◌, keep,
  map, All, arith, Bool-cases, Option-cases, inl, inr, ◌=ₛ◌,
}
use siem_sentinel_xv.Text.{strip, lower, upper, ◌+ₛ◌}
use siem_sentinel_xv.Value.{Value, dict, Fields, get, dict_of}
use siem_sentinel_xv.SecurityLists.{Entry, IpAddresses, is_non_global_ip, ip_in_cidrs}
use siem_sentinel_xv.SecurityLists.Query.{
  serves, same_text, is_named, is_filled, ignored_of, fill_inventory, get_list_by_name,
  get_blm_inventory_map, get_blm_ignore_list,
}
use siem_sentinel_xv.SecurityLists.Trust.{
  Traits, traits_of, untrusted, by_exception, by_emit, extras, by_lists, trust, is_trusted_ip,
  with_country, with_asn, is_trusted_event_for_rule,
}

keep_dropped :
    (p : Entry → Bool) (xs ys : List Entry) (e : Entry)
    → p e ≡ false
    → keep p (xs ++ e ∷ ys) ≡ keep p (xs ++ ys)
keep_dropped p [] ys e h = rw h refl
keep_dropped p (x ∷ xs) ys e h = ground (arith, keep_dropped p xs ys e h)

-- An entry that is switched off, or that is neither the tenant's nor everybody's, makes no difference
-- wherever it stands: not to trust, not to a list by its name, not to what the synchronisation ignores and
-- not to an inventory.
pub unserved-makes_no_difference :
    (ip : IpAddresses) (event : Fields) (geo : Option String) (emit : Value) (code : Option String)
    (env_ips env_cidrs name category tenant_id : String) (xs ys : List Entry) (e : Entry)
    → serves tenant_id e ≡ false
    → (is_trusted_event_for_rule ip event geo emit code tenant_id (xs ++ e ∷ ys)
        ≡ is_trusted_event_for_rule ip event geo emit code tenant_id (xs ++ ys))
      × (get_list_by_name name tenant_id (xs ++ e ∷ ys)
          ≡ get_list_by_name name tenant_id (xs ++ ys))
      × (get_blm_ignore_list ip env_ips env_cidrs tenant_id (xs ++ e ∷ ys)
          ≡ get_blm_ignore_list ip env_ips env_cidrs tenant_id (xs ++ ys))
      × (get_blm_inventory_map category tenant_id (xs ++ e ∷ ys)
          ≡ get_blm_inventory_map category tenant_id (xs ++ ys))
unfolding is_trusted_event_for_rule get_list_by_name get_blm_ignore_list get_blm_inventory_map
unserved-makes_no_difference ip event geo emit code env_ips env_cidrs name category tenant_id xs ys
      e h =
    (
      ap (λ active. trust ip (traits_of event geo) active (dict_of emit) code)
          (keep_dropped (serves tenant_id) xs ys e h),
      ap (λ es. keep is_filled (map (λ x. strip x.value) es))
          (keep_dropped (λ x. serves tenant_id x && is_named name x) xs ys e (rw h refl)),
      ap (λ mine. ignored_of ip env_ips env_cidrs mine)
          (keep_dropped (λ x. serves tenant_id x && x.list_type =ₛ "blm_ignore") xs ys e
            (rw h refl)),
      ap (λ mine. fill_inventory category mine [])
          (keep_dropped (λ x. serves tenant_id x && x.list_type =ₛ ("blm_" +ₛ category)) xs ys e
            (rw h refl)),
    )

-- The kinds of entry that make an event trusted.
abbrev pub is_trust_entry : Entry → Bool
is_trust_entry e =
    e.list_type =ₛ "exception_rule"
    || e.list_type =ₛ "trusted_country"
    || e.list_type =ₛ "trusted_asn"
    || is_trusted_ip e

keep_none :
    (p q : Entry → Bool) (es : List Entry)
    → ((e : Entry) → q e ≡ false → p e ≡ false)
    → All (λ e. q e ≡ false) es
    → keep p es ≡ []
keep_none p q [] h k = refl
keep_none p q (e ∷ es) h k = rw (h e k.0) (keep_none p q es h k.1)

with_country_never : (c : Option String) → with_country c (λ s. false) ≡ false
with_country_never none = refl
with_country_never (some c) = ground arith

with_asn_never : (n : Option ℤ) → with_asn n (λ s. false) ≡ false
with_asn_never none = refl
with_asn_never (some n) = refl

ip_in_cidrs-nil : (ip : IpAddresses) (s : String) → ip_in_cidrs ip s [] ≡ false
unfolding ip_in_cidrs
ip_in_cidrs-nil ip s = elim (Option-cases (ip.ip_address s)) [
  | inl n ↦ rw (n, ip_in_cidrs) refl
  | inr (a, e) ↦ rw (e, ip_in_cidrs) (ground arith)
]

by_lists-untrusted :
    (ip : IpAddresses) (t : Traits) (es : List Entry)
    → All (λ e. is_trust_entry e ≡ false) es
    → by_lists ip t es ≡ untrusted
unfolding by_lists
by_lists-untrusted ip t es h =
    let countries =
      keep_none (λ e. e.list_type =ₛ "trusted_country") is_trust_entry es (λ e k. ground arith) h in
    let asns =
      keep_none (λ e. e.list_type =ₛ "trusted_asn") is_trust_entry es (λ e k. ground arith) h in
    let ips = keep_none is_trusted_ip is_trust_entry es (λ e k. ground arith) h in
    rw (countries, asns, ips, with_country_never, with_asn_never, ip_in_cidrs-nil) (ground arith)

by_exception-untrusted :
    (ip : IpAddresses) (t : Traits) (code : Option String) (es : List Entry)
    → All (λ e. is_trust_entry e ≡ false) es
    → by_exception ip t code es ≡ untrusted
unfolding by_exception
by_exception-untrusted ip t none es h = refl
by_exception-untrusted ip t (some code) es h =
    let found =
      keep_none (λ e. e.list_type =ₛ "exception_rule" && same_text e.rule_code code) is_trust_entry
        es (λ e k. ground arith) h in
    rw found (ground arith)

served-untrusting :
    (tenant_id : String) (es : List Entry)
    → All (λ e. serves tenant_id e && is_trust_entry e ≡ false) es
    → All (λ e. is_trust_entry e ≡ false) (keep (serves tenant_id) es)
served-untrusting tenant_id [] h = tt
served-untrusting tenant_id (e ∷ es) h = elim (Bool-cases (serves tenant_id e)) [
  | inl y ↦ rw y (rw y at h.0, served-untrusting tenant_id es h.1)
  | inr n ↦ rw n (served-untrusting tenant_id es h.1)
]

-- A rule whose emit has no lists of its own.
abbrev pub IsSilent : Fields → Type 0
IsSilent emit =
    (get emit "trusted_ips_extra" ≡ none)
    × (get emit "trusted_countries_extra" ≡ none)
    × (get emit "trusted_usernames_extra" ≡ none)

extras_absent :
    (emit : Fields) (k : String) (f : String → String)
    → get emit k ≡ none
    → extras emit k f ≡ some []
unfolding extras
extras_absent emit k f h = rw (h, extras) refl

by_emit-untrusted :
    (ip : IpAddresses) (t : Traits) (emit : Fields) → IsSilent emit → by_emit ip t emit ≡ untrusted
unfolding by_emit
by_emit-untrusted ip t emit (ips, countries, users) =
    rw
      (
        extras_absent emit "trusted_ips_extra" (λ s. s) ips,
        extras_absent emit "trusted_countries_extra" upper countries,
        extras_absent emit "trusted_usernames_extra" lower users,
        ip_in_cidrs-nil,
        with_country_never,
      )
      (ground arith)

-- Nothing is trusted without a reason on file: an event whose address is not a local one is untrusted for
-- a rule whose emit has no lists of extra addresses, countries and users, if none of the entries that
-- serve the tenant is an exception of a rule, a trusted country or network, or an address or a server on
-- a list of trust.
pub is_trusted_event_for_rule-untrusted :
    (ip : IpAddresses) (event : Fields) (geo : Option String) (emit : Fields) (code : Option String)
    (tenant_id : String) (es : List Entry)
    → is_non_global_ip ip (traits_of event geo).ip_client ≡ false
    → IsSilent emit
    → All (λ e. serves tenant_id e && is_trust_entry e ≡ false) es
    → is_trusted_event_for_rule ip event geo (dict emit) code tenant_id es ≡ untrusted
unfolding is_trusted_event_for_rule trust
is_trusted_event_for_rule-untrusted ip event geo emit code tenant_id es g d h =
    let active = served-untrusting tenant_id es h in
    rw
      (
        g,
        by_emit-untrusted ip (traits_of event geo) emit d,
        by_exception-untrusted ip (traits_of event geo) code (keep (serves tenant_id) es) active,
        by_lists-untrusted ip (traits_of event geo) (keep (serves tenant_id) es) active,
      )
      refl
