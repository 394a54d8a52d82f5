-- ===== src/SecurityLists/Serve.antt =====
-- The lists as the engine of app/services/rule_engine_v2.py asks for them: `_get_list`,
-- `_is_trusted_event_for_rule` and the lists of a match, for the tenant of an event. A question that raises
-- is not passed on.
use siem_sentinel_xv.Base.{
  ℕ, ◌≡◌, ◌≢◌, refl, true, false, Option, none, some, List, String, [], ◌∷◌, Member, mem, arith,
  eq_iff, Bool-cases, inl, inr,
}
use siem_sentinel_xv.Text.{strip, ◌+ₛ◌}
use siem_sentinel_xv.Value.{Value, str, dict, Fields, get, as_str}
use siem_sentinel_xv.Expr.{BinOp}
use siem_sentinel_xv.Detection.Fields.{get_canonical_field}
use siem_sentinel_xv.Detection.Clause.{
  Lists, match_clause, match_fields, meets_condition, meets_operators, if_given,
}
use siem_sentinel_xv.RuleEngine.{Rule, Binding, Services}
use siem_sentinel_xv.RuleEngine.Bindings.{
  Gate, ignore, gate, exclusion_gate, legacy_gate, first_exclusion, bindings_of, binds,
  ignores_trust, or_text,
}
use siem_sentinel_xv.SecurityLists.{Entry, IpAddresses, ip_in_cidrs, is_live, ensure_cache}
use siem_sentinel_xv.SecurityLists.Query.{get_list_by_name, serves, is_named}
use siem_sentinel_xv.SecurityLists.Trust.{Verdict, trusted, is_trusted_event_for_rule}
use siem_sentinel_xv.SecurityLists.Edit.{State, Creation, entry_of, create_entry}
use siem_sentinel_xv.SecurityLists.Edit.Cache.{get_list_by_name-create_entry}

abbrev list_at : String → List Entry → Value → List String
list_at tenant_id entries (str name) = get_list_by_name name tenant_id entries
list_at tenant_id entries _ = []

-- `_get_list` and the lists that an operator names
unfoldable pub lists_for : IpAddresses → String → List Entry → Lists
unfolding get_list_by_name
lists_for ip tenant_id entries = record {
  get_list = list_at tenant_id entries;
  ip_in_cidrs = ip_in_cidrs ip;
}

abbrev found : Verdict → Option (String × String)
found (trusted reason value) = some (reason, value)
found _ = none

-- `_is_trusted_event_for_rule`, beside the lists, for one event
unfoldable pub services_for :
    IpAddresses
    → (BinOp → Value → Value → Option Value)
    → Fields
    → Option String
    → String
    → List Entry
    → Services
unfolding lists_for
services_for ip arithmetic event geo_country tenant_id entries = record {
  lists = lists_for ip tenant_id entries;
  trusted = λ emit code.
      found
        (is_trusted_event_for_rule ip event geo_country (dict emit) (some code) tenant_id entries);
  arithmetic = arithmetic;
}

Member-mem : (s : String) (xs : List String) → Member s xs → mem s xs ≡ true
Member-mem s [] m = absurd (m tt)
Member-mem s (x ∷ xs) (inl e) = ground (arith, eq_iff x s)
Member-mem s (x ∷ xs) (inr m) = ground (arith, Member-mem s xs m)

-- A binding that names a list by `in_ref` holds where the list has the field's value.
binds-in_ref :
    (lists : Lists) (snap : Value) (b : Binding)
    → b.operator ≡ "in_ref"
    → mem (as_str (get_canonical_field snap b.match_field)) (lists.get_list (str b.list_name))
      ≡ true
    → binds lists snap b ≡ true
unfolding binds match_clause match_fields meets_condition meets_operators if_given get
binds-in_ref lists snap b op m = rw op (rw m refl)

first_exclusion_hit :
    (lists : Lists) (snap : Value) (b : Binding) (bs : List Binding)
    → binds lists snap b ≡ true
    → Member b bs
    → (c : Binding) × (first_exclusion lists snap bs ≡ some c)
unfolding first_exclusion
first_exclusion_hit lists snap b [] h m = absurd (m tt)
first_exclusion_hit lists snap b (c ∷ bs) h (inl e) = (c, rw e (rw h refl))
first_exclusion_hit lists snap b (c ∷ bs) h (inr m) = elim (Bool-cases (binds lists snap c)) [
  | inl y ↦ (c, rw y refl)
  | inr n ↦ let (d, e) = first_exclusion_hit lists snap b bs h m in (d, rw n e)
]

exclusion_gate-hit :
    (snap : Value) (rule : Rule) (fallback : String) (g : Gate) (b : Binding)
    → ignores_trust rule ≡ false
    → (reason : String) × (value : String) × (exclusion_gate snap rule fallback g (some b)
        ≡ ignore reason value)
unfolding exclusion_gate
exclusion_gate-hit snap rule fallback g b h = (
  "exclusion_binding:" +ₛ b.list_name,
  or_text (as_str (get_canonical_field snap b.match_field)) fallback,
  rw h refl,
)

-- A value that is put on a list is out of the way of the rules at once. If the database can be read and
-- the value is not blank, an event whose field has the value that is created, at whatever later time
-- before the entry runs out, is ignored for each rule that has an exclusion by that list with the operator
-- `in_ref` and does not ignore trust, for a tenant that the entry serves.
pub gate-create_entry :
    (ip : IpAddresses) (arithmetic : BinOp → Value → Value → Option Value) (now later : ℕ)
    (c : Creation) (s : State) (tenant_id : String) (snap : Value) (event : Fields)
    (geo : Option String) (rule : Rule) (b : Binding) (code fallback : String)
    → s.db.readable ≡ true
    → is_live later (entry_of s.db.next_id c) ≡ true
    → serves tenant_id (entry_of s.db.next_id c) ≡ true
    → is_named b.list_name (entry_of s.db.next_id c) ≡ true
    → strip (strip c.value) ≢ ""
    → as_str (get_canonical_field snap b.match_field) ≡ strip (strip c.value)
    → b.operator ≡ "in_ref"
    → Member b (bindings_of "exclusion" rule)
    → ignores_trust rule ≡ false
    → let created = (create_entry now c s).0 in
      let entries = (ensure_cache created.db later created.service).cache_entries in
      (reason : String) × (value : String) × (gate
          (services_for ip arithmetic event geo tenant_id entries)
          snap
          rule
          code
          fallback
        ≡ ignore reason value)
unfolding gate services_for
gate-create_entry ip arithmetic now later c s tenant_id snap event geo rule b code fallback r live
      serves_it named filled same op m h =
    let created = (create_entry now c s).0 in
    let entries = (ensure_cache created.db later created.service).cache_entries in
    let listed =
      get_list_by_name-create_entry now later c s b.list_name tenant_id r live serves_it named
        filled in
    let lists = lists_for ip tenant_id entries in
    let on = binds-in_ref lists snap b op (
      rw same (
        Member-mem (strip (strip c.value)) (get_list_by_name b.list_name tenant_id entries)
          listed)) in
    let (x, hit) = first_exclusion_hit lists snap b (bindings_of "exclusion" rule) on m in
    let (reason, value, ignored) =
      exclusion_gate-hit snap rule fallback
        (legacy_gate rule
          ((services_for ip arithmetic event geo tenant_id entries).trusted rule.emit code)
          fallback)
        x h in
    (reason, value, rw hit ignored)
