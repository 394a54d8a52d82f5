-- ===== src/SecurityLists/Fallback.antt =====
-- The entries that stand in for the rows when the database cannot be read: `_load_fallback_entries` of
-- app/services/security_list_service.py. A file is the document that it holds, none where it is missing or
-- cannot be parsed. What a failure half way has added already is kept, as in the source.
use Prim.Native.String as Text
use siem_sentinel_xv.Base.{Bool, true, false, Option, none, some, List, String, [], ◌∷◌, ◌++◌, map}
use siem_sentinel_xv.Text.{strip, upper}
use siem_sentinel_xv.Value.{Value, str, list, dict, Fields, end, field, get, items, to_str}
use siem_sentinel_xv.SecurityLists.{Entry}

-- A synthetic entry.
abbrev pub synthetic : String → String → Option String → String → String → Entry
synthetic list_type value_type list_name reason value = record {
  id = 0;
  tenant_id = "global";
  list_type = list_type;
  value = value;
  value_type = value_type;
  list_name = list_name;
  rule_code = none;
  reason = some reason;
  enabled = true;
  expires_at = none;
  created_by = "system";
  updated_by = none;
}

unfoldable pub characters : String → List Value
characters Text.[] = []
characters (Text.◌∷◌ c s) = str (Text.◌∷◌ c "") ∷ characters s

unfoldable pub keys : Fields → List Value
keys end = []
keys (field k v fs) = str k ∷ keys fs

-- `for x in v`, none where it raises
unfoldable pub iterate : Value → Option (List Value)
unfolding characters keys
iterate (list vs) = some (items vs)
iterate (str s) = some (characters s)
iterate (dict fs) = some (keys fs)
iterate _ = none

-- What has been added, and whether nothing has been raised.
abbrev pub Loading : Type 0
Loading = List Entry × Bool

-- A step that is not reached once something is raised.
abbrev pub then_step : (List Entry → Loading) → Loading → Loading
then_step f (es, true) = f es
then_step f (es, false) = (es, false)

abbrev pub add_each : (Value → Entry) → Option (List Value) → List Entry → Loading
add_each make none es = (es, false)
add_each make (some vs) es = (es ++ map make vs, true)

-- `for x in d.get(k, []): entries.append(...)`
unfoldable pub add_values : (Value → Entry) → String → Fields → List Entry → Loading
unfolding iterate
add_values make k d es = elim (get d k) [
  | none ↦ (es, true)
  | some v ↦ add_each make (iterate v) es
]

abbrev pub if_dict : (Fields → List Entry → Loading) → Option Value → List Entry → Loading
if_dict f (some (dict d)) es = f d es
if_dict f _ es = (es, true)

-- The servers of a document and their addresses.
unfoldable pub add_servers : String → String → Fields → List Entry → Loading
unfolding add_values
add_servers list_type reason end es = (es, true)
add_servers list_type reason (field name v fs) es = then_step (add_servers list_type reason fs) (
    if_dict
      (add_values (λ x. synthetic list_type "ip" (some name) reason (strip (to_str x)))
        "server_ips")
      (some v) es)

-- A list by its name; one that is no list is passed over.
unfoldable pub add_named : String → Value → List Entry → List Entry
add_named name (list vs) es =
    es
    ++ map
        (λ x.
          synthetic "list_ref" "token" (some name) "Fallback JSON trust_list" (strip (to_str x)))
        (items vs)
add_named name _ es = es

unfoldable pub add_lists : Fields → List Entry → Loading
unfolding add_named
add_lists end es = (es, true)
add_lists (field name v fs) es = add_lists fs (add_named name v es)

abbrev trusts : String → String → (String → String) → Value → Entry
trusts list_type value_type f x =
    synthetic list_type value_type none "Fallback JSON trust_list" (f (strip (to_str x)))

-- Part 1: trust_list.json
unfoldable pub load_trust : Fields → List Entry → Loading
unfolding add_values add_servers add_lists
load_trust d es =
    let ips = add_values (trusts "whitelist_ip" "ip" (λ s. s)) "trusted_ips" d es in
    let countries =
      then_step (add_values (trusts "trusted_country" "country_code" upper) "trusted_countries" d)
        ips in
    let asns =
      then_step (add_values (trusts "trusted_asn" "asn" (λ s. s)) "trusted_asn_numbers" d)
        countries in
    let servers =
      then_step
        (if_dict (add_servers "trusted_server" "Fallback JSON trust_list") (get d "servers"))
        asns in
    then_step (if_dict add_lists (get d "lists")) servers

-- Part 2: blacklistmaster_ignore.json
unfoldable pub load_ignore : Fields → List Entry → Loading
unfolding add_values
load_ignore d es =
    let ignores = λ (value_type : String) (x : Value).
      synthetic "blm_ignore" value_type none "Fallback JSON blm_ignore" (strip (to_str x)) in
    then_step (add_values (ignores "cidr") "cidrs" d) (add_values (ignores "ip") "ips" d es)

-- Parts 3 and 4: blacklistmaster_shared.json and blacklistmaster_pmg.json
unfoldable pub load_inventory : String → String → Fields → List Entry → Loading
unfolding add_servers
load_inventory list_type reason d es = if_dict (add_servers list_type reason) (get d "servers") es

-- A file's part: nothing where there is no document; one that is no dict raises at once.
abbrev pub load_file : (Fields → List Entry → Loading) → Option Value → List Entry → List Entry
load_file load (some (dict d)) es = (load d es).0
load_file load _ es = es

-- `_load_fallback_entries`, of the four files in their order
unfoldable pub load_fallback_entries :
    Option Value → Option Value → Option Value → Option Value → List Entry
unfolding load_trust load_ignore load_inventory
load_fallback_entries trust ignore shared pmg =
    load_file (load_inventory "blm_pmg" "Fallback JSON blm_pmg") pmg (
      load_file (load_inventory "blm_shared" "Fallback JSON blm_shared") shared
        (load_file load_ignore ignore (load_file load_trust trust [])))
