-- ===== src/SecurityLists/Query.antt =====
-- What is asked of the lists by name, in app/services/security_list_service.py: the values of a list, the
-- addresses that the synchronisation ignores and its inventories.
use siem_sentinel_xv.Base.{
  Bool, false, not, ◌&&◌, ◌||◌, Option, none, some, List, String, [], ◌∷◌, ◌++◌, map, mem, keep,
  ◌==◌, ◌=ₛ◌, if◌then◌else◌,
}
use siem_sentinel_xv.Text.{strip, split, contains, ◌+ₛ◌}
use siem_sentinel_xv.SecurityLists.{Entry, Network, IpAddresses}

abbrev pub same_text : Option String → String → Bool
same_text none s = false
same_text (some t) s = t =ₛ s

-- An entry that counts for a tenant.
abbrev pub serves : String → Entry → Bool
serves tenant_id e = e.enabled && (e.tenant_id =ₛ tenant_id || e.tenant_id =ₛ "global")

abbrev pub is_named : String → Entry → Bool
is_named name e = (e.list_type =ₛ "list_ref" && same_text e.list_name name) || e.list_type =ₛ name

abbrev pub is_filled : String → Bool
is_filled s = not (s =ₛ "")

-- `get_list_by_name`, of the entries of the cache
unfoldable pub get_list_by_name : String → String → List Entry → List String
get_list_by_name name tenant_id entries =
    keep is_filled
      (map (λ e. strip e.value) (keep (λ e. serves tenant_id e && is_named name e) entries))

-- `IgnoreList`; the networks are told apart by what they print
pub record IgnoreList : Type 0 where
  pub ips : List String
  pub cidrs : List Network

-- s.add(x)
abbrev pub add_text : String → List String → List String
add_text x xs = if mem x xs then xs else xs ++ x ∷ []

abbrev pub same_network : Network → Network → Bool
same_network m n = m.version == n.version && m.number == n.number && m.free == n.free

abbrev has_network : Network → List Network → Bool
has_network n [] = false
has_network n (m ∷ ms) = same_network m n || has_network n ms

abbrev pub add_network : Option Network → List Network → List Network
add_network none ns = ns
add_network (some n) ns = if has_network n ns then ns else ns ++ n ∷ []

-- A value that is not empty joins the addresses or the networks.
unfoldable pub add_ignored : IpAddresses → String → IgnoreList → IgnoreList
add_ignored ip val l =
    if val =ₛ ""
    then l
    else if contains "/" val
    then record l { cidrs = add_network (ip.ip_network val) l.cidrs }
    else record l { ips = add_text val l.ips }

unfoldable pub ignore_values : IpAddresses → List String → IgnoreList → IgnoreList
unfolding add_ignored
ignore_values ip [] l = l
ignore_values ip (v ∷ vs) l = ignore_values ip vs (add_ignored ip v l)

unfoldable pub ignore_ips : List String → IgnoreList → IgnoreList
ignore_ips [] l = l
ignore_ips (v ∷ vs) l =
    ignore_ips vs (if strip v =ₛ "" then l else record l { ips = add_text (strip v) l.ips })

unfoldable pub ignore_cidrs : IpAddresses → List String → IgnoreList → IgnoreList
ignore_cidrs ip [] l = l
ignore_cidrs ip (v ∷ vs) l = ignore_cidrs ip vs (
    if strip v =ₛ "" then l else record l { cidrs = add_network (ip.ip_network (strip v)) l.cidrs })

-- The list of the entries for it and of the two variables of the environment.
unfoldable pub ignored_of : IpAddresses → String → String → List Entry → IgnoreList
unfolding ignore_values ignore_ips ignore_cidrs split
ignored_of ip env_ips env_cidrs mine =
    let listed =
      ignore_values ip (map (λ e. strip e.value) mine) (record { ips = []; cidrs = [] }) in
    ignore_cidrs ip (split "," env_cidrs) (ignore_ips (split "," env_ips) listed)

-- `get_blm_ignore_list`, with the two variables of the environment
unfoldable pub get_blm_ignore_list :
    IpAddresses → String → String → String → List Entry → IgnoreList
unfolding ignored_of
get_blm_ignore_list ip env_ips env_cidrs tenant_id entries =
    ignored_of ip env_ips env_cidrs
      (keep (λ e. serves tenant_id e && e.list_type =ₛ "blm_ignore") entries)

-- d[k] = v
abbrev pub set_key : String → String → List (String × String) → List (String × String)
set_key k v [] = (k, v) ∷ []
set_key k v ((j, w) ∷ d) = if j =ₛ k then (k, v) ∷ d else (j, w) ∷ set_key k v d

-- str(e.get("list_name", "")).strip(): the name of a row without one is that of None
abbrev pub shown_name : Option String → String
shown_name none = "None"
shown_name (some s) = strip s

abbrev pub or_default : String → String → String
or_default s d = if s =ₛ "" then d else s

unfoldable pub fill_inventory :
    String → List Entry → List (String × String) → List (String × String)
fill_inventory category [] out = out
fill_inventory category (e ∷ es) out = fill_inventory category es (
    if strip e.value =ₛ ""
    then out
    else set_key (strip e.value) (or_default (shown_name e.list_name) (category +ₛ "_server")) out)

-- `get_blm_inventory_map`
unfoldable pub get_blm_inventory_map : String → String → List Entry → List (String × String)
unfolding fill_inventory ◌+ₛ◌
get_blm_inventory_map category tenant_id entries =
    fill_inventory category
      (keep (λ e. serves tenant_id e && e.list_type =ₛ ("blm_" +ₛ category)) entries) []
