-- ===== src/SecurityLists.antt =====
-- The security lists of app/services/security_list_service.py, with the rows of
-- app/models/security_list.py: the rows, the cache of them and how it is loaded. Python's `ipaddress` is
-- the argument `IpAddresses`; a time is a number of microseconds.
pub mod Fallback
pub mod Query
pub mod Trust
pub mod Edit
pub mod Serve
use siem_sentinel_xv.Base.{
  ℕ, suc, ◌+◌, ◌*◌, ◌/◌, ◌^◌, leb, ltb, ◌==◌, Bool, true, false, not, ◌&&◌, ◌||◌, Option, none,
  some, List, String, [], ◌∷◌, keep, ◌=ₛ◌, if◌then◌else◌,
}
use siem_sentinel_xv.Text.{strip, contains}

-- An address: its version, 4 or 6, and its number.
pub record Address : Type 0 where
  pub version : ℕ
  pub number : ℕ

-- A network: its version, its number and how many of the low bits are free.
pub record Network : Type 0 where
  pub version : ℕ
  pub number : ℕ
  pub free : ℕ

-- What the service asks of `ipaddress`; a text that it raises at is none. `ip_network` is not strict.
pub record IpAddresses : Type 0 where
  pub ip_address : String → Option Address
  pub ip_network : String → Option Network
  pub is_global : Address → Bool

-- `ip in net`
abbrev pub in_network : Address → Network → Bool
in_network a n = a.version == n.version && (a.number / 2 ^ n.free) == (n.number / 2 ^ n.free)

-- `a == b` on addresses
abbrev pub same_address : Address → Address → Bool
same_address a b = a.version == b.version && a.number == b.number

module _ (ip : IpAddresses) where
  open ip use {ip_address, ip_network, is_global}

  -- One text of the list in `_ip_in_cidrs`: a network, or one address.
  unfoldable pub covers : Address → String → Bool
  covers a c =
      if c =ₛ ""
      then false
      else if contains "/" c
      then elim (ip_network c) [ none ↦ false | some n ↦ in_network a n ]
      else elim (ip_address c) [ none ↦ false | some b ↦ same_address a b ]

  unfoldable pub covered : Address → List String → Bool
  unfolding covers
  covered a [] = false
  covered a (c ∷ cs) = covers a (strip c) || covered a cs

  -- `_ip_in_cidrs`
  unfoldable pub ip_in_cidrs : String → List String → Bool
  unfolding covered
  ip_in_cidrs s cidrs = elim (ip_address s) [
    | none ↦ false
    | some a ↦ if s =ₛ "" then false else covered a cidrs
  ]

  -- `_is_non_global_ip`
  unfoldable pub is_non_global_ip : String → Bool
  is_non_global_ip s = elim (ip_address s) [
    | none ↦ false
    | some a ↦ if s =ₛ "" then false else not (is_global a)
  ]

-- `SecurityListEntry`, without the times of its audit
pub record Entry : Type 0 where
  pub id : ℕ
  pub tenant_id : String
  pub list_type : String
  pub value : String
  pub value_type : String
  pub list_name : Option String
  pub rule_code : Option String
  pub reason : Option String
  pub enabled : Bool
  pub expires_at : Option ℕ
  pub created_by : String
  pub updated_by : Option String

-- `SecurityListAudit`; the rows that it prints are kept as rows
pub record Audit : Type 0 where
  pub entry_id : ℕ
  pub action : String
  pub field_changed : Option String
  pub old_value : Option Entry
  pub new_value : Option Entry
  pub performed_by : String
  pub performed_at : ℕ
  pub ip_address : Option String
  pub reason : String

-- The tables, whether they can be read, and the ids that are given.
pub record Db : Type 0 where
  pub readable : Bool
  pub entries : List Entry
  pub audits : List Audit
  pub next_id : ℕ

-- `SecurityListService`; `fallback` is what its JSON files hold.
pub record Service : Type 0 where
  pub ttl_seconds : ℕ
  pub last_load : Option ℕ
  pub cache_entries : List Entry
  pub fallback : List Entry

abbrev pub expired : ℕ → Option ℕ → Bool
expired now none = false
expired now (some t) = leb t now

-- A row that is read: enabled, and not past its time.
abbrev pub is_live : ℕ → Entry → Bool
is_live now e = e.enabled && not (expired now e.expires_at)

-- `refresh_cache`, at a time
unfoldable pub refresh_cache : Db → ℕ → Service → Service
refresh_cache db now s = record s {
  cache_entries = if db.readable then keep (is_live now) db.entries else s.fallback;
  last_load = some now;
}

abbrev pub is_due : ℕ → ℕ → Option ℕ → Bool
is_due ttl now none = true
is_due ttl now (some last) = leb (last + ttl * 1000000) now

-- `_ensure_cache`
unfoldable pub ensure_cache : Db → ℕ → Service → Service
unfolding refresh_cache
ensure_cache db now s = if is_due s.ttl_seconds now s.last_load then refresh_cache db now s else s
