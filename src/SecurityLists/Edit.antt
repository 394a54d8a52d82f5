-- ===== src/SecurityLists/Edit.antt =====
-- Writing the security lists, with their audit: the operations of app/services/security_list_service.py and
-- the notice that app/services/nats_service.py spreads, for the service that all callers share. How a time
-- prints is an argument.
pub mod Cache
pub mod History
use siem_sentinel_xv.Base.{
  ℕ, suc, ◌==◌, Bool, true, false, not, ◌&&◌, Option, none, some, List, String, [], ◌∷◌, ◌++◌, keep,
  find_first, update_first, ◌=ₛ◌, if◌then◌else◌,
}
use siem_sentinel_xv.Text.{strip, join, ◌+ₛ◌}
use siem_sentinel_xv.Value.{show_bool}
use siem_sentinel_xv.SecurityLists.{Entry, Audit, Db, Service, refresh_cache}

-- The message of `publish_list_invalidation`
pub record Notice : Type 0 where
  pub tenant_id : String
  pub list_type : String
  pub list_name : Option String
  pub action : String

pub record State : Type 0 where
  pub db : Db
  pub service : Service
  pub notices : List Notice

-- `notify_invalidation_sync`: the cache counts as never loaded, and the others are told.
unfoldable pub notify : String → Entry → State → State
notify action e s = record s {
  service = record s.service { last_load = none };
  notices =
      s.notices
      ++ record {
        tenant_id = e.tenant_id;
        list_type = e.list_type;
        list_name = e.list_name;
        action = action;
      }
        ∷ [];
}

-- A commit and the load of the cache that follows it.
unfoldable pub commit : Db → ℕ → State → State
unfolding refresh_cache
commit db now s = record s { db = db; service = refresh_cache db now s.service }

abbrev pub strip_given : Option String → Option String
strip_given none = none
strip_given (some s) = if s =ₛ "" then none else some (strip s)

abbrev pub or_text : Option String → String → String
or_text none d = d
or_text (some s) d = if s =ₛ "" then d else s

-- What a caller of `create_entry` gives.
pub record Creation : Type 0 where
  pub tenant_id : String
  pub list_type : String
  pub value : String
  pub value_type : String
  pub list_name : Option String
  pub rule_code : Option String
  pub reason : Option String
  pub expires_at : Option ℕ
  pub enabled : Bool
  pub created_by : String
  pub ip_address : Option String

abbrev pub entry_of : ℕ → Creation → Entry
entry_of id c = record {
  id = id;
  tenant_id = c.tenant_id;
  list_type = c.list_type;
  value = strip c.value;
  value_type = c.value_type;
  list_name = strip_given c.list_name;
  rule_code = strip_given c.rule_code;
  reason = c.reason;
  enabled = c.enabled;
  expires_at = c.expires_at;
  created_by = c.created_by;
  updated_by = none;
}

-- `create_entry`, at a time
unfoldable pub create_entry : ℕ → Creation → State → State × Entry
unfolding commit notify
create_entry now c s =
    let e = entry_of s.db.next_id c in
    let audit : Audit = record {
      entry_id = e.id;
      action = "create";
      field_changed = none;
      old_value = none;
      new_value = some e;
      performed_by = c.created_by;
      performed_at = now;
      ip_address = c.ip_address;
      reason = or_text c.reason "Creación inicial";
    } in
    let db = record s.db {
      entries = s.db.entries ++ e ∷ [];
      audits = s.db.audits ++ audit ∷ [];
      next_id = suc s.db.next_id;
    } in
    (notify "create" e (commit db now s), e)

-- The fields that the caller of `update_entry` names.
pub record Changes : Type 0 where
  pub value : Option String
  pub value_type : Option String
  pub list_name : Option (Option String)
  pub rule_code : Option (Option String)
  pub reason : Option (Option String)
  pub enabled : Option Bool
  pub expires_at : Option (Option ℕ)
  pub tenant_id : Option String
  pub list_type : Option String

-- One field: its new value, and the line about it where the value differs.
abbrev pub change :
    {A : Type 0} → (A → A → Bool) → (A → String) → String → Option A → A → A × List String
change eq show name none old = (old, [])
change eq show name (some new) old =
    if eq old new
    then (old, [])
    else (new, (name +ₛ ": '" +ₛ show old +ₛ "' -> '" +ₛ show new +ₛ "'") ∷ [])

abbrev pub eq_option : {A : Type 0} → (A → A → Bool) → Option A → Option A → Bool
eq_option eq none none = true
eq_option eq (some a) (some b) = eq a b
eq_option eq _ _ = false

abbrev pub show_option : {A : Type 0} → (A → String) → Option A → String
show_option show none = "None"
show_option show (some a) = show a

abbrev pub eq_bool : Bool → Bool → Bool
eq_bool true b = b
eq_bool false b = not b

abbrev pub same_string : String → String → Bool
same_string s t = s =ₛ t

abbrev pub shown : String → String
shown s = s

abbrev pub text_change :
    String → Option (Option String) → Option String → Option String × List String
text_change = change (eq_option same_string) (show_option shown)

-- The loop over the fields, in its order: the entry with its new fields and the lines.
unfoldable pub changed : (ℕ → String) → Changes → Entry → Entry × List String
unfolding ◌+ₛ◌ show_bool
changed show_time d e =
    let (value, l1) = change same_string shown "value" d.value e.value in
    let (value_type, l2) = change same_string shown "value_type" d.value_type e.value_type in
    let (list_name, l3) = text_change "list_name" d.list_name e.list_name in
    let (rule_code, l4) = text_change "rule_code" d.rule_code e.rule_code in
    let (reason, l5) = text_change "reason" d.reason e.reason in
    let (enabled, l6) = change eq_bool show_bool "enabled" d.enabled e.enabled in
    let (expires_at, l7) =
      change (eq_option (λ a b. a == b)) (show_option show_time) "expires_at" d.expires_at
        e.expires_at in
    let (tenant_id, l8) = change same_string shown "tenant_id" d.tenant_id e.tenant_id in
    let (list_type, l9) = change same_string shown "list_type" d.list_type e.list_type in
    (
      record e {
        value = value;
        value_type = value_type;
        list_name = list_name;
        rule_code = rule_code;
        reason = reason;
        enabled = enabled;
        expires_at = expires_at;
        tenant_id = tenant_id;
        list_type = list_type;
      },
      l1 ++ l2 ++ l3 ++ l4 ++ l5 ++ l6 ++ l7 ++ l8 ++ l9,
    )

abbrev pub lines_or_none : List String → String
lines_or_none [] = "none"
lines_or_none (l ∷ ls) = join ", " (l ∷ ls)

abbrev pub has_id : ℕ → Entry → Bool
has_id id e = e.id == id

-- The row of an entry takes its place, and a line of audit is added.
unfoldable pub write : Entry → Audit → Db → Db
write e audit db = record db {
  entries = update_first (has_id e.id) (λ _. e) db.entries;
  audits = db.audits ++ audit ∷ [];
}

-- Who writes, from where and why.
pub record Author : Type 0 where
  pub name : String
  pub ip_address : Option String
  pub reason : Option String

unfoldable pub update_found : (ℕ → String) → ℕ → Changes → Author → Entry → State → State × Entry
unfolding commit notify changed write join
update_found show_time now d by old s =
    let (e, lines) = changed show_time d old in
    let new = record e { updated_by = some by.name } in
    let audit : Audit = record {
      entry_id = new.id;
      action = "update";
      field_changed = some (lines_or_none lines);
      old_value = some old;
      new_value = some new;
      performed_by = by.name;
      performed_at = now;
      ip_address = by.ip_address;
      reason = or_text by.reason "Actualización de registro";
    } in
    (notify "update" new (commit (write new audit s.db) now s), new)

-- An operation on the row of an id; none where it raises, for want of the row.
abbrev pub on_row : (Entry → State → State × Entry) → Option Entry → State → State × Option Entry
on_row f none s = (s, none)
on_row f (some e) s = ((f e s).0, some (f e s).1)

-- `update_entry`
unfoldable pub update_entry : (ℕ → String) → ℕ → ℕ → Changes → Author → State → State × Option Entry
unfolding update_found
update_entry show_time now entry_id d by s =
    on_row (update_found show_time now d by) (find_first (has_id entry_id) s.db.entries) s

abbrev pub not_of : ℕ → Audit → Bool
not_of id a = not (a.entry_id == id)

-- A row goes with all lines of its audit, the one of its deletion included: app/models/security_list.py
-- declares that the lines' foreign key cascades the deletion, in the session and in the database.
unfoldable pub delete_row : ℕ → Db → Db
delete_row id db = record db {
  entries = keep (λ e. not (has_id id e)) db.entries;
  audits = keep (not_of id) db.audits;
}

unfoldable pub delete_found : ℕ → Author → Entry → State → State × Entry
unfolding commit notify delete_row
delete_found now by e s =
    let audit : Audit = record {
      entry_id = e.id;
      action = "delete";
      field_changed = none;
      old_value = some e;
      new_value = none;
      performed_by = by.name;
      performed_at = now;
      ip_address = by.ip_address;
      reason = or_text by.reason "Eliminación de registro";
    } in
    let added = record s.db { audits = s.db.audits ++ audit ∷ [] } in
    (notify "delete" e (commit (delete_row e.id added) now s), e)

-- `delete_entry`, the entry that is deleted, if there is one
unfoldable pub delete_entry : ℕ → ℕ → Author → State → State × Option Entry
unfolding delete_found
delete_entry now entry_id by s =
    on_row (delete_found now by) (find_first (has_id entry_id) s.db.entries) s

abbrev pub new_status : Option Bool → Bool → Bool
new_status none old = not old
new_status (some b) old = b

unfoldable pub toggle_found : ℕ → Option Bool → Author → Entry → State → State × Entry
unfolding commit write
toggle_found now enabled by old s =
    let status = new_status enabled old.enabled in
    let action = if status then "enable" else "disable" in
    let new = record old { enabled = status; updated_by = some by.name } in
    let audit : Audit = record {
      entry_id = new.id;
      action = action;
      field_changed = some "enabled";
      old_value = some old;
      new_value = some new;
      performed_by = by.name;
      performed_at = now;
      ip_address = by.ip_address;
      reason = "Cambio de estado a " +ₛ action;
    } in
    (commit (write new audit s.db) now s, new)

-- `toggle_entry`, which tells nobody
unfoldable pub toggle_entry : ℕ → ℕ → Option Bool → Author → State → State × Option Entry
unfolding toggle_found
toggle_entry now entry_id enabled by s =
    on_row (toggle_found now enabled by) (find_first (has_id entry_id) s.db.entries) s
