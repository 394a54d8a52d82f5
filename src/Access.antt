-- ===== src/Access.antt =====
-- Roles and permissions, app/core/rbac.py; keys, sessions and the context of a request have modules of
-- their own.
pub mod Keys
pub mod Users
pub mod Agents
pub mod Context
use siem_sentinel_xv.Base.{Bool, true, false, List, String, [], ◌∷◌, mem, ◌=ₛ◌, if◌then◌else◌}
use siem_sentinel_xv.Text.{strip, lower}

abbrev pub role_admin : String
role_admin = "admin"

abbrev pub role_analyst : String
role_analyst = "analyst"

abbrev pub role_operator : String
role_operator = "operator"

abbrev pub role_viewer : String
role_viewer = "viewer"

abbrev pub perm_ingest_read : String
perm_ingest_read = "ingest.read"

abbrev pub perm_alerts_read : String
perm_alerts_read = "alerts.read"

abbrev pub perm_alerts_manage : String
perm_alerts_manage = "alerts.manage"

abbrev pub perm_incidents_manage : String
perm_incidents_manage = "incidents.manage"

abbrev pub perm_agents_manage : String
perm_agents_manage = "agents.manage"

abbrev pub perm_config_manage : String
perm_config_manage = "configuration.manage"

-- `ROLE_PERMISSIONS_MAP.get(role, set())`
unfoldable pub role_permissions : String → List String
role_permissions role =
    if role =ₛ role_admin
    then perm_ingest_read ∷ perm_alerts_read ∷ perm_alerts_manage ∷ perm_incidents_manage
      ∷ perm_agents_manage ∷ perm_config_manage ∷ []
    else if role =ₛ role_analyst
    then perm_ingest_read ∷ perm_alerts_read ∷ perm_alerts_manage ∷ perm_incidents_manage ∷ []
    else if role =ₛ role_operator
    then perm_ingest_read ∷ perm_alerts_read ∷ perm_agents_manage ∷ []
    else if role =ₛ role_viewer
    then perm_ingest_read ∷ perm_alerts_read ∷ []
    else []

-- `check_role_permission`
unfoldable pub check_role_permission : String → String → Bool
check_role_permission role_name permission_name =
    let role = strip (lower role_name) in
    if role =ₛ role_admin then true else mem permission_name (role_permissions role)
