-- ===== src/Backend/Monitors.antt =====
-- Monitors, apps/backend/src/services/monitors.ts, and who runs them: the filters of
-- server-monitor-scheduler.ts, storage-scheduler.ts and snmp-scheduler.ts. Of a configuration the code
-- reads whether `server` and `default` are true, and the host; the rest of it is its text. The instant
-- of creation is not modelled.
pub mod Runners
pub mod Defaults
use argus_monitor.Prelude.{
  ℕ, String, Option, none, some, List, [], ◌∷◌, ◌++◌, map, Bool, true, false, ◌&&◌, ◌||◌, not, ◌==◌,
  any, find, filter, update_where, is_null, if◌then◌else◌,
}

pub data MonitorType : Type 0 where
  service process host database storage ping snmp http tcp dns : MonitorType

pub record Config : Type 0 where
  pub is_server : Bool
  pub is_default : Bool
  pub target : Option String
  pub others : String

pub record MonitorRow : Type 0 where
  pub id : String
  pub agent_id : String
  pub kind : MonitorType
  pub name : String
  pub enabled : Bool
  pub config : Config
  pub updated_at : ℕ

abbrev pub Monitors : Type 0
Monitors = List MonitorRow

-- `eq(monitors.type, …)`, and the comparisons of the filters.
abbrev pub is_ping : MonitorType → Bool
is_ping ping = true
is_ping _ = false

abbrev pub is_storage : MonitorType → Bool
is_storage storage = true
is_storage _ = false

abbrev pub is_snmp : MonitorType → Bool
is_snmp snmp = true
is_snmp _ = false

abbrev pub is_check : MonitorType → Bool
is_check http = true
is_check tcp = true
is_check dns = true
is_check _ = false

-- The query with an agent's id, which is not empty, and the one without.
unfoldable pub list_monitors : Monitors → Option String → List MonitorRow
list_monitors db none = db
list_monitors db (some agent_id) = filter (λ m. m.agent_id == agent_id) db

pub record AgentMonitorConfig : Type 0 where
  pub id : String
  pub kind : MonitorType
  pub name : String
  pub config : Config

abbrev pub wire : MonitorRow → AgentMonitorConfig
wire m = record { id = m.id; kind = m.kind; name = m.name; config = m.config }

-- The rows of an agent that are enabled and that neither filter drops.
abbrev pub is_delivered : String → MonitorRow → Bool
is_delivered agent_id m =
    m.agent_id == agent_id
    && m.enabled
    && not (is_snmp m.kind)
    && not ((is_ping m.kind || is_storage m.kind) && m.config.is_server)

unfoldable pub list_agent_monitor_config : Monitors → String → List AgentMonitorConfig
list_agent_monitor_config db agent_id = map wire (filter (is_delivered agent_id) db)

unfoldable pub list_enabled_ping_monitors : Monitors → List MonitorRow
list_enabled_ping_monitors db = filter (λ m. is_ping m.kind && m.enabled) db

unfoldable pub list_enabled_snmp_monitors : Monitors → List MonitorRow
list_enabled_snmp_monitors db = filter (λ m. is_snmp m.kind && m.enabled) db

unfoldable pub list_enabled_checks : Monitors → List MonitorRow
list_enabled_checks db = filter (λ m. is_check m.kind && m.enabled) db

unfoldable pub list_enabled_server_storage_monitors : Monitors → List MonitorRow
list_enabled_server_storage_monitors db =
    filter (λ m. m.config.is_server) (filter (λ m. is_storage m.kind && m.enabled) db)

-- The worklist that `refresh` makes.
unfoldable pub refresh : Monitors → List MonitorRow
unfolding list_enabled_ping_monitors list_enabled_checks
refresh db =
    filter (λ m. m.config.is_server) (list_enabled_ping_monitors db) ++ list_enabled_checks db

pub record CreateMonitorInput : Type 0 where
  pub agent_id : String
  pub kind : MonitorType
  pub name : String
  pub enabled : Option Bool
  pub config : Option Config

-- `{}`.
abbrev pub no_config : Config
no_config = record { is_server = false; is_default = false; target = none; others = "" }

abbrev pub or_default {ℓ} : {A : Type ℓ} → Option A → A → A
or_default none fallback = fallback
or_default (some a) fallback = a

unfoldable pub create_monitor : Monitors → CreateMonitorInput → (id : String) → ℕ → Monitors
create_monitor db input id now =
    db
    ++ record {
      id = id;
      agent_id = input.agent_id;
      kind = input.kind;
      name = input.name;
      enabled = or_default input.enabled true;
      config = or_default input.config no_config;
      updated_at = now;
    }
      ∷ []

-- `existing.some(…)` of the agent's rows.
abbrev pub has_default_ping : Monitors → String → Bool
has_default_ping db agent_id =
    any (λ m. is_ping m.kind && m.config.is_default) (filter (λ m. m.agent_id == agent_id) db)

abbrev pub default_ping : String → String → CreateMonitorInput
default_ping agent_id address = record {
  agent_id = agent_id;
  kind = ping;
  name = "Host reachability";
  enabled = some true;
  config =
      some (record { is_server = true; is_default = true; target = some address; others = "" });
}

-- An empty address is falsy.
unfoldable pub ensure_default_ping_monitor :
    Monitors → String → Option String → (id : String) → ℕ → Monitors
unfolding create_monitor
ensure_default_ping_monitor db agent_id none id now = db
ensure_default_ping_monitor db agent_id (some address) id now =
    if address == "" || has_default_ping db agent_id
    then db
    else create_monitor db (default_ping agent_id address) id now

abbrev pub monitor_by : Monitors → String → Option MonitorRow
monitor_by db id = find (λ m. m.id == id) db

unfoldable pub get_monitor : Monitors → String → Option MonitorRow
get_monitor db id = monitor_by db id

-- A field that is `none` is undefined.
pub record UpdateMonitorInput : Type 0 where
  pub name : Option String
  pub enabled : Option Bool
  pub config : Option Config
  pub agent_id : Option String

unfoldable pub update_monitor :
    Monitors → String → UpdateMonitorInput → ℕ → Monitors × Option MonitorRow
update_monitor db id patch now =
    let next =
      update_where (λ m. m.id == id)
        (λ m. record m {
          name = or_default patch.name m.name;
          enabled = or_default patch.enabled m.enabled;
          config = or_default patch.config m.config;
          agent_id = or_default patch.agent_id m.agent_id;
          updated_at = now;
        })
        db in
    (next, monitor_by next id)

unfoldable pub delete_monitor : Monitors → String → Monitors × Bool
delete_monitor db id = (filter (λ m. not (m.id == id)) db, not (is_null (monitor_by db id)))
