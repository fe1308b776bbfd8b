-- ===== src/Backend/Agents.antt =====
-- Agents and their connection keys, apps/backend/src/services/agents.ts and agent-keys.ts, and the
-- gates of apps/backend/src/routes/agent-ingest.routes.ts. The hash is a parameter. Of the metadata of
-- an agent the code reads the build time and the debug flag. The copy of a key in the table of secrets
-- and the instants of creation and of the last change of a row are not modelled.
pub mod Access
pub mod Registration
use argus_monitor.Prelude.{
  ℕ, ◌-◌, String, Option, none, some, List, [], ◌∷◌, ◌++◌, map, Bool, true, false, ◌&&◌, ◌||◌, not,
  ◌==◌, any, find, filter, update_where, is_null, ltb, min, max, if◌then◌else◌,
}
use argus_monitor.Backend.Monitors.{
  MonitorRow, Monitors, AgentMonitorConfig, list_agent_monitor_config, ensure_default_ping_monitor,
}

pub data AgentStatus : Type 0 where
  pending approved revoked : AgentStatus

pub record Metadata : Type 0 where
  pub build_time : Option String
  pub debug : Option Bool

pub record AgentRow : Type 0 where
  pub id : String
  pub name : String
  pub is_device : Bool
  pub hostname : Option String
  pub platform : Option String
  pub address : Option String
  pub status : AgentStatus
  pub version : Option String
  pub last_seen_at : Option ℕ
  pub approved_at : Option ℕ
  pub push_interval_sec : Option ℕ
  pub metadata : Option Metadata

pub record AgentKeyRow : Type 0 where
  pub id : String
  pub agent_id : Option String
  pub label : String
  pub key_hash : String
  pub disabled : Bool
  pub last_used_at : Option ℕ

pub record Fleet : Type 0 where
  pub agents : List AgentRow
  pub keys : List AgentKeyRow
  pub monitors : Monitors

abbrev pub agent_by : List AgentRow → String → Option AgentRow
agent_by agents id = find (λ a. a.id == id) agents

abbrev pub update_agent_row : Fleet → String → (AgentRow → AgentRow) → Fleet
update_agent_row db id f = record db { agents = update_where (λ a. a.id == id) f db.agents }

abbrev pub update_key : Fleet → String → (AgentKeyRow → AgentKeyRow) → Fleet
update_key db id f = record db { keys = update_where (λ k. k.id == id) f db.keys }

-- ONLINE_STALENESS_MS; the difference of the instants is below the bound, also if it is negative.
unfoldable pub is_agent_online : Bool → Option ℕ → ℕ → Bool
is_agent_online connected none now = false
is_agent_online connected (some seen) now = connected && ltb (now - seen) 60000

pub record RegisterRequest : Type 0 where
  pub name : Option String
  pub hostname : Option String
  pub platform : Option String
  pub version : Option String
  pub address : Option String
  pub build_time : Option String

pub record RegisterResponse : Type 0 where
  pub agent_id : String
  pub status : AgentStatus

-- `if (req.buildTime)`: an empty one is falsy.
abbrev pub reported : Option String → Option Metadata → Option Metadata
reported none old = old
reported (some time) old =
    if time == "" then old else some (record { build_time = some time; debug = none })

-- `set(fields)`.
abbrev pub with_fields : RegisterRequest → ℕ → AgentRow → AgentRow
with_fields req now a = record a {
  hostname = req.hostname;
  platform = req.platform;
  version = req.version;
  address = req.address;
  last_seen_at = some now;
  metadata = reported req.build_time a.metadata;
}

abbrev pub or_default {ℓ} : {A : Type ℓ} → Option A → A → A
or_default none fallback = fallback
or_default (some a) fallback = a

abbrev pub name_of : RegisterRequest → String
name_of req = or_default req.name (or_default req.hostname "agent")

abbrev pub new_agent : RegisterRequest → String → ℕ → AgentRow
new_agent req id now = with_fields req now (record {
  id = id;
  name = name_of req;
  is_device = false;
  hostname = none;
  platform = none;
  address = none;
  status = pending;
  version = none;
  last_seen_at = none;
  approved_at = none;
  push_interval_sec = none;
  metadata = none;
})

-- The insert, and the binding of the key.
abbrev pub register_new :
    Fleet → AgentKeyRow → RegisterRequest → (id : String) → ℕ → Fleet × RegisterResponse
register_new db key req id now = (
  update_key (record db { agents = db.agents ++ new_agent req id now ∷ [] }) key.id
      (λ k. record k { agent_id = some id }),
  record { agent_id = id; status = pending },
)

-- What the update returns: the row of the key's agent, if there is one.
abbrev pub register_with :
    Fleet
    → AgentKeyRow
    → RegisterRequest
    → (id : String) → ℕ
    → Option AgentRow
    → Fleet × RegisterResponse
register_with db key req id now none = register_new db key req id now
register_with db key req id now (some a) =
    (update_agent_row db a.id (with_fields req now), record { agent_id = a.id; status = a.status })

abbrev pub bound_agent : Fleet → Option String → Option AgentRow
bound_agent db none = none
bound_agent db (some agent_id) = if agent_id == "" then none else agent_by db.agents agent_id

unfoldable pub register_agent :
    Fleet → AgentKeyRow → RegisterRequest → (id : String) → ℕ → Fleet × RegisterResponse
register_agent db key req id now = register_with db key req id now (bound_agent db key.agent_id)

unfoldable pub approve_agent : Fleet → String → ℕ → Fleet
approve_agent db id now =
    update_agent_row db id (λ a. record a { status = approved; approved_at = some now })

unfoldable pub revoke_agent : Fleet → String → Fleet
revoke_agent db id = update_agent_row db id (λ a. record a { status = revoked })

-- `clampPushInterval` of a whole number of seconds.
abbrev pub clamp_push_interval : ℕ → ℕ
clamp_push_interval sec = min (max sec 5) 3600

abbrev pub clamp_override : Option ℕ → Option ℕ
clamp_override none = none
clamp_override (some sec) = some (clamp_push_interval sec)

-- A field that is `none` is undefined; an interval that is `some none` is null.
pub record AgentPatch : Type 0 where
  pub name : Option String
  pub push_interval_sec : Option (Option ℕ)
  pub debug : Option Bool

abbrev pub patched_interval : Option (Option ℕ) → Option ℕ → Option ℕ
patched_interval none old = old
patched_interval (some value) old = clamp_override value

-- The metadata that are there are kept.
abbrev pub patched_metadata : Option Bool → Option Metadata → Option Metadata
patched_metadata none old = old
patched_metadata (some debug) none = some (record { build_time = none; debug = some debug })
patched_metadata (some debug) (some old) = some (record old { debug = some debug })

unfoldable pub update_agent : Fleet → String → AgentPatch → Fleet
update_agent db id patch = update_agent_row db id (λ a. record a {
  name = or_default patch.name a.name;
  push_interval_sec = patched_interval patch.push_interval_sec a.push_interval_sec;
  metadata = patched_metadata patch.debug a.metadata;
})

abbrev pub is_debug : Option Metadata → Bool
is_debug none = false
is_debug (some m) = or_default m.debug false

abbrev pub debug_of : Option AgentRow → Bool
debug_of none = false
debug_of (some a) = is_debug a.metadata

unfoldable pub agent_debug_enabled : Fleet → String → Bool
agent_debug_enabled db id = debug_of (agent_by db.agents id)

abbrev pub override_of : Option AgentRow → Option ℕ
override_of none = none
override_of (some a) = a.push_interval_sec

abbrev pub interval_or : Option ℕ → Option ℕ → ℕ
interval_or (some own) setting = clamp_push_interval own
interval_or none setting = clamp_push_interval (or_default setting 30)

-- `setting` is the global interval, if it is a number.
unfoldable pub effective_push_interval : Fleet → String → (setting : Option ℕ) → ℕ
effective_push_interval db id setting = interval_or (override_of (agent_by db.agents id)) setting

-- The keys and the monitors of the agent go with it, by ON DELETE CASCADE.
abbrev pub is_some_id : String → Option String → Bool
is_some_id id none = false
is_some_id id (some agent_id) = agent_id == id

unfoldable pub delete_agent : Fleet → String → Fleet × Bool
delete_agent db id = (
  record {
    agents = filter (λ a. not (a.id == id)) db.agents;
    keys = filter (λ k. not (is_some_id id k.agent_id)) db.keys;
    monitors = filter (λ m. not (m.agent_id == id)) db.monitors;
  },
  not (is_null (agent_by db.agents id)),
)

unfoldable pub touch_agent : Fleet → String → ℕ → Fleet
touch_agent db id now = update_agent_row db id (λ a. record a { last_seen_at = some now })

abbrev pub is_approved_status : Option AgentRow → Bool
is_approved_status none = false
is_approved_status (some a) = elim a.status [ approved ↦ true | _ ↦ false ]

unfoldable pub is_approved : Fleet → String → Bool
is_approved db id = is_approved_status (agent_by db.agents id)

unfoldable pub revoke_connection_key : Fleet → String → Fleet
revoke_connection_key db key_id = update_key db key_id (λ k. record k { disabled = true })

unfoldable pub touch_key_usage : Fleet → String → ℕ → Fleet
touch_key_usage db key_id now = update_key db key_id (λ k. record k { last_used_at = some now })

-- The answers of the gates: 401 missing_key, 401 invalid_key, 403 not_approved, or the agent.
pub data Gate : Type 0 where
  missing_key invalid_key not_approved : Gate
  admitted : (agent_id : String) → Gate

module _ (sha256 : String → String) where
  unfoldable pub mint_connection_key : Fleet → String → (key id : String) → Fleet
  mint_connection_key db label key id = record db {
    keys =
        db.keys
        ++ record {
          id = id;
          agent_id = none;
          label = label;
          key_hash = sha256 key;
          disabled = false;
          last_used_at = none;
        }
          ∷ [];
  }

  abbrev pub enabled_key : Option AgentKeyRow → Option AgentKeyRow
  enabled_key none = none
  enabled_key (some k) = if k.disabled then none else some k

  unfoldable pub resolve_agent_key : Fleet → String → Option AgentKeyRow
  resolve_agent_key db raw = enabled_key (find (λ k. k.key_hash == sha256 raw) db.keys)

  abbrev pub gate_agent : Fleet → Option String → Gate
  gate_agent db none = not_approved
  gate_agent db (some agent_id) =
      if agent_id == ""
      then not_approved
      else if not (is_approved db agent_id)
      then not_approved
      else admitted agent_id

  abbrev pub gate_key : Fleet → Option AgentKeyRow → Gate
  gate_key db none = invalid_key
  gate_key db (some k) = gate_agent db k.agent_id

  -- `requireKey`, then the first lines of the routes that an approved agent may call.
  unfoldable pub ingest_gate : Fleet → Option String → Gate
  unfolding resolve_agent_key is_approved
  ingest_gate db none = missing_key
  ingest_gate db (some raw) =
      if raw == "" then missing_key else gate_key db (resolve_agent_key db raw)
