-- ===== src/Backend/PublicStatus/Page.antt =====
-- The snapshot of the public page, apps/backend/src/services/public-status.ts: resolveItem and
-- buildPublicStatus.
use argus_monitor.Prelude.{
  ℕ, String, Option, none, some, List, [], ◌∷◌, ◌++◌, map, false, not, ◌==◌, any, is_empty, is_null,
  same_text, if◌then◌else◌,
}
use argus_monitor.Shared.{HealthStatus}
use argus_monitor.Core.Rollup.{MonitoredUnit, rollup}
use argus_monitor.Core.Totp.{trim}
use argus_monitor.Backend.PublicStatus.{
  agent_item, monitor_item, PublicItemConfig, PublicNotice, PublicConfig, Site, or_blank,
  get_public_config, agent_status, Resolved, monitor_status, uptime_pct_for, uptime_history_for,
}

pub record PublicStatusItem : Type 0 where
  pub label : String
  pub status : HealthStatus
  pub uptime_pct : Option ℕ
  pub history : Option (List (Option ℕ))

pub record PublicStatusGroup : Type 0 where
  pub name : List ℕ
  pub status : HealthStatus
  pub items : List PublicStatusItem

pub record PublicStatus : Type 0 where
  pub title : String
  pub description : Option (List ℕ)
  pub notice : Option PublicNotice
  pub overall : HealthStatus
  pub groups : List PublicStatusGroup
  pub generated_at : ℕ

-- An agent's buckets are those of all its monitors.
abbrev pub source_of : Site → PublicItemConfig → ℕ → Resolved
source_of db cfg now = elim cfg.kind [
  | agent_item ↦ record {
    status = agent_status db cfg.ref_id now;
    source_id = some cfg.ref_id;
    entity = none;
  }
  | monitor_item ↦ monitor_status db cfg.ref_id
]

-- `history.some((d) => d !== null)`.
abbrev pub shown : List (Option ℕ) → Option (List (Option ℕ))
shown history = if any (λ d. not (is_null d)) history then some history else none

abbrev pub item_of :
    Site
    → PublicConfig
    → String
    → HealthStatus
    → Option String
    → Option String
    → ℕ
    → PublicStatusItem
item_of db config label status none entity now = record {
  label = label;
  status = status;
  uptime_pct = none;
  history = none;
}
item_of db config label status (some source_id) entity now =
    if source_id == ""
    then record { label = label; status = status; uptime_pct = none; history = none }
    else record {
      label = label;
      status = status;
      uptime_pct = if config.show_uptime then uptime_pct_for db source_id entity else none;
      history =
          if config.show_history
          then shown (uptime_history_for db source_id entity config.history_days now)
          else none;
    }

unfoldable pub resolve_item : Site → PublicConfig → PublicItemConfig → ℕ → PublicStatusItem
unfolding agent_status monitor_status uptime_pct_for uptime_history_for
resolve_item db config cfg now =
    let r = source_of db cfg now in item_of db config cfg.label r.status r.source_id r.entity now

abbrev pub Sections : Type 0
Sections = List (List ℕ × List PublicStatusItem)

-- `groups.get(name).push(item)`; a name that is new goes to the end of `order`.
unfoldable pub put_item : List ℕ → PublicStatusItem → Sections → Sections
put_item name item [] = (name, item ∷ []) ∷ []
put_item name item ((key, items) ∷ groups) =
    if same_text key name
    then (key, items ++ item ∷ []) ∷ groups
    else (key, items) ∷ put_item name item groups

-- `cfg.group?.trim() ?? ""`.
abbrev pub group_name : PublicItemConfig → List ℕ
group_name cfg = trim (or_blank cfg.group)

abbrev pub unit_of : PublicStatusItem → MonitoredUnit
unit_of item = record { status = item.status; critical = false }

-- The loop over the items, with the groups and the units so far.
unfoldable pub gather :
    Site
    → PublicConfig
    → ℕ
    → List PublicItemConfig
    → Sections × List MonitoredUnit
    → Sections × List MonitoredUnit
unfolding resolve_item put_item trim
gather db config now [] state = state
gather db config now (cfg ∷ items) (groups, units) =
    let item = resolve_item db config cfg now in
    gather db config now items (put_item (group_name cfg) item groups, units ++ unit_of item ∷ [])

abbrev pub group_of : List ℕ × List PublicStatusItem → PublicStatusGroup
group_of (name, items) = record { name = name; status = rollup (map unit_of items); items = items }

abbrev pub shown_description : Option (List ℕ) → Option (List ℕ)
shown_description description =
    let text = trim (or_blank description) in if is_empty text then none else some text

abbrev pub shown_notice : Option PublicNotice → Option PublicNotice
shown_notice none = none
shown_notice (some n) = if is_empty (trim n.message) then none else some n

abbrev pub page_of : PublicConfig → ℕ → Sections × List MonitoredUnit → PublicStatus
page_of config now (groups, units) = record {
  title = config.title;
  description = shown_description config.description;
  notice = shown_notice config.notice;
  overall = rollup units;
  groups = map group_of groups;
  generated_at = now;
}

unfoldable pub build_public_status : Site → ℕ → Option PublicStatus
unfolding get_public_config gather trim rollup
build_public_status db now =
    let config = get_public_config db.configs in
    if not config.enabled
    then none
    else some (page_of config now (gather db config now config.items ([], [])))
