-- ===== src/Backend/Tests/Page.antt =====
-- Runs of the public status page, apps/backend/src/services/public-status.ts.
use argus_monitor.Prelude.{
  ◌≡◌, refl, sym, ap, ◌∙◌, arith, inl, inr, eq_iff, Bool-cases, String, none, some, [], ◌∷◌, map,
  true, false, ◌==◌, code_points,
}
use argus_monitor.Shared.{down}
use argus_monitor.Core.Rollup.{rollup}
use argus_monitor.Core.Uptime.{empty_bucket}
use argus_monitor.Backend.Agents.{AgentRow, approved}
use argus_monitor.Backend.Monitors.{MonitorRow, ping}
use argus_monitor.Backend.Pipeline.{UnitStateRow, UptimeBucketRow}
use argus_monitor.Backend.PublicStatus.{
  agent_item, monitor_item, incident, PublicConfig, Site, get_public_config, update_public_config,
  row_of, uptime_history_for, sum_from, day_pct, first_day,
}
use argus_monitor.Backend.PublicStatus.Page.{PublicStatus, unit_of, build_public_status}
use argus_monitor.Backend.PublicStatus.Secrecy.{Disguise, hide}
use argus_monitor.Backend.PublicStatus.Anonymity.{build_public_status-hide}
use argus_monitor.Backend.PublicStatus.Config.{tidy, get_public_config-update_public_config}
use argus_monitor.Backend.PublicStatus.History.{rows_on, days_from, uptime_history_for-days}
use argus_monitor.Backend.PublicStatus.Sections.{
  section_of, section_names, resolved, build_public_status-sections,
}

abbrev host : AgentRow
host = record {
  id = "a1";
  name = "web-1";
  is_device = false;
  hostname = some "web-1.example";
  platform = some "linux";
  address = some "10.0.0.5";
  status = approved;
  version = none;
  last_seen_at = some 172800000;
  approved_at = some 1;
  push_interval_sec = none;
  metadata = none;
}

abbrev probe : MonitorRow
probe = record {
  id = "m1";
  agent_id = "a1";
  kind = ping;
  name = "shop";
  enabled = true;
  config = record { is_server = true; is_default = false; target = none; others = "" };
  updated_at = 0;
}

abbrev state : UnitStateRow
state = record {
  source_id = "a1";
  entity = "shop";
  status = down;
  pid = none;
  critical = false;
  sample = none;
  updated_at = 172800000;
}

abbrev bucket : UptimeBucketRow
bucket = record {
  source_id = "a1";
  entity = "shop";
  bucket_start = 172800000;
  up_sec = 90;
  total_sec = 120;
}

abbrev page_config : PublicConfig
page_config = record {
  enabled = true;
  title = "Status";
  description = none;
  show_uptime = true;
  show_history = true;
  history_days = 2;
  notice = some (record { level = incident; message = code_points " late " });
  items =
      record { kind = agent_item; ref_id = "a1"; label = "Servers"; group = none }
      ∷ record {
        kind = monitor_item;
        ref_id = "m1";
        label = "Shop";
        group = some (code_points "Web ");
      }
      ∷ [];
}

abbrev site : Site
site = record {
  configs = row_of page_config ∷ [];
  agents = host ∷ [];
  monitors = probe ∷ [];
  states = state ∷ [];
  buckets = bucket ∷ [];
}

-- Every text but the empty one gets a letter in front.
marked : String → String
marked String.[] = ""
marked (String.◌∷◌ c s) = String.◌∷◌ "x" (String.◌∷◌ c s)

unmarked : String → String
unmarked String.[] = ""
unmarked (String.◌∷◌ c s) = s

unmarked_lem : (s : String) → unmarked (marked s) ≡ s
unfolding unmarked marked
unmarked_lem String.[] = refl
unmarked_lem (String.◌∷◌ c s) = refl

same_marked : (a b : String) → (marked a == marked b) ≡ (a == b)
same_marked a b = elim (Bool-cases (a == b)) [
  | inl h ↦ (eq_iff (marked a) (marked b)).1 (ap marked ((eq_iff a b).0 h)) ∙ sym h
  | inr h ↦ elim (Bool-cases (marked a == marked b)) [
    | inr k ↦ k ∙ sym h
    | inl k ↦
        let e =
          sym (unmarked_lem a)
          ∙ ap unmarked ((eq_iff (marked a) (marked b)).0 k)
          ∙ unmarked_lem b in
        let f = (eq_iff a b).1 e in absurd (ground arith)
  ]
]

blank_marked : (a : String) → (marked a == "") ≡ (a == "")
unfolding marked
blank_marked a = same_marked a ""

abbrev disguise : Disguise
disguise = record {
  id_of = marked;
  name_of = marked;
  same_id = same_marked;
  same_name = same_marked;
  blank_id = blank_marked;
  blank_name = blank_marked;
  agent = λ a. record a { id = marked a.id; name = ""; hostname = none; address = none };
  agent_id = λ a. refl;
  agent_status = λ a. refl;
  agent_seen = λ a. refl;
  monitor = λ m. record m {
    id = marked m.id;
    agent_id = marked m.agent_id;
    name = marked m.name;
    updated_at = 0;
  };
  monitor_id = λ m. refl;
  monitor_agent = λ m. refl;
  monitor_name = λ m. refl;
  monitor_enabled = λ m. refl;
}

build_public_status-hide_example :
    build_public_status (hide disguise site) 172900000 ≡ build_public_status site 172900000
build_public_status-hide_example = build_public_status-hide disguise site 172900000

get_public_config-update_public_config_example :
    let once = update_public_config [] page_config in
    (get_public_config once ≡ tidy page_config)
    × (update_public_config once (get_public_config once) ≡ once)
get_public_config-update_public_config_example =
    get_public_config-update_public_config [] page_config

uptime_history_for-days_example :
    uptime_history_for site "a1" none 2 172900000
    ≡ map
        (λ day. day_pct (sum_from empty_bucket (rows_on site "a1" none day)))
        (days_from 2 (first_day 2 172900000))
uptime_history_for-days_example = uptime_history_for-days site "a1" none 2 172900000

-- Nothing on the first day, and three quarters on the second.
history : uptime_history_for site "a1" none 2 172900000 ≡ none ∷ some 75 ∷ []
unfolding uptime_history_for
history = refl

build_public_status-sections_example :
    let config = get_public_config site.configs in
    (page : PublicStatus) × (build_public_status site 172900000 ≡ some page)
    × (page.groups
        ≡ map (section_of site config 172900000 config.items) (section_names config.items))
    × (page.overall ≡ rollup (map unit_of (resolved site config 172900000 config.items)))
unfolding get_public_config
build_public_status-sections_example = build_public_status-sections site 172900000 refl
