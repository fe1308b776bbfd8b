-- ===== src/Backend/PublicStatus/Anonymity.antt =====
-- The snapshot of the public page of a site, and of the same site with other ids and names.
use argus_monitor.Prelude.{
  ℕ, ◌≡◌, refl, ap, ◌∙◌, ◌⊎◌, inl, inr, String, Option, none, some, List, [], ◌∷◌, ◌++◌, map,
}
use argus_monitor.Core.Rollup.{MonitoredUnit}
use argus_monitor.Shared.{HealthStatus}
use argus_monitor.Backend.PublicStatus.{
  agent_item, monitor_item, ItemKind, PublicItemConfig, PublicConfig, Site, get_public_config,
  Resolved,
}
use argus_monitor.Backend.PublicStatus.Page.{
  source_of, item_of, resolve_item, Sections, put_item, group_name, unit_of, gather,
  build_public_status,
}
use argus_monitor.Backend.PublicStatus.Secrecy.{
  Disguise, image, hide, hide_config, hide_item, hide_resolved, get_public_config-hide,
  agent_status-hide, monitor_status-hide, uptime_pct_for-hide, uptime_history_for-hide,
}

kind_cases : (k : ItemKind) → (k ≡ agent_item) ⊎ (k ≡ monitor_item)
kind_cases agent_item = inl refl
kind_cases monitor_item = inr refl

module _ (d : Disguise) where
  source_of-hide :
      (db : Site) (cfg : PublicItemConfig) (now : ℕ)
      → source_of (hide d db) (hide_item d cfg) now ≡ hide_resolved d (source_of db cfg now)
  source_of-hide db cfg now =
      let a = agent_status-hide d db cfg.ref_id now in
      let m = monitor_status-hide d db cfg.ref_id in
      elim (kind_cases cfg.kind) [ inl h ↦ rw (h, a) refl | inr h ↦ rw (h, m) refl ]

  item_of-hide :
      (db : Site) (config : PublicConfig) (label : String) (status : HealthStatus)
      (source_id entity : Option String) (now : ℕ)
      → item_of
          (hide d db)
          (hide_config d config)
          label
          status
          (image d.id_of source_id)
          (image d.name_of entity)
          now
        ≡ item_of db config label status source_id entity now
  item_of-hide db config label status none entity now = refl
  item_of-hide db config label status (some source_id) entity now =
      let blank = d.blank_id source_id in
      let pct = uptime_pct_for-hide d db source_id entity in
      let history = uptime_history_for-hide d db source_id entity config.history_days now in
      rw (blank, pct, history) refl

  resolve_item-hide :
      (db : Site) (config : PublicConfig) (cfg : PublicItemConfig) (now : ℕ)
      → resolve_item (hide d db) (hide_config d config) (hide_item d cfg) now
        ≡ resolve_item db config cfg now
  unfolding resolve_item
  resolve_item-hide db config cfg now =
      let r = source_of db cfg now in
      ap
        (λ (r : Resolved).
          item_of (hide d db) (hide_config d config) cfg.label r.status r.source_id r.entity now)
        (source_of-hide db cfg now)
      ∙ item_of-hide db config cfg.label r.status r.source_id r.entity now

  gather-hide :
      (db : Site) (config : PublicConfig) (now : ℕ) (items : List PublicItemConfig)
      (groups : Sections) (units : List MonitoredUnit)
      → gather (hide d db) (hide_config d config) now (map (hide_item d) items) (groups, units)
        ≡ gather db config now items (groups, units)
  unfolding gather
  gather-hide db config now [] groups units = refl
  gather-hide db config now (cfg ∷ items) groups units =
      let hidden = resolve_item (hide d db) (hide_config d config) (hide_item d cfg) now in
      gather-hide db config now items (put_item (group_name cfg) hidden groups)
        (units ++ unit_of hidden ∷ [])
      ∙ ap
          (λ item.
            gather db config now items
              (put_item (group_name cfg) item groups, units ++ unit_of item ∷ []))
          (resolve_item-hide db config cfg now)

  -- The public page is the same for a site whose ids and names are spelled otherwise, each by another
  -- of its own, and whose agents and monitors differ in anything but their state: it tells nothing of
  -- ids, of the names of agents and monitors, of hosts, addresses, versions and configurations.
  pub build_public_status-hide :
      (db : Site) (now : ℕ) → build_public_status (hide d db) now ≡ build_public_status db now
  unfolding build_public_status
  build_public_status-hide db now =
      let config = get_public_config db.configs in
      let e = get_public_config-hide d db.configs in
      let f = gather-hide db config now config.items [] [] in rw (e, f) refl
