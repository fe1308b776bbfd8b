-- ===== src/Backend/PublicStatus/Secrecy.antt =====
-- What the public page does not tell: ids, names of hosts and monitors, addresses and versions.
use argus_monitor.Prelude.{
  ℕ, ◌*◌, leb, ◌&&◌, ◌≡◌, refl, ap, ◌∙◌, String, Option, none, some, List, [], ◌∷◌, map, Bool, ◌==◌,
  find, filter, Bool-cases, inl, inr, is_empty,
}
use argus_monitor.Core.Uptime.{UptimeBucket, empty_bucket}
use argus_monitor.Backend.Agents.{AgentRow, agent_by}
use argus_monitor.Backend.Monitors.{MonitorRow, monitor_by}
use argus_monitor.Backend.Pipeline.{UnitStateRow, UptimeBucketRow, is_state_of}
use argus_monitor.Backend.PublicStatus.{
  PublicItemConfig, PublicConfig, PublicConfigRow, Site, config_of, get_public_config,
  status_of_agent, agent_status, Resolved, status_of_state, resolved_monitor, monitor_status,
  is_bucket_for, add_bucket, sum_from, uptime_pct_for, add_day, by_day, uptime_history_for,
  first_day, day_ms,
}

-- Another spelling of the ids and the names, and rows that agree in all that the page may show.
pub record Disguise : Type 0 where
  pub id_of : String → String
  pub name_of : String → String
  pub same_id : (a b : String) → (id_of a == id_of b) ≡ (a == b)
  pub same_name : (a b : String) → (name_of a == name_of b) ≡ (a == b)
  pub blank_id : (a : String) → (id_of a == "") ≡ (a == "")
  pub blank_name : (a : String) → (name_of a == "") ≡ (a == "")
  pub agent : AgentRow → AgentRow
  pub agent_id : (a : AgentRow) → (agent a).id ≡ id_of a.id
  pub agent_status : (a : AgentRow) → (agent a).status ≡ a.status
  pub agent_seen : (a : AgentRow) → (agent a).last_seen_at ≡ a.last_seen_at
  pub monitor : MonitorRow → MonitorRow
  pub monitor_id : (m : MonitorRow) → (monitor m).id ≡ id_of m.id
  pub monitor_agent : (m : MonitorRow) → (monitor m).agent_id ≡ id_of m.agent_id
  pub monitor_name : (m : MonitorRow) → (monitor m).name ≡ name_of m.name
  pub monitor_enabled : (m : MonitorRow) → (monitor m).enabled ≡ m.enabled

abbrev pub image {ℓ κ} : {A : Type ℓ} {B : Type κ} → (A → B) → Option A → Option B
image f none = none
image f (some a) = some (f a)

module _ {ℓ κ} {A : Type ℓ} {B : Type κ} (g : A → B) (p : A → Bool) (q : B → Bool)
    (same : (a : A) → q (g a) ≡ p a) where
  find-image : (xs : List A) → find q (map g xs) ≡ image g (find p xs)
  find-image [] = refl
  find-image (x ∷ xs) =
      let e = same x in
      let ih = find-image xs in
      elim (Bool-cases (p x)) [ inl h ↦ rw (e, h) refl | inr h ↦ rw (e, h) ih ]

  filter-image : (xs : List A) → filter q (map g xs) ≡ map g (filter p xs)
  filter-image [] = refl
  filter-image (x ∷ xs) =
      let e = same x in
      let ih = filter-image xs in
      elim (Bool-cases (p x)) [ inl h ↦ rw (e, h, ih) refl | inr h ↦ rw (e, h, ih) refl ]

module _ (d : Disguise) where
  abbrev pub hide_item : PublicItemConfig → PublicItemConfig
  hide_item cfg = record cfg { ref_id = d.id_of cfg.ref_id }

  abbrev pub hide_row : PublicConfigRow → PublicConfigRow
  hide_row r = record r { items = map hide_item r.items }

  abbrev pub hide_state : UnitStateRow → UnitStateRow
  hide_state s = record s { source_id = d.id_of s.source_id; entity = d.name_of s.entity }

  abbrev pub hide_bucket : UptimeBucketRow → UptimeBucketRow
  hide_bucket b = record b { source_id = d.id_of b.source_id; entity = d.name_of b.entity }

  abbrev pub hide : Site → Site
  hide db = record {
    configs = map hide_row db.configs;
    agents = map d.agent db.agents;
    monitors = map d.monitor db.monitors;
    states = map hide_state db.states;
    buckets = map hide_bucket db.buckets;
  }

  abbrev pub hide_config : PublicConfig → PublicConfig
  hide_config config = record config { items = map hide_item config.items }

  config_of-image :
      (o : Option PublicConfigRow) → config_of (image hide_row o) ≡ hide_config (config_of o)
  config_of-image none = refl
  config_of-image (some r) = refl

  pub get_public_config-hide :
      (configs : List PublicConfigRow)
      → get_public_config (map hide_row configs) ≡ hide_config (get_public_config configs)
  unfolding get_public_config
  get_public_config-hide configs =
      ap config_of
        (find-image hide_row (λ r. r.id == "default") (λ r. r.id == "default") (λ r. refl) configs)
      ∙ config_of-image (find (λ r. r.id == "default") configs)

  status_of_agent-image :
      (o : Option AgentRow) (now : ℕ)
      → status_of_agent (image d.agent o) now ≡ status_of_agent o now
  status_of_agent-image none now = refl
  status_of_agent-image (some a) now =
      let e = d.agent_status a in let f = d.agent_seen a in rw (e, f) refl

  pub agent_status-hide :
      (db : Site) (ref_id : String) (now : ℕ)
      → agent_status (hide db) (d.id_of ref_id) now ≡ agent_status db ref_id now
  unfolding agent_status
  agent_status-hide db ref_id now =
      ap (λ o. status_of_agent o now)
        (find-image d.agent (λ a. a.id == ref_id) (λ a. a.id == d.id_of ref_id)
          (λ a. ap (λ i. i == d.id_of ref_id) (d.agent_id a) ∙ d.same_id a.id ref_id) db.agents)
      ∙ status_of_agent-image (agent_by db.agents ref_id) now

  -- What a disguised item stands for.
  abbrev pub hide_resolved : Resolved → Resolved
  hide_resolved r = record {
    status = r.status;
    source_id = image d.id_of r.source_id;
    entity = image d.name_of r.entity;
  }

  status_of_state-image :
      (o : Option UnitStateRow) → status_of_state (image hide_state o) ≡ status_of_state o
  status_of_state-image none = refl
  status_of_state-image (some s) = refl

  is_state_of-hide :
      (source_id entity : String) (s : UnitStateRow)
      → is_state_of (d.id_of source_id) (d.name_of entity) (hide_state s)
        ≡ is_state_of source_id entity s
  is_state_of-hide source_id entity s =
      let e = d.same_id s.source_id source_id in
      let f = d.same_name s.entity entity in rw (e, f) refl

  resolved_monitor-image :
      (db : Site) (o : Option MonitorRow)
      → resolved_monitor (hide db) (image d.monitor o) ≡ hide_resolved (resolved_monitor db o)
  resolved_monitor-image db none = refl
  resolved_monitor-image db (some m) =
      let on = d.monitor_enabled m in
      let source = d.monitor_agent m in
      let named = d.monitor_name m in
      let state =
        ap status_of_state (
          find-image hide_state (is_state_of m.agent_id m.name)
            (is_state_of (d.id_of m.agent_id) (d.name_of m.name))
            (is_state_of-hide m.agent_id m.name) db.states)
        ∙ status_of_state-image (find (is_state_of m.agent_id m.name) db.states) in
      elim (Bool-cases m.enabled) [
        | inl h ↦ rw (on, source, named, h, state) refl
        | inr h ↦ rw (on, h) refl
      ]

  pub monitor_status-hide :
      (db : Site) (ref_id : String)
      → monitor_status (hide db) (d.id_of ref_id) ≡ hide_resolved (monitor_status db ref_id)
  unfolding monitor_status
  monitor_status-hide db ref_id =
      ap (resolved_monitor (hide db)) (
        find-image d.monitor (λ m. m.id == ref_id) (λ m. m.id == d.id_of ref_id)
          (λ m. ap (λ i. i == d.id_of ref_id) (d.monitor_id m) ∙ d.same_id m.id ref_id) db.monitors)
      ∙ resolved_monitor-image db (monitor_by db.monitors ref_id)

  is_bucket_for-hide :
      (source_id : String) (entity : Option String) (b : UptimeBucketRow)
      → is_bucket_for (d.id_of source_id) (image d.name_of entity) (hide_bucket b)
        ≡ is_bucket_for source_id entity b
  is_bucket_for-hide source_id none b = d.same_id b.source_id source_id
  is_bucket_for-hide source_id (some entity) b =
      let e = d.same_id b.source_id source_id in
      let f = d.same_name b.entity entity in let g = d.blank_name entity in rw (e, f, g) refl

  sum_from-hide :
      (rows : List UptimeBucketRow) (acc : UptimeBucket)
      → sum_from acc (map hide_bucket rows) ≡ sum_from acc rows
  unfolding sum_from
  sum_from-hide [] acc = refl
  sum_from-hide (r ∷ rows) acc = sum_from-hide rows (add_bucket acc r)

  add_day-hide :
      (r : UptimeBucketRow) (days : List (ℕ × UptimeBucket))
      → add_day (hide_bucket r) days ≡ add_day r days
  unfolding add_day
  add_day-hide r [] = refl
  add_day-hide r ((day, acc) ∷ days) = let ih = add_day-hide r days in rw ih refl

  by_day-hide :
      (rows : List UptimeBucketRow) (days : List (ℕ × UptimeBucket))
      → by_day (map hide_bucket rows) days ≡ by_day rows days
  unfolding by_day
  by_day-hide [] days = refl
  by_day-hide (r ∷ rows) days =
      let e = add_day-hide r days in rw e (by_day-hide rows (add_day r days))

  is_empty-map : (rows : List UptimeBucketRow) → is_empty (map hide_bucket rows) ≡ is_empty rows
  is_empty-map [] = refl
  is_empty-map (r ∷ rows) = refl

  pub uptime_pct_for-hide :
      (db : Site) (source_id : String) (entity : Option String)
      → uptime_pct_for (hide db) (d.id_of source_id) (image d.name_of entity)
        ≡ uptime_pct_for db source_id entity
  unfolding uptime_pct_for
  uptime_pct_for-hide db source_id entity =
      let rows = filter (is_bucket_for source_id entity) db.buckets in
      let e =
        filter-image hide_bucket (is_bucket_for source_id entity)
          (is_bucket_for (d.id_of source_id) (image d.name_of entity))
          (is_bucket_for-hide source_id entity) db.buckets in
      let f = is_empty-map rows in let g = sum_from-hide rows empty_bucket in rw (e, f, g) refl

  pub uptime_history_for-hide :
      (db : Site) (source_id : String) (entity : Option String) (days now : ℕ)
      → uptime_history_for (hide db) (d.id_of source_id) (image d.name_of entity) days now
        ≡ uptime_history_for db source_id entity days now
  unfolding uptime_history_for
  uptime_history_for-hide db source_id entity days now =
      let first = first_day days now in
      let recent = λ (b : UptimeBucketRow). leb (first * day_ms) b.bucket_start in
      let e =
        filter-image hide_bucket (λ b. is_bucket_for source_id entity b && recent b)
          (λ b. is_bucket_for (d.id_of source_id) (image d.name_of entity) b && recent b)
          (λ b. ap (λ t. t && recent b) (is_bucket_for-hide source_id entity b)) db.buckets in
      let rows = filter (λ b. is_bucket_for source_id entity b && recent b) db.buckets in
      let f = by_day-hide rows [] in rw (e, f) refl
