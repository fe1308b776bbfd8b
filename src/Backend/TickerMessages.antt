-- ===== src/Backend/TickerMessages.antt =====
-- Ticker messages, apps/backend/src/services/ticker.ts. A timestamp of a row is the instant that
-- `new Date` reads, or `none` inside if it reads none; a speed is whole. The setting of the speed is
-- what `Number` makes of its value, or `none` for NaN. The column `recurrence` is not read or written.
pub mod Audience
use argus_monitor.Prelude.{
  ℕ, String, Option, none, some, List, [], ◌∷◌, ◌++◌, map, Bool, true, false, ◌&&◌, ◌||◌, not, ◌==◌,
  any, find, filter, update_where, includes, is_empty, is_null, if◌then◌else◌,
}
use argus_monitor.Prelude.Int.{ℤ, pos, int_leb}
use argus_monitor.Core.Ticker.{Instant, TickerWindow, active_tickers}

pub data TickerSeverity : Type 0 where
  info warning critical : TickerSeverity

pub record TickerRow : Type 0 where
  pub id : String
  pub text : String
  pub enabled : Bool
  pub severity : TickerSeverity
  pub priority : ℤ
  pub starts_at : Option Instant
  pub ends_at : Option Instant
  pub device_group_ids : Option (List String)
  pub user_group_ids : Option (List String)
  pub created_at : ℕ
  pub updated_at : ℕ

pub record TickerMessage : Type 0 where
  pub id : String
  pub text : String
  pub enabled : Bool
  pub severity : TickerSeverity
  pub priority : ℤ
  pub starts_at : Option ℕ
  pub ends_at : Option ℕ
  pub device_group_ids : List String
  pub user_group_ids : List String
  pub created_at : ℕ

-- A timestamp that cannot be read becomes null.
abbrev pub to_iso : Option Instant → Option ℕ
to_iso none = none
to_iso (some none) = none
to_iso (some (some at)) = some at

-- `value ?? fallback`.
abbrev pub or_default {ℓ} : {A : Type ℓ} → Option A → A → A
or_default none fallback = fallback
or_default (some a) fallback = a

unfoldable pub to_dto : TickerRow → TickerMessage
to_dto r = record {
  id = r.id;
  text = r.text;
  enabled = r.enabled;
  severity = r.severity;
  priority = r.priority;
  starts_at = to_iso r.starts_at;
  ends_at = to_iso r.ends_at;
  device_group_ids = or_default r.device_group_ids [];
  user_group_ids = or_default r.user_group_ids [];
  created_at = r.created_at;
}

abbrev pub Tickers : Type 0
Tickers = List TickerRow

-- The viewer: a user with its groups, a display with its group, or anyone.
pub data TickerViewer : Type 0 where
  user : List String → TickerViewer
  device : Option String → TickerViewer
  everyone : TickerViewer

abbrev pub has_group : Option String → List String → Bool
has_group none ids = false
has_group (some g) ids = includes ids g

unfoldable pub matches_viewer : TickerMessage → TickerViewer → Bool
matches_viewer t (user group_ids) =
    is_empty t.user_group_ids || any (λ g. includes group_ids g) t.user_group_ids
matches_viewer t (device group_id) =
    is_empty t.device_group_ids || has_group group_id t.device_group_ids
matches_viewer t everyone = true

unfoldable pub list_ticker : Tickers → List TickerMessage
unfolding to_dto
list_ticker db = map to_dto db

pub record CreateTickerInput : Type 0 where
  pub text : String
  pub enabled : Option Bool
  pub severity : Option TickerSeverity
  pub priority : Option ℤ
  pub starts_at : Option Instant
  pub ends_at : Option Instant
  pub device_group_ids : Option (List String)
  pub user_group_ids : Option (List String)

unfoldable pub create_ticker : Tickers → CreateTickerInput → (id : String) → ℕ → Tickers
create_ticker db input id now =
    db
    ++ record {
      id = id;
      text = input.text;
      enabled = or_default input.enabled true;
      severity = or_default input.severity info;
      priority = or_default input.priority (pos 0);
      starts_at = input.starts_at;
      ends_at = input.ends_at;
      device_group_ids = some (or_default input.device_group_ids []);
      user_group_ids = some (or_default input.user_group_ids []);
      created_at = now;
      updated_at = now;
    }
      ∷ []

-- A field that is `none` is undefined; a bound that is `some none` is null.
pub record UpdateTickerInput : Type 0 where
  pub text : Option String
  pub enabled : Option Bool
  pub severity : Option TickerSeverity
  pub priority : Option ℤ
  pub starts_at : Option (Option Instant)
  pub ends_at : Option (Option Instant)
  pub device_group_ids : Option (List String)
  pub user_group_ids : Option (List String)

abbrev pub some_or {ℓ} : {A : Type ℓ} → Option A → Option A → Option A
some_or none old = old
some_or (some new) old = some new

abbrev pub patched : UpdateTickerInput → ℕ → TickerRow → TickerRow
patched patch now r = record r {
  text = or_default patch.text r.text;
  enabled = or_default patch.enabled r.enabled;
  severity = or_default patch.severity r.severity;
  priority = or_default patch.priority r.priority;
  starts_at = or_default patch.starts_at r.starts_at;
  ends_at = or_default patch.ends_at r.ends_at;
  device_group_ids = some_or patch.device_group_ids r.device_group_ids;
  user_group_ids = some_or patch.user_group_ids r.user_group_ids;
  updated_at = now;
}

abbrev pub ticker_by : Tickers → String → Option TickerRow
ticker_by db id = find (λ r. r.id == id) db

abbrev pub opt_dto : Option TickerRow → Option TickerMessage
opt_dto none = none
opt_dto (some r) = some (to_dto r)

unfoldable pub update_ticker :
    Tickers → String → UpdateTickerInput → ℕ → Tickers × Option TickerMessage
unfolding to_dto
update_ticker db id patch now =
    let next = update_where (λ r. r.id == id) (patched patch now) db in
    (next, opt_dto (ticker_by next id))

unfoldable pub delete_ticker : Tickers → String → Tickers × Bool
delete_ticker db id = (filter (λ r. not (r.id == id)) db, not (is_null (ticker_by db id)))

-- TICKER_SPEED_MIN and TICKER_SPEED_MAX.
abbrev pub clamp_speed : ℤ → ℤ
clamp_speed n =
    let raised = if int_leb n (pos 20) then pos 20 else n in
    if int_leb raised (pos 400) then raised else pos 400

unfoldable pub get_ticker_speed : Option ℤ → ℤ
get_ticker_speed none = pos 90
get_ticker_speed (some n) = clamp_speed n

-- What is stored, and returned.
unfoldable pub set_ticker_speed : ℤ → ℤ
set_ticker_speed px = clamp_speed px

-- A bound of the contract, as the scheduling reads it.
abbrev pub instant_of : Option ℕ → Option Instant
instant_of none = none
instant_of (some at) = some (some at)

abbrev pub window_of : TickerMessage → TickerWindow
window_of t = record {
  enabled = t.enabled;
  starts_at = instant_of t.starts_at;
  ends_at = instant_of t.ends_at;
  priority = t.priority;
}

unfoldable pub list_active_ticker : Tickers → ℕ → TickerViewer → List TickerMessage
unfolding to_dto matches_viewer active_tickers
list_active_ticker db now viewer =
    let rows = map to_dto (filter (λ r. r.enabled) db) in
    active_tickers window_of (filter (λ t. matches_viewer t viewer) rows) now
