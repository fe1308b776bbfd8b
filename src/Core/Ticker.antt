-- ===== src/Core/Ticker.antt =====
-- Ticker scheduling, packages/core/src/ticker.ts.
pub mod Order
use argus_monitor.Prelude.{
  ℕ, Option, none, some, List, [], ◌∷◌, Bool, true, false, not, filter, ltb, if◌then◌else◌,
}
use argus_monitor.Prelude.Int.{ℤ, int_leb}

-- What `Date.parse` makes of a timestamp: milliseconds since the epoch, or `none` for NaN.
abbrev pub Instant : Type 0
Instant = Option ℕ

-- A null bound is `none`.
pub record TickerWindow : Type 0 where
  pub enabled : Bool
  pub starts_at : Option Instant
  pub ends_at : Option Instant
  pub priority : ℤ

-- `nowMs < Date.parse(w.startsAt)`; a comparison with NaN is false.
abbrev pub is_before : ℕ → Option Instant → Bool
is_before now none = false
is_before now (some none) = false
is_before now (some (some start)) = ltb now start

-- `nowMs > Date.parse(w.endsAt)`.
abbrev pub is_after : ℕ → Option Instant → Bool
is_after now none = false
is_after now (some none) = false
is_after now (some (some finish)) = ltb finish now

unfoldable pub is_ticker_active : TickerWindow → ℕ → Bool
is_ticker_active w now =
    if not w.enabled
    then false
    else if is_before now w.starts_at
    then false
    else if is_after now w.ends_at
    then false
    else true

module _ {T : Type 0} (window : T → TickerWindow) where
  -- The sort by `b.priority - a.priority`, which the language makes stable: an element is put before
  -- the first one, of those that came after it, that has no higher priority.
  unfoldable pub insert_by_priority : T → List T → List T
  insert_by_priority x [] = x ∷ []
  insert_by_priority x (y ∷ ys) =
      if int_leb (window y).priority (window x).priority
      then x ∷ y ∷ ys
      else y ∷ insert_by_priority x ys

  unfoldable pub sort_by_priority : List T → List T
  unfolding insert_by_priority
  sort_by_priority [] = []
  sort_by_priority (x ∷ xs) = insert_by_priority x (sort_by_priority xs)

  unfoldable pub active_tickers : List T → ℕ → List T
  unfolding sort_by_priority is_ticker_active
  active_tickers list now = sort_by_priority (filter (λ t. is_ticker_active (window t) now) list)
