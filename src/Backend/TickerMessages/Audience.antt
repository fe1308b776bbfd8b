-- ===== src/Backend/TickerMessages/Audience.antt =====
-- Which messages a viewer is shown.
use argus_monitor.Prelude.{
  ℕ, ◌≡◌, ◌↔◌, ◌⊎◌, inl, inr, refl, sym, subst, arith, String, none, some, List, [], ◌∷◌, map, Bool,
  true, ◌||◌, any, filter, In, here, there, In-filter, filter_In, In-map, map_In, includes,
  includes_iff, any_In, In-any, is_empty, Bool-cases,
}
use argus_monitor.Prelude.Int.{int_leb}
use argus_monitor.Core.Ticker.{
  TickerWindow, is_ticker_active, insert_by_priority, sort_by_priority, active_tickers,
}
use argus_monitor.Core.Ticker.Order.{NotBefore, NotAfter, is_ticker_active_iff}
use argus_monitor.Backend.TickerMessages.{
  TickerRow, TickerMessage, TickerViewer, user, device, everyone, Tickers, to_dto, matches_viewer,
  instant_of, window_of, list_active_ticker,
}

module _ {T : Type 0} (window : T → TickerWindow) where
  In-insert : {t : T} (x : T) (ys : List T) → In t (x ∷ ys) → In t (insert_by_priority window x ys)
  unfolding insert_by_priority
  In-insert x [] m = m
  In-insert {t} x (y ∷ ys) m = elim (Bool-cases (int_leb (window y).priority (window x).priority)) [
    | inl first ↦ rw first m
    | inr later ↦ rw later (place m (In-insert x ys))
  ]
    where
      place :
          In t (x ∷ y ∷ ys)
          → (In t (x ∷ ys) → In t (insert_by_priority window x ys))
          → In t (y ∷ insert_by_priority window x ys)
      place (here e) ih = there (ih (here e))
      place (there (here e)) ih = here e
      place (there (there n)) ih = there (ih (there n))

  insert_In : {t : T} (x : T) (ys : List T) → In t (insert_by_priority window x ys) → In t (x ∷ ys)
  unfolding insert_by_priority
  insert_In x [] m = m
  insert_In {t} x (y ∷ ys) m = elim (Bool-cases (int_leb (window y).priority (window x).priority)) [
    | inl first ↦ (rw first at m)
    | inr later ↦ place (rw later at m) (insert_In x ys)
  ]
    where
      behind : In t (x ∷ ys) → In t (x ∷ y ∷ ys)
      behind (here e) = here e
      behind (there k) = there (there k)

      place :
          In t (y ∷ insert_by_priority window x ys)
          → (In t (insert_by_priority window x ys) → In t (x ∷ ys))
          → In t (x ∷ y ∷ ys)
      place (here e) ih = there (here e)
      place (there n) ih = behind (ih n)

  sort_iff : {t : T} (xs : List T) → In t (sort_by_priority window xs) ↔ In t xs
  unfolding sort_by_priority
  sort_iff [] = (λ m. m, λ m. m)
  sort_iff {t} (x ∷ xs) = (
    λ m. kept (insert_In x (sort_by_priority window xs) m) (sort_iff xs).0,
    λ m. In-insert x (sort_by_priority window xs) (lift m (sort_iff xs).1),
  )
    where
      kept :
          In t (x ∷ sort_by_priority window xs)
          → (In t (sort_by_priority window xs) → In t xs)
          → In t (x ∷ xs)
      kept (here e) ih = here e
      kept (there n) ih = there (ih n)

      lift :
          In t (x ∷ xs)
          → (In t xs → In t (sort_by_priority window xs))
          → In t (x ∷ sort_by_priority window xs)
      lift (here e) ih = here e
      lift (there n) ih = there (ih n)

-- A message without targets of the viewer's kind, or one that targets a group of the viewer.
abbrev pub Targets : TickerMessage → TickerViewer → Type 0
Targets t (user groups) =
    (t.user_group_ids ≡ []) ⊎ ((g : String) × In g t.user_group_ids × In g groups)
Targets t (device none) = t.device_group_ids ≡ []
Targets t (device (some g)) = (t.device_group_ids ≡ []) ⊎ In g t.device_group_ids
Targets t everyone = Unit {0}

is_empty_iff {ℓ} : {A : Type ℓ} (xs : List A) → (is_empty xs ≡ true) ↔ (xs ≡ [])
is_empty_iff xs = ground arith

-- Either of two tests.
or_iff : (a b : Bool) → ((a || b) ≡ true) ↔ ((a ≡ true) ⊎ (b ≡ true))
or_iff a b = ground arith

matches_viewer-Targets :
    (t : TickerMessage) (viewer : TickerViewer) → matches_viewer t viewer ≡ true → Targets t viewer
unfolding matches_viewer
matches_viewer-Targets t everyone h = tt
matches_viewer-Targets t (device none) h = (is_empty_iff t.device_group_ids).0 (ground arith)
matches_viewer-Targets t (device (some g)) h =
    elim ((or_iff (is_empty t.device_group_ids) (includes t.device_group_ids g)).0 h) [
      | inl none_set ↦ inl ((is_empty_iff t.device_group_ids).0 none_set)
      | inr listed ↦ inr ((includes_iff t.device_group_ids g).0 listed)
    ]
matches_viewer-Targets t (user groups) h =
    elim ((or_iff (is_empty t.user_group_ids) (any (λ g. includes groups g) t.user_group_ids)).0
      h) [
        | inl none_set ↦ inl ((is_empty_iff t.user_group_ids).0 none_set)
        | inr listed ↦
            let (g, m, e) = any_In (λ g. includes groups g) t.user_group_ids listed in
            inr (g, m, (includes_iff groups g).0 e)
      ]

Targets-matches_viewer :
    (t : TickerMessage) (viewer : TickerViewer) → Targets t viewer → matches_viewer t viewer ≡ true
unfolding matches_viewer
Targets-matches_viewer t everyone h = refl
Targets-matches_viewer t (device none) h =
    let e = (is_empty_iff t.device_group_ids).1 h in ground arith
Targets-matches_viewer t (device (some g)) h =
    (or_iff (is_empty t.device_group_ids) (includes t.device_group_ids g)).1 (elim h [
      | inl none_set ↦ inl ((is_empty_iff t.device_group_ids).1 none_set)
      | inr listed ↦ inr ((includes_iff t.device_group_ids g).1 listed)
    ])
Targets-matches_viewer t (user groups) h =
    (or_iff (is_empty t.user_group_ids) (any (λ g. includes groups g) t.user_group_ids)).1 (elim h [
      | inl none_set ↦ inl ((is_empty_iff t.user_group_ids).1 none_set)
      | inr (g, m, n) ↦ inr (In-any (λ g. includes groups g) m ((includes_iff groups g).1 n))
    ])

-- A message that a viewer is shown at an instant: it stands for a row that is enabled, the instant
-- lies in its window, and it targets the viewer.
pub record IsShown (db : Tickers) (now : ℕ) (viewer : TickerViewer) (t : TickerMessage)
    : Type 0 where
  pub row : TickerRow
  pub stored : In row db
  pub row_enabled : row.enabled ≡ true
  pub dto : t ≡ to_dto row
  pub not_before : NotBefore now (instant_of t.starts_at)
  pub not_after : NotAfter now (instant_of t.ends_at)
  pub targets : Targets t viewer

enabled_of : (r : TickerRow) → r.enabled ≡ true → (to_dto r).enabled ≡ true
unfolding to_dto
enabled_of r h = h

-- A viewer is shown exactly the messages that are stored and enabled, whose window holds the instant,
-- and whose audience the viewer belongs to.
pub list_active_ticker_iff :
    (db : Tickers) (now : ℕ) (viewer : TickerViewer) (t : TickerMessage)
    → In t (list_active_ticker db now viewer) ↔ IsShown db now viewer t
unfolding list_active_ticker active_tickers
list_active_ticker_iff db now viewer t = (sound, complete)
  where
    rows : List TickerRow
    rows = filter (λ r. r.enabled) db

    candidates : List TickerMessage
    candidates = filter (λ t. matches_viewer t viewer) (map to_dto rows)

    sound : In t (list_active_ticker db now viewer) → IsShown db now viewer t
    sound m =
        let (n, active) =
          filter_In (λ t. is_ticker_active (window_of t) now) candidates
            ((sort_iff window_of (filter (λ t. is_ticker_active (window_of t) now) candidates)).0
              m) in
        let (k, matched) = filter_In (λ t. matches_viewer t viewer) (map to_dto rows) n in
        let (row, i, e) = map_In to_dto rows k in
        let (stored, on) = filter_In (λ (r : TickerRow). r.enabled) db i in
        let (_, before', after') = (is_ticker_active_iff (window_of t) now).0 active in
        record {
          row = row;
          stored = stored;
          row_enabled = on;
          dto = e;
          not_before = before';
          not_after = after';
          targets = matches_viewer-Targets t viewer matched;
        }

    complete : IsShown db now viewer t → In t (list_active_ticker db now viewer)
    complete s =
        let shown : t.enabled ≡ true =
          subst (λ (u : TickerMessage). u.enabled ≡ true) (sym s.dto)
            (enabled_of s.row s.row_enabled) in
        let listed : In t (map to_dto rows) =
          subst (λ u. In u (map to_dto rows)) (sym s.dto)
            (In-map to_dto (In-filter (λ (r : TickerRow). r.enabled) s.stored s.row_enabled)) in
        (sort_iff window_of (filter (λ t. is_ticker_active (window_of t) now) candidates)).1 (
          In-filter (λ t. is_ticker_active (window_of t) now)
            (In-filter (λ t. matches_viewer t viewer) listed
              (Targets-matches_viewer t viewer s.targets))
            ((is_ticker_active_iff (window_of t) now).1 (shown, s.not_before, s.not_after)))
