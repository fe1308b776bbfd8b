-- ===== src/Core/Ticker/Order.antt =====
-- The active messages come highest priority first, and otherwise in the order of the input.
use argus_monitor.Prelude.{
  ℕ, ◌≤◌, ◌≡◌, ◌↔◌, inl, inr, refl, arith, Option, some, List, [], ◌∷◌, true, false, filter,
  Bool-cases,
}
use argus_monitor.Prelude.Int.{ℤ, int_eq, int_leb, int_leb_trans, int_leb_total}
use argus_monitor.Core.Ticker.{
  Instant, TickerWindow, is_ticker_active, insert_by_priority, sort_by_priority, active_tickers,
}

-- `now` is not before a start that can be read, and not after an end that can be read.
abbrev pub NotBefore : ℕ → Option Instant → Type 0
NotBefore now (some (some start)) = start ≤ now
NotBefore now _ = Unit {0}

abbrev pub NotAfter : ℕ → Option Instant → Type 0
NotAfter now (some (some finish)) = now ≤ finish
NotAfter now _ = Unit {0}

-- A message shows exactly when it is enabled and the instant lies in its window, bounds included; a
-- bound that is null or that cannot be read does not exclude any instant.
pub is_ticker_active_iff :
    (w : TickerWindow) (now : ℕ)
    → (is_ticker_active w now ≡ true)
      ↔ ((w.enabled ≡ true) × NotBefore now w.starts_at × NotAfter now w.ends_at)
unfolding is_ticker_active
is_ticker_active_iff w now = ground arith

same_priority : (a b p : ℤ) → int_leb a b ≡ false → int_eq a p ≡ true → int_eq b p ≡ true → ⊥
same_priority a b p h k l = ground arith

module _ {T : Type 0} (window : T → TickerWindow) where
  -- Every element has at least the priority of the next.
  abbrev pub LeadsAll : T → List T → Type 0
  LeadsAll x [] = Unit {0}
  LeadsAll x (y ∷ ys) = (int_leb (window y).priority (window x).priority ≡ true) × LeadsAll x ys

  abbrev pub Descends : List T → Type 0
  Descends [] = Unit {0}
  Descends (x ∷ xs) = LeadsAll x xs × Descends xs

  -- The elements of one priority, in order.
  abbrev pub of_priority : ℤ → List T → List T
  of_priority p = filter (λ t. int_eq (window t).priority p)

  LeadsAll-trans :
      (x y : T) (ys : List T)
      → int_leb (window y).priority (window x).priority ≡ true
      → LeadsAll y ys
      → LeadsAll x ys
  LeadsAll-trans x y [] h k = tt
  LeadsAll-trans x y (z ∷ zs) h (e, k) = (
    int_leb_trans (window z).priority (window y).priority (window x).priority e h,
    LeadsAll-trans x y zs h k,
  )

  LeadsAll-insert :
      (y x : T) (ys : List T)
      → int_leb (window x).priority (window y).priority ≡ true
      → LeadsAll y ys
      → LeadsAll y (insert_by_priority window x ys)
  unfolding insert_by_priority
  LeadsAll-insert y x [] h k = (h, tt)
  LeadsAll-insert y x (z ∷ zs) h (e, k) =
      elim (Bool-cases (int_leb (window z).priority (window x).priority)) [
        | inl first ↦ rw first (h, (e, k))
        | inr later ↦ rw later (e, LeadsAll-insert y x zs h k)
      ]

  insert-Descends : (x : T) (ys : List T) → Descends ys → Descends (insert_by_priority window x ys)
  unfolding insert_by_priority
  insert-Descends x [] d = (tt, tt)
  insert-Descends x (y ∷ ys) (l, d) =
      elim (Bool-cases (int_leb (window y).priority (window x).priority)) [
        | inl first ↦ rw first ((first, LeadsAll-trans x y ys first l), (l, d))
        | inr later ↦ rw later (
          LeadsAll-insert y x ys (int_leb_total (window y).priority (window x).priority later) l,
          insert-Descends x ys d,
        )
      ]

  sort-Descends : (xs : List T) → Descends (sort_by_priority window xs)
  unfolding sort_by_priority
  sort-Descends [] = tt
  sort-Descends (x ∷ xs) = insert-Descends x (sort_by_priority window xs) (sort-Descends xs)

  insert-of_priority :
      (p : ℤ) (x : T) (ys : List T)
      → of_priority p (insert_by_priority window x ys) ≡ of_priority p (x ∷ ys)
  unfolding insert_by_priority
  insert-of_priority p x [] = refl
  insert-of_priority p x (y ∷ ys) =
      elim (Bool-cases (int_leb (window y).priority (window x).priority)) [
        | inl first ↦ rw first
        | inr later ↦ rw later (
            ground (
              arith,
              insert-of_priority p x ys,
              same_priority (window y).priority (window x).priority p,
            ))
      ]

  sort-of_priority :
      (p : ℤ) (xs : List T) → of_priority p (sort_by_priority window xs) ≡ of_priority p xs
  unfolding sort_by_priority
  sort-of_priority p [] = refl
  sort-of_priority p (x ∷ xs) =
      rw (insert-of_priority p x (sort_by_priority window xs), sort-of_priority p xs)

  -- The result lists the active messages, and no others, by descending priority; those of one
  -- priority stand in the order, and as often, as in the input.
  pub active_tickers-Descends :
      (list : List T) (now : ℕ) (p : ℤ)
      → Descends (active_tickers window list now)
        × (of_priority p (active_tickers window list now)
            ≡ of_priority p (filter (λ t. is_ticker_active (window t) now) list))
  unfolding active_tickers
  active_tickers-Descends list now p = (
    sort-Descends (filter (λ t. is_ticker_active (window t) now) list),
    sort-of_priority p (filter (λ t. is_ticker_active (window t) now) list),
  )
