-- ===== src/Core/Diff/Events.antt =====
-- Exactly which events a batch of samples gives.
use argus_monitor.Prelude.{
  ◌≡◌, refl, sym, ap, subst, ◌↔◌, ◌≢◌, inl, inr, arith, String, Option, none, some, List, [], ◌∷◌,
  true, not, ◌&&◌, In, here, there, In-append, In-append_left, In-append_right, flat_map,
  In-flat_map, flat_map_In, In-when, when-In,
}
use argus_monitor.Prelude.Int.{ℤ, is_positive, int_eq, int_eq_iff}
use argus_monitor.Shared.{HealthStatus, status_eq, status_eq_iff}
use argus_monitor.Core.Diff.{
  UnitSample, DerivedEvent, status_change, service_restart, Snapshot, change_events, restart_events,
  old_pid_of, sample_events, diff_states,
}

-- The previous status and the new one call for a change event that shows `shown` as the old status.
abbrev pub Changes : Option UnitSample → HealthStatus → Option HealthStatus → Type 0
Changes none new shown = shown ≡ none
Changes (some old) new shown = (shown ≡ some old.status) × (old.status ≢ new)

-- The process was replaced: both pids are known and positive, and they differ.
abbrev pub Replaced : Option ℤ → Option ℤ → ℤ → ℤ → Type 0
Replaced old new old_pid new_pid =
    (old ≡ some old_pid)
    × (new ≡ some new_pid)
    × (is_positive old_pid ≡ true)
    × (is_positive new_pid ≡ true)
    × (old_pid ≢ new_pid)

-- What a sample gives: a change of status, or a restart.
abbrev pub Gives : Snapshot → UnitSample → DerivedEvent → Type 0
Gives prev s (status_change entity shown new) =
    (entity ≡ s.entity) × (new ≡ s.status) × Changes (prev s.entity) s.status shown
Gives prev s (service_restart entity old_pid new_pid) =
    (entity ≡ s.entity) × Replaced (old_pid_of (prev s.entity)) s.pid old_pid new_pid

diff_states-flat_map :
    (prev : Snapshot) (current : List UnitSample)
    → diff_states prev current ≡ flat_map (sample_events prev) current
unfolding diff_states
diff_states-flat_map prev [] = refl
diff_states-flat_map prev (s ∷ rest) = rw (diff_states-flat_map prev rest)

change_events_sound :
    (old : Option UnitSample) (s : UnitSample) (e : DerivedEvent)
    → In e (change_events old s)
    → (shown : Option HealthStatus) × (e ≡ status_change s.entity shown s.status)
      × Changes old s.status shown
unfolding change_events
change_events_sound none s e (here p) = (none, p, refl)
change_events_sound none s e (there m) = elim m [ ]
change_events_sound (some old) s e m =
    let (differ, p) = In-when (not (status_eq old.status s.status)) m in
    (some old.status, p, (refl, λ same. ground (arith, (status_eq_iff old.status s.status).1 same)))

change_events_complete :
    (old : Option UnitSample) (s : UnitSample) (shown : Option HealthStatus)
    → Changes old s.status shown
    → In (status_change s.entity shown s.status) (change_events old s)
unfolding change_events
change_events_complete none s shown h = here (ground arith)
change_events_complete (some old) s shown (h, ne) =
    when-In (not (status_eq old.status s.status))
      (ground (arith, (status_eq_iff old.status s.status).0))
      (ap (λ t. status_change s.entity t s.status) h)

restart_events_sound :
    (entity : String) (old new : Option ℤ) (e : DerivedEvent)
    → In e (restart_events entity old new)
    → (old_pid : ℤ) × (new_pid : ℤ) × (e ≡ service_restart entity old_pid new_pid)
      × Replaced old new old_pid new_pid
unfolding restart_events
restart_events_sound entity (some a) (some b) e m =
    let (test, p) = In-when (is_positive a && is_positive b && not (int_eq a b)) m in
    (
      a,
      b,
      p,
      (refl, refl, ground arith, ground arith, λ same. ground (arith, (int_eq_iff a b).1 same)),
    )
restart_events_sound entity none _ e m = elim m [ ]
restart_events_sound entity (some a) none e m = elim m [ ]

restart_events_complete :
    (entity : String) (old new : Option ℤ) (a b : ℤ)
    → Replaced old new a b
    → In (service_restart entity a b) (restart_events entity old new)
unfolding restart_events
restart_events_complete entity old new a b (p, q, x, y, differ) =
    rw (p, q)
      (when-In (is_positive a && is_positive b && not (int_eq a b))
        (ground (arith, (int_eq_iff a b).0)) refl)

sample_events_iff :
    (prev : Snapshot) (s : UnitSample) (e : DerivedEvent)
    → In e (sample_events prev s) ↔ Gives prev s e
unfolding sample_events
sample_events_iff prev s e = (to, from e)
  where
    old : Option ℤ
    old = old_pid_of (prev s.entity)

    to : In e (sample_events prev s) → Gives prev s e
    to m = elim (In-append (change_events (prev s.entity) s) m) [
      | inl l ↦
          let (shown, p, c) = change_events_sound (prev s.entity) s e l in
          subst (Gives prev s) (sym p) (refl, refl, c)
      | inr r ↦
          let (a, b, p, c) = restart_events_sound s.entity old s.pid e r in
          subst (Gives prev s) (sym p) (refl, c)
    ]

    from : (e : DerivedEvent) → Gives prev s e → In e (sample_events prev s)
    from (status_change entity shown new) (p, q, c) =
        rw (p, q)
          (In-append_left (restart_events s.entity old s.pid)
            (change_events_complete (prev s.entity) s shown c))
    from (service_restart entity a b) (p, r) = rw p (
        In-append_right (change_events (prev s.entity) s)
          (restart_events_complete s.entity old s.pid a b r))

-- An event is derived exactly when some current sample gives it: a change of status, with the old
-- status shown as none, if the entity is new, or else as the previous one, which differs; or a
-- restart, if both samples carry positive pids that differ.
pub diff_states_iff :
    (prev : Snapshot) (current : List UnitSample) (e : DerivedEvent)
    → In e (diff_states prev current) ↔ ((s : UnitSample) × In s current × Gives prev s e)
diff_states_iff prev current e = rw diff_states-flat_map (to, from)
  where
    to :
        In e (flat_map (sample_events prev) current)
        → (s : UnitSample) × In s current × Gives prev s e
    to m =
        let (s, i, j) = flat_map_In (sample_events prev) current m in
        (s, i, (sample_events_iff prev s e).0 j)

    from :
        ((s : UnitSample) × In s current × Gives prev s e)
        → In e (flat_map (sample_events prev) current)
    from (s, i, g) = In-flat_map (sample_events prev) i ((sample_events_iff prev s e).1 g)
