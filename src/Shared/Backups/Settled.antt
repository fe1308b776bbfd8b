-- ===== src/Shared/Backups/Settled.antt =====
-- The deletion of copies of backups, packages/shared/src/backup.ts: what survives, and that there is
-- nothing more to delete.
use argus_monitor.Prelude.{
  ◌≡◌, refl, sym, ap, ◌∙◌, subst, arith, inl, inr, String, List, [], ◌∷◌, map, Bool, true, false,
  not, filter, filter_In, In-filter, includes, includes_iff, In, here, there, In-append_left,
  In-append_right, map_In, In-map, sort_by, Bool-cases,
}
use argus_monitor.Prelude.Int.{pos_part}
use argus_monitor.Shared.Backups.{
  BackupScope, scope_all, scope_config, scope_data, BackupMeta, BackupRetention, take, newest_first,
  scope_eq, keep_latest, sorted_scope, keep_scope, scopes, keep_each, backups_to_prune,
}
use argus_monitor.Shared.Backups.Order.{filter-sort_by}
use argus_monitor.Shared.Backups.Tiers.{
  Covers, is_kept, latest_of, keep_scope-is_kept, keep_scope-In,
}

filter_comm :
    (p q : BackupMeta → Bool) (backups : List BackupMeta)
    → filter p (filter q backups) ≡ filter q (filter p backups)
filter_comm p q [] = refl
filter_comm p q (b ∷ rest) =
    let ih = filter_comm p q rest in
    elim (Bool-cases (p b)) [
      | inl h ↦ elim (Bool-cases (q b)) [
        | inl k ↦ rw (h, k, h, ih) refl
        | inr k ↦ rw (h, k, ih) refl
      ]
      | inr h ↦ elim (Bool-cases (q b)) [
        | inl k ↦ rw (h, k, h, ih) refl
        | inr k ↦ rw (h, k, ih) refl
      ]
    ]

sorted_scope-filter :
    (q : BackupMeta → Bool) (backups : List BackupMeta) (scope : BackupScope)
    → sorted_scope (filter q backups) scope ≡ filter q (sorted_scope backups scope)
unfolding sorted_scope
sorted_scope-filter q backups scope =
    ap (sort_by newest_first) (filter_comm (λ b. scope_eq b.scope scope) q backups)
    ∙ sym (filter-sort_by q (filter (λ b. scope_eq b.scope scope) backups))

module _ (backups : List BackupMeta) (policy : BackupRetention) where
  keep_each-In :
      {n : String} (names : List String) (rest : List BackupScope)
      → In n names
      → In n (keep_each backups policy names rest)
  unfolding keep_each
  keep_each-In names [] m = m
  keep_each-In names (scope ∷ rest) m =
      let sorted = sorted_scope backups scope in
      keep_each-In (keep_scope sorted policy names scope) rest
        (keep_scope-In names sorted policy scope (In-append_left (latest_of sorted policy scope) m))

  keep_each-is_kept :
      (keep names : List String) (rest : List BackupScope)
      → Covers keep (keep_each backups policy names rest)
      → keep_each (filter (is_kept keep) backups) policy names rest
        ≡ keep_each backups policy names rest
  unfolding keep_each
  keep_each-is_kept keep names [] c = refl
  keep_each-is_kept keep names (scope ∷ rest) c =
      let sorted = sorted_scope backups scope in
      let next = keep_scope sorted policy names scope in
      ap
        (λ l.
          keep_each (filter (is_kept keep) backups) policy (keep_scope l policy names scope) rest)
        (sorted_scope-filter (is_kept keep) backups scope)
      ∙ ap (λ l. keep_each (filter (is_kept keep) backups) policy l rest)
          (keep_scope-is_kept keep names sorted policy scope
            (λ n m. c n (keep_each-In next rest m)))
      ∙ keep_each-is_kept keep next rest c

  -- The backups that are not deleted.
  abbrev pub survivors : List BackupMeta
  survivors = filter (λ b. not (includes (backups_to_prune backups policy) b.name)) backups

  abbrev keep_all_scopes : List String
  keep_all_scopes = keep_each backups policy [] scopes

  kept_name :
      (n : String)
      → includes keep_all_scopes n ≡ true
      → includes (backups_to_prune backups policy) n ≡ false
  unfolding backups_to_prune
  kept_name n h = elim (Bool-cases (includes (backups_to_prune backups policy) n)) [
    | inr free ↦ free
    | inl pruned ↦
        let (c, m, e) =
          map_In (λ (b : BackupMeta). b.name)
            (filter (λ b. not (is_kept keep_all_scopes b)) backups)
            ((includes_iff (backups_to_prune backups policy) n).0 pruned) in
        let (i, lost) = filter_In (λ b. not (is_kept keep_all_scopes b)) backups m in
        let k : includes keep_all_scopes c.name ≡ true =
          subst (λ t. includes keep_all_scopes t ≡ true) e h in
        absurd (ground arith)
  ]

  pruned_name :
      (b : BackupMeta)
      → In b backups
      → includes (backups_to_prune backups policy) b.name ≡ not (is_kept keep_all_scopes b)
  unfolding backups_to_prune
  pruned_name b m = elim (Bool-cases (is_kept keep_all_scopes b)) [
    | inl h ↦ let e = kept_name b.name h in rw h e
    | inr h ↦ rw h (
        (includes_iff (backups_to_prune backups policy) b.name).1 (
          In-map (λ (b : BackupMeta). b.name)
            (In-filter (λ b. not (is_kept keep_all_scopes b)) m (rw h refl))))
  ]

  none_left :
      (q : BackupMeta → Bool) (rest : List BackupMeta)
      → filter (λ b. not (q b)) (filter q rest) ≡ []
  none_left q [] = refl
  none_left q (b ∷ rest) =
      let ih = none_left q rest in
      elim (Bool-cases (q b)) [ inl h ↦ rw (h, h) ih | inr h ↦ rw h ih ]

  filter_congr :
      (p q : BackupMeta → Bool) (rest : List BackupMeta)
      → ((b : BackupMeta) → In b rest → p b ≡ q b)
      → filter p rest ≡ filter q rest
  filter_congr p q [] same = refl
  filter_congr p q (b ∷ rest) same =
      let e = same b (here refl) in
      let ih = filter_congr p q rest (λ c m. same c (there m)) in rw (e, ih) refl

  survivors-is_kept : survivors ≡ filter (is_kept keep_all_scopes) backups
  survivors-is_kept =
      filter_congr (λ b. not (includes (backups_to_prune backups policy) b.name))
        (is_kept keep_all_scopes) backups (λ b m. let e = pruned_name b m in ground arith)

  none_to_prune : backups_to_prune (filter (is_kept keep_all_scopes) backups) policy ≡ []
  unfolding backups_to_prune
  none_to_prune =
      let left = filter (is_kept keep_all_scopes) backups in
      ap (λ keep. map (λ (b : BackupMeta). b.name) (filter (λ b. not (is_kept keep b)) left))
        (keep_each-is_kept keep_all_scopes [] scopes (λ n m. (includes_iff keep_all_scopes n).1 m))
      ∙ ap (map (λ (b : BackupMeta). b.name)) (none_left (is_kept keep_all_scopes) backups)

  latest-keep_each :
      {n : String} (names : List String) (rest : List BackupScope) (scope : BackupScope)
      → In scope rest
      → In n (latest_of (sorted_scope backups scope) policy scope)
      → In n (keep_each backups policy names rest)
  unfolding keep_each
  latest-keep_each names [] scope i m = elim i [ ]
  latest-keep_each {n} names (s ∷ rest) scope (here e) m =
      keep_each-In (keep_scope (sorted_scope backups s) policy names s) rest (
        keep_scope-In names (sorted_scope backups s) policy s (
          In-append_right names
            (subst (λ s. In n (latest_of (sorted_scope backups s) policy s)) e m)))
  latest-keep_each names (s ∷ rest) scope (there i) m =
      latest-keep_each (keep_scope (sorted_scope backups s) policy names s) rest scope i m

  in_scopes : (scope : BackupScope) → In scope scopes
  in_scopes scope_all = here refl
  in_scopes scope_config = there (here refl)
  in_scopes scope_data = there (there (here refl))

  -- None of the newest copies of a scope, as many as the policy keeps, is deleted.
  pub backups_to_prune-latest :
      (scope : BackupScope) (b : BackupMeta)
      → In b (take (pos_part (keep_latest policy scope)) (sorted_scope backups scope))
      → includes (backups_to_prune backups policy) b.name ≡ false
  backups_to_prune-latest scope b m = kept_name b.name (
      (includes_iff keep_all_scopes b.name).1 (
        latest-keep_each [] scopes scope (in_scopes scope) (In-map (λ (b : BackupMeta). b.name) m)))

  -- When the copies that are to be deleted are gone, the same policy deletes no more.
  pub backups_to_prune-survivors : backups_to_prune survivors policy ≡ []
  backups_to_prune-survivors = ap (λ l. backups_to_prune l policy) survivors-is_kept ∙ none_to_prune
