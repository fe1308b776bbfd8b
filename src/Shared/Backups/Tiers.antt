-- ===== src/Shared/Backups/Tiers.antt =====
-- What a scope keeps, packages/shared/src/backup.ts, is kept again when only what is kept is left.
use mathlib.Core.List.{append-nil, append_assoc}
use argus_monitor.Prelude.{
  ℕ, zero, suc, ◌≡◌, refl, sym, ap, ◌∙◌, inl, inr, String, List, [], ◌∷◌, ◌++◌, map, Bool, true,
  any, filter, includes, nat_eq, In, here, there, In-append_left, In-append_right, Bool-cases,
  if◌then◌else◌,
}
use argus_monitor.Prelude.Int.{ℤ, pos_part}
use argus_monitor.Shared.Backups.{
  BackupScope, BackupMeta, BackupRetention, take, newest_from, protect_buckets, keep_latest,
  keep_scope, day_key, week_key, month_key,
}

-- Every name of a list is to be kept.
abbrev pub Covers : List String → List String → Type 0
Covers keep names = (n : String) → In n names → includes keep n ≡ true

-- The entries that a list of backups, the newest first, adds to those that are there.
unfoldable news : (ℕ → ℕ) → List (ℕ × String) → List BackupMeta → List (ℕ × String)
news key_of seen [] = []
news key_of seen (b ∷ sorted) =
    let k = key_of b.created_at in
    let old = news key_of seen sorted in
    let fresh = news key_of (seen ++ (k, b.name) ∷ []) sorted in
    if any (λ (p : ℕ × String). nat_eq p.0 k) seen then old else (k, b.name) ∷ fresh

newest_from-news :
    (key_of : ℕ → ℕ) (seen : List (ℕ × String)) (sorted : List BackupMeta)
    → newest_from key_of seen sorted ≡ seen ++ news key_of seen sorted
unfolding newest_from news
newest_from-news key_of seen [] = sym (append-nil seen)
newest_from-news key_of seen (b ∷ sorted) =
    let k = key_of b.created_at in
    elim (Bool-cases (any (λ (p : ℕ × String). nat_eq p.0 k) seen)) [
      | inl old ↦ rw old (newest_from-news key_of seen sorted)
      | inr fresh ↦ rw fresh (
          newest_from-news key_of (seen ++ (k, b.name) ∷ []) sorted
          ∙ append_assoc seen ((k, b.name) ∷ []) (news key_of (seen ++ (k, b.name) ∷ []) sorted))
    ]

abbrev pub is_kept : List String → BackupMeta → Bool
is_kept keep b = includes keep b.name

abbrev names_of : List (ℕ × String) → List String
names_of entries = map (λ (p : ℕ × String). p.1) entries

take-news :
    (keep : List String) (key_of : ℕ → ℕ) (n : ℕ) (seen : List (ℕ × String))
    (sorted : List BackupMeta)
    → Covers keep (names_of (take n (news key_of seen sorted)))
    → take n (news key_of seen (filter (is_kept keep) sorted)) ≡ take n (news key_of seen sorted)
unfolding news
take-news keep key_of zero seen sorted c = refl
take-news keep key_of (suc n) seen [] c = refl
take-news keep key_of (suc n) seen (b ∷ sorted) c =
    let k = key_of b.created_at in
    elim (Bool-cases (any (λ (p : ℕ × String). nat_eq p.0 k) seen)) [
      | inl old ↦
          let ih = take-news keep key_of (suc n) seen sorted (rw old at c) in
          elim (Bool-cases (is_kept keep b)) [ inl h ↦ rw (h, old) ih | inr h ↦ rw (h, old) ih ]
      | inr fresh ↦
          let c' = (rw fresh at c) in
          let h = c' b.name (here refl) in
          let ih =
            take-news keep key_of n (seen ++ (k, b.name) ∷ []) sorted (λ m i. c' m (there i)) in
          rw (h, fresh, ih) refl
    ]

take-is_kept :
    (keep : List String) (n : ℕ) (sorted : List BackupMeta)
    → Covers keep (map (λ (b : BackupMeta). b.name) (take n sorted))
    → take n (filter (is_kept keep) sorted) ≡ take n sorted
take-is_kept keep zero sorted c = refl
take-is_kept keep (suc n) [] c = refl
take-is_kept keep (suc n) (b ∷ sorted) c =
    let h = c b.name (here refl) in
    let ih = take-is_kept keep n sorted (λ m i. c m (there i)) in rw (h, ih) refl

protect_buckets-is_kept :
    (keep names : List String) (sorted : List BackupMeta) (count : ℤ) (key_of : ℕ → ℕ)
    → Covers keep (protect_buckets sorted count key_of names)
    → protect_buckets (filter (is_kept keep) sorted) count key_of names
      ≡ protect_buckets sorted count key_of names
unfolding protect_buckets
protect_buckets-is_kept keep names sorted count key_of c =
    let e = newest_from-news key_of [] sorted in
    let f = newest_from-news key_of [] (filter (is_kept keep) sorted) in
    let g =
      take-news keep key_of (pos_part count) [] sorted
        (λ m i. c m (In-append_right names (rw e i))) in
    rw (e, f, g) refl

protect_buckets-In :
    {n : String} (names : List String) (sorted : List BackupMeta) (count : ℤ) (key_of : ℕ → ℕ)
    → In n names
    → In n (protect_buckets sorted count key_of names)
unfolding protect_buckets
protect_buckets-In names sorted count key_of m =
    In-append_left (names_of (take (pos_part count) (newest_from key_of [] sorted))) m

abbrev pub latest_of : List BackupMeta → BackupRetention → BackupScope → List String
latest_of sorted policy scope =
    map (λ (b : BackupMeta). b.name) (take (pos_part (keep_latest policy scope)) sorted)

pub keep_scope-is_kept :
    (keep names : List String) (sorted : List BackupMeta) (policy : BackupRetention)
    (scope : BackupScope)
    → Covers keep (keep_scope sorted policy names scope)
    → keep_scope (filter (is_kept keep) sorted) policy names scope
      ≡ keep_scope sorted policy names scope
unfolding keep_scope
keep_scope-is_kept keep names sorted policy scope c =
    let after = filter (is_kept keep) sorted in
    let latest = names ++ latest_of sorted policy scope in
    let days = protect_buckets sorted policy.daily day_key latest in
    let weeks = protect_buckets sorted policy.weekly week_key days in
    let c3 : Covers keep weeks =
      λ n m. c n (protect_buckets-In weeks sorted policy.monthly month_key m) in
    let c2 : Covers keep days =
      λ n m. c3 n (protect_buckets-In days sorted policy.weekly week_key m) in
    let c1 : Covers keep latest =
      λ n m. c2 n (protect_buckets-In latest sorted policy.daily day_key m) in
    ap
      (λ (l : List BackupMeta). protect_buckets after policy.monthly month_key (
        protect_buckets after policy.weekly week_key (
          protect_buckets after policy.daily day_key
            (names ++ map (λ (b : BackupMeta). b.name) l))))
      (take-is_kept keep (pos_part (keep_latest policy scope)) sorted
        (λ n m. c1 n (In-append_right names m)))
    ∙ ap
        (λ l.
          protect_buckets after policy.monthly month_key
            (protect_buckets after policy.weekly week_key l))
        (protect_buckets-is_kept keep latest sorted policy.daily day_key c2)
    ∙ ap (protect_buckets after policy.monthly month_key)
        (protect_buckets-is_kept keep days sorted policy.weekly week_key c3)
    ∙ protect_buckets-is_kept keep weeks sorted policy.monthly month_key c

-- What was to be kept stays so, and the newest of the scope are to be kept.
pub keep_scope-In :
    {n : String} (names : List String) (sorted : List BackupMeta) (policy : BackupRetention)
    (scope : BackupScope)
    → In n (names ++ latest_of sorted policy scope)
    → In n (keep_scope sorted policy names scope)
unfolding keep_scope
keep_scope-In names sorted policy scope m =
    let latest = names ++ latest_of sorted policy scope in
    let days = protect_buckets sorted policy.daily day_key latest in
    let weeks = protect_buckets sorted policy.weekly week_key days in
    protect_buckets-In weeks sorted policy.monthly month_key (
      protect_buckets-In days sorted policy.weekly week_key
        (protect_buckets-In latest sorted policy.daily day_key m))
