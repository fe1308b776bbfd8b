-- ===== src/Shared/Backups/Order.antt =====
-- Sorting and filtering, as packages/shared/src/backup.ts does both to a list of backups.
use argus_monitor.Prelude.{
  ◌≤◌, ◌≡◌, refl, sym, ◌∙◌, arith, inl, inr, List, [], ◌∷◌, Bool, true, filter, insert_by, sort_by,
  Bool-cases, if◌then◌else◌,
}
use argus_monitor.Shared.Backups.{BackupMeta, newest_first}

-- No backup of the list is newer.
abbrev Leads : BackupMeta → List BackupMeta → Type 0
Leads b [] = Unit {0}
Leads b (c ∷ rest) = (c.created_at ≤ b.created_at) × Leads b rest

abbrev Descends : List BackupMeta → Type 0
Descends [] = Unit {0}
Descends (b ∷ rest) = Leads b rest × Descends rest

Leads-trans :
    (a b : BackupMeta) (rest : List BackupMeta)
    → b.created_at ≤ a.created_at
    → Leads b rest
    → Leads a rest
Leads-trans a b [] h l = tt
Leads-trans a b (c ∷ rest) h l = (omega arith, Leads-trans a b rest h l.1)

Leads-insert_by :
    (a b : BackupMeta) (rest : List BackupMeta)
    → b.created_at ≤ a.created_at
    → Leads a rest
    → Leads a (insert_by newest_first b rest)
unfolding insert_by
Leads-insert_by a b [] h l = (h, tt)
Leads-insert_by a b (c ∷ rest) h l = elim (Bool-cases (newest_first b c)) [
  | inl first ↦ rw first (h, l)
  | inr later ↦ rw later (l.0, Leads-insert_by a b rest h l.1)
]

insert_by-Descends :
    (b : BackupMeta) (rest : List BackupMeta)
    → Descends rest
    → Descends (insert_by newest_first b rest)
unfolding insert_by
insert_by-Descends b [] d = (tt, tt)
insert_by-Descends b (c ∷ rest) d = elim (Bool-cases (newest_first b c)) [
  | inl first ↦ rw first ((ground arith, Leads-trans b c rest (ground arith) d.0), d)
  | inr later ↦
      rw later (Leads-insert_by c b rest (ground arith) d.0, insert_by-Descends b rest d.1)
]

sort_by-Descends : (backups : List BackupMeta) → Descends (sort_by newest_first backups)
unfolding sort_by
sort_by-Descends [] = tt
sort_by-Descends (b ∷ rest) =
    insert_by-Descends b (sort_by newest_first rest) (sort_by-Descends rest)

module _ (q : BackupMeta → Bool) where
  Leads-first :
      (b : BackupMeta) (rest : List BackupMeta)
      → Leads b rest
      → insert_by newest_first b (filter q rest) ≡ b ∷ filter q rest
  unfolding insert_by
  Leads-first b [] l = refl
  Leads-first b (c ∷ rest) l = elim (Bool-cases (q c)) [
    | inl hit ↦ let first : newest_first b c ≡ true = ground arith in rw (hit, first) refl
    | inr miss ↦ rw miss (Leads-first b rest l.1)
  ]

  filter-insert_by :
      (b : BackupMeta) (rest : List BackupMeta)
      → Descends rest
      → filter q (insert_by newest_first b rest)
        ≡ (if q b then insert_by newest_first b (filter q rest) else filter q rest)
  unfolding insert_by
  filter-insert_by b [] d = elim (Bool-cases (q b)) [ inl h ↦ rw h refl | inr h ↦ rw h refl ]
  filter-insert_by b (c ∷ rest) d =
      let ih = filter-insert_by b rest d.1 in
      elim (Bool-cases (newest_first b c)) [
        | inl first ↦ elim (Bool-cases (q b)) [
          | inl h ↦
              let leads : Leads b (c ∷ rest) =
                (ground arith, Leads-trans b c rest (ground arith) d.0) in
              rw (first, h) (sym (Leads-first b (c ∷ rest) leads))
          | inr h ↦ rw (first, h) refl
        ]
        | inr later ↦ elim (Bool-cases (q c)) [
          | inr miss ↦ rw (later, miss) ih
          | inl hit ↦ elim (Bool-cases (q b)) [
            | inl h ↦ let e = (rw h at ih) in rw (later, hit, h, insert_by, later, e) refl
            | inr h ↦ let e = (rw h at ih) in rw (later, hit, h, e) refl
          ]
        ]
      ]

  pub filter-sort_by :
      (backups : List BackupMeta)
      → filter q (sort_by newest_first backups) ≡ sort_by newest_first (filter q backups)
  unfolding sort_by
  filter-sort_by [] = refl
  filter-sort_by (b ∷ rest) =
      let ih = filter-sort_by rest in
      filter-insert_by b (sort_by newest_first rest) (sort_by-Descends rest)
      ∙ elim (Bool-cases (q b)) [ inl h ↦ rw (h, ih) refl | inr h ↦ rw h ih ]
