-- ===== src/Backend/PublicStatus/Sections.antt =====
-- The sections of the public page, apps/backend/src/services/public-status.ts: the loop of
-- buildPublicStatus.
use argus_monitor.Prelude.{
  ℕ, ◌≡◌, refl, sym, ap, ◌∙◌, subst, arith, inl, inr, some, List, [], ◌∷◌, ◌++◌, map, Bool, true,
  false, not, ◌&&◌, ◌||◌, any, filter, Bool-cases, same_text, same_text_iff, if◌then◌else◌,
}
use mathlib.Core.List.{append-nil, append_assoc}
use argus_monitor.Core.Rollup.{MonitoredUnit, rollup}
use argus_monitor.Backend.PublicStatus.{PublicItemConfig, PublicConfig, Site, get_public_config}
use argus_monitor.Backend.PublicStatus.Page.{
  PublicStatus, PublicStatusItem, PublicStatusGroup, resolve_item, Sections, put_item, group_name,
  unit_of, gather, group_of, page_of, build_public_status,
}

same_text_comm : (a b : List ℕ) → same_text a b ≡ same_text b a
unfolding same_text
same_text_comm [] [] = refl
same_text_comm [] (c ∷ b) = refl
same_text_comm (c ∷ a) [] = refl
same_text_comm (c ∷ a) (e ∷ b) = ground (arith, same_text_comm a b)

-- A name that is new goes to the end.
unfoldable pub add_name : List (List ℕ) → List ℕ → List (List ℕ)
add_name [] name = name ∷ []
add_name (k ∷ keys) name =
    let rest = add_name keys name in if same_text k name then k ∷ keys else k ∷ rest

unfoldable pub distinct : List (List ℕ) → Bool
distinct [] = true
distinct (k ∷ keys) = not (any (λ x. same_text x k) keys) && distinct keys

any-add_name :
    (keys : List (List ℕ)) (name k : List ℕ)
    → any (λ x. same_text x k) (add_name keys name)
      ≡ (any (λ x. same_text x k) keys || same_text name k)
unfolding add_name
any-add_name [] name k = ground arith
any-add_name (x ∷ keys) name k =
    let ih = any-add_name keys name k in
    elim (Bool-cases (same_text x name)) [
      | inl h ↦ let e = (same_text_iff x name).0 h in rw h (ground arith)
      | inr h ↦ rw h (ground arith)
    ]

add_name-distinct :
    (keys : List (List ℕ)) (name : List ℕ)
    → distinct keys ≡ true
    → distinct (add_name keys name) ≡ true
unfolding add_name distinct
add_name-distinct [] name h = refl
add_name-distinct (k ∷ keys) name h =
    let ih = add_name-distinct keys name (ground arith) in
    let a = any-add_name keys name k in
    let c = same_text_comm k name in
    elim (Bool-cases (same_text k name)) [ inl e ↦ rw e h | inr e ↦ rw e (ground arith) ]

abbrev entries : (List ℕ → List PublicStatusItem) → List (List ℕ) → Sections
entries F [] = []
entries F (k ∷ keys) = (k, F k) ∷ entries F keys

module _ (F G : List ℕ → List PublicStatusItem) (name : List ℕ) (item : PublicStatusItem)
    (added : (k : List ℕ) → same_text k name ≡ true → G k ≡ F k ++ item ∷ [])
    (kept : (k : List ℕ) → same_text k name ≡ false → G k ≡ F k) where
  map-kept :
      (keys : List (List ℕ))
      → any (λ k. same_text k name) keys ≡ false
      → entries F keys ≡ entries G keys
  map-kept [] h = refl
  map-kept (k ∷ keys) h =
      let e = kept k (ground arith) in let ih = map-kept keys (ground arith) in rw (e, ih) refl

  put_item_lem :
      (keys : List (List ℕ))
      → distinct keys ≡ true
      → (any (λ k. same_text k name) keys ≡ false → G name ≡ item ∷ [])
      → put_item name item (entries F keys) ≡ entries G (add_name keys name)
  unfolding put_item add_name distinct
  put_item_lem [] d new = let e = new refl in rw e refl
  put_item_lem (k ∷ keys) d new = elim (Bool-cases (same_text k name)) [
    | inl h ↦
        let e = added k h in
        let same = (same_text_iff k name).0 h in
        let others =
          map-kept keys (subst (λ n. any (λ x. same_text x n) keys ≡ false) same (ground arith)) in
        rw (h, e, others) refl
    | inr h ↦
        let e = kept k h in
        let ih = put_item_lem keys (ground arith) (λ g. new (ground arith)) in rw (h, e, ih) refl
  ]

-- The names of the sections: each one where it is first used.
unfoldable pub names_from : List (List ℕ) → List PublicItemConfig → List (List ℕ)
unfolding add_name
names_from keys [] = keys
names_from keys (cfg ∷ items) = names_from (add_name keys (group_name cfg)) items

abbrev pub section_names : List PublicItemConfig → List (List ℕ)
section_names items = names_from [] items

names_from-add :
    (keys : List (List ℕ)) (items : List PublicItemConfig) (cfg : PublicItemConfig)
    → names_from keys (items ++ cfg ∷ []) ≡ add_name (names_from keys items) (group_name cfg)
unfolding names_from
names_from-add keys [] cfg = refl
names_from-add keys (i ∷ items) cfg = names_from-add (add_name keys (group_name i)) items cfg

names_from-distinct :
    (keys : List (List ℕ)) (items : List PublicItemConfig)
    → distinct keys ≡ true
    → distinct (names_from keys items) ≡ true
unfolding names_from
names_from-distinct keys [] d = d
names_from-distinct keys (cfg ∷ items) d =
    names_from-distinct (add_name keys (group_name cfg)) items
      (add_name-distinct keys (group_name cfg) d)

any-names_from :
    (name : List ℕ) (keys : List (List ℕ)) (items : List PublicItemConfig)
    → any (λ k. same_text k name) (names_from keys items) ≡ false
    → (any (λ k. same_text k name) keys ≡ false)
      × (filter (λ cfg. same_text (group_name cfg) name) items ≡ [])
unfolding names_from
any-names_from name keys [] h = (h, refl)
any-names_from name keys (cfg ∷ items) h =
    let (a, b) = any-names_from name (add_name keys (group_name cfg)) items h in
    let c = any-add_name keys (group_name cfg) name in
    let d : same_text (group_name cfg) name ≡ false = ground arith in (ground arith, rw d b)

module _ (db : Site) (config : PublicConfig) (now : ℕ) where
  -- What a section shows: the items of its name, in the order of the configuration.
  abbrev pub items_of : List PublicItemConfig → List ℕ → List PublicStatusItem
  items_of items name =
      map (λ cfg. resolve_item db config cfg now)
        (filter (λ cfg. same_text (group_name cfg) name) items)

  abbrev pub section_of : List PublicItemConfig → List ℕ → PublicStatusGroup
  section_of items name = record {
    name = name;
    status = rollup (map unit_of (items_of items name));
    items = items_of items name;
  }

  items_of-add :
      (items : List PublicItemConfig) (cfg : PublicItemConfig) (name : List ℕ)
      → items_of (items ++ cfg ∷ []) name
        ≡ items_of items name
          ++ (if same_text (group_name cfg) name then resolve_item db config cfg now ∷ [] else [])
  items_of-add [] cfg name = elim (Bool-cases (same_text (group_name cfg) name)) [
    | inl h ↦ rw h refl
    | inr h ↦ rw h refl
  ]
  items_of-add (i ∷ items) cfg name =
      let ih = items_of-add items cfg name in
      elim (Bool-cases (same_text (group_name i) name)) [
        | inl h ↦ rw (h, ih) refl
        | inr h ↦ rw h ih
      ]

  items_of-added :
      (done : List PublicItemConfig) (cfg : PublicItemConfig) (k : List ℕ)
      → same_text k (group_name cfg) ≡ true
      → items_of (done ++ cfg ∷ []) k ≡ items_of done k ++ resolve_item db config cfg now ∷ []
  items_of-added done cfg k h =
      let f = same_text_comm (group_name cfg) k ∙ h in items_of-add done cfg k ∙ (rw f refl)

  items_of-kept :
      (done : List PublicItemConfig) (cfg : PublicItemConfig) (k : List ℕ)
      → same_text k (group_name cfg) ≡ false
      → items_of (done ++ cfg ∷ []) k ≡ items_of done k
  items_of-kept done cfg k h =
      let f = same_text_comm (group_name cfg) k ∙ h in
      items_of-add done cfg k ∙ (rw f (append-nil (items_of done k)))

  items_of-new :
      (done : List PublicItemConfig) (cfg : PublicItemConfig)
      → any (λ k. same_text k (group_name cfg)) (section_names done) ≡ false
      → items_of (done ++ cfg ∷ []) (group_name cfg) ≡ resolve_item db config cfg now ∷ []
  items_of-new done cfg h =
      let (a, none_yet) = any-names_from (group_name cfg) [] done h in
      items_of-added done cfg (group_name cfg)
        ((same_text_iff (group_name cfg) (group_name cfg)).1 refl)
      ∙ (rw none_yet refl)

  step_lem :
      (done : List PublicItemConfig) (cfg : PublicItemConfig)
      → put_item
          (group_name cfg)
          (resolve_item db config cfg now)
          (entries (items_of done) (section_names done))
        ≡ entries (items_of (done ++ cfg ∷ [])) (section_names (done ++ cfg ∷ []))
  unfolding distinct
  step_lem done cfg =
      put_item_lem (items_of done) (items_of (done ++ cfg ∷ [])) (group_name cfg)
        (resolve_item db config cfg now) (items_of-added done cfg) (items_of-kept done cfg)
        (section_names done) (names_from-distinct [] done refl) (items_of-new done cfg)
      ∙ ap (entries (items_of (done ++ cfg ∷ []))) (sym (names_from-add [] done cfg))

  abbrev pub resolved : List PublicItemConfig → List PublicStatusItem
  resolved items = map (λ cfg. resolve_item db config cfg now) items

  -- The groups and the units after the items that are done.
  abbrev gathered : List PublicItemConfig → List MonitoredUnit → Sections × List MonitoredUnit
  gathered done units = (entries (items_of done) (section_names done), units)

  gather_lem :
      (done rest : List PublicItemConfig) (units : List MonitoredUnit)
      → gather db config now rest (gathered done units)
        ≡ gathered (done ++ rest) (units ++ map unit_of (resolved rest))
  unfolding gather
  gather_lem done [] units = let e = append-nil done in let f = append-nil units in rw (e, f) refl
  gather_lem done (cfg ∷ rest) units =
      let next = units ++ unit_of (resolve_item db config cfg now) ∷ [] in
      let later = map unit_of (resolved rest) in
      ap (λ groups. gather db config now rest (groups, next)) (step_lem done cfg)
      ∙ gather_lem (done ++ cfg ∷ []) rest next
      ∙ ap (λ all. gathered all (next ++ later)) (append_assoc done (cfg ∷ []) rest)
      ∙ ap (gathered (done ++ cfg ∷ rest))
          (append_assoc units (unit_of (resolve_item db config cfg now) ∷ []) later)

  group_of-entries :
      (items : List PublicItemConfig) (names : List (List ℕ))
      → map group_of (entries (items_of items) names) ≡ map (section_of items) names
  group_of-entries items [] = refl
  group_of-entries items (name ∷ names) = let ih = group_of-entries items names in rw ih refl

-- A page that is enabled has a section for each name that an item of the configuration uses, in the
-- order of first use: it shows the items of that name, in the order of the configuration, and their
-- rollup; the overall status is the rollup of all the items.
pub build_public_status-sections :
    (db : Site) (now : ℕ)
    → (get_public_config db.configs).enabled ≡ true
    → let config = get_public_config db.configs in
      (page : PublicStatus) × (build_public_status db now ≡ some page)
      × (page.groups ≡ map (section_of db config now config.items) (section_names config.items))
      × (page.overall ≡ rollup (map unit_of (resolved db config now config.items)))
unfolding build_public_status names_from
build_public_status-sections db now on =
    let config = get_public_config db.configs in
    let e = gather_lem db config now [] config.items [] in
    let state = gather db config now config.items ([], []) in
    (
      page_of config now state,
      (rw on refl),
      ap (λ (s : Sections × List MonitoredUnit). map group_of s.0) e
          ∙ group_of-entries db config now config.items (section_names config.items),
      ap (λ (s : Sections × List MonitoredUnit). rollup s.1) e,
    )
