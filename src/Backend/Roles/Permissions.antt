-- ===== src/Backend/Roles/Permissions.antt =====
-- The permissions of a role are those that were set.
use argus_monitor.Prelude.{
  ◌≡◌, refl, sym, ap, ◌∙◌, arith, String, List, [], ◌∷◌, map, Bool, true, ◌&&◌, ◌||◌, not, ◌==◌,
  eq_iff, eq_refl, filter, flat_map, includes, any, any_ext, any_ext_In, any-and, any-append,
  any-sort_by, any_In, In-any, In, Bool-ext, and_left, and_right, Bool-cases, inl, inr,
  if◌then◌else◌,
}
use argus_monitor.Backend.Schema.{RolePermissionRow, PermissionRow}
use argus_monitor.Backend.Roles.{
  Admin, text_leb, has_permission_id, get_role_permission_keys, resolved_ids, set_role_permissions,
}

-- No two permissions share an id.
abbrev pub UniqueIds : List PermissionRow → Type 0
UniqueIds rows = (p q : PermissionRow) → In p rows → In q rows → p.id ≡ q.id → p.key ≡ q.key

module _ {ℓ κ} {A : Type ℓ} {B : Type κ} where
  any-flat_map :
      (p : B → Bool) (f : A → List B) (xs : List A)
      → any p (flat_map f xs) ≡ any (λ a. any p (f a)) xs
  any-flat_map p f [] = refl
  any-flat_map p f (x ∷ xs) =
      any-append p (f x) (flat_map f xs) ∙ ap (λ b. any p (f x) || b) (any-flat_map p f xs)

  any-map : (p : B → Bool) (f : A → B) (xs : List A) → any p (map f xs) ≡ any (λ a. p (f a)) xs
  any-map p f [] = refl
  any-map p f (x ∷ xs) = ap (λ b. p (f x) || b) (any-map p f xs)

any-filter {ℓ} :
    {A : Type ℓ} (p q : A → Bool) (xs : List A) → any p (filter q xs) ≡ any (λ a. q a && p a) xs
any-filter p q [] = refl
any-filter p q (x ∷ xs) = ground (arith, any-filter p q xs)

module _ (db : Admin) (k : String) where
  -- A permission with the id has the key.
  abbrev id_has_key : String → Bool
  id_has_key id = any (λ p. has_permission_id id p && p.key == k) db.directory.permissions

  abbrev grants : String → RolePermissionRow → Bool
  grants role rp = rp.role_id == role && id_has_key rp.permission_id

  keys_by_id :
      (id : String)
      → any
          (λ x. x == k)
          (map (λ p. p.key) (filter (has_permission_id id) db.directory.permissions))
        ≡ id_has_key id
  keys_by_id id =
      any-map (λ x. x == k) (λ p. p.key) (filter (has_permission_id id) db.directory.permissions)
      ∙ any-filter (λ p. p.key == k) (has_permission_id id) db.directory.permissions

-- A role has a key when one of its rows grants it.
includes_lem :
    (db : Admin) (k role : String)
    → includes (get_role_permission_keys db role) k
      ≡ any (grants db k role) db.directory.role_permissions
unfolding get_role_permission_keys
includes_lem db k role =
    any-sort_by (λ x. x == k) text_leb _
    ∙ any-flat_map (λ x. x == k) _ (filter (λ rp. rp.role_id == role) db.directory.role_permissions)
    ∙ any_ext _ (λ rp. id_has_key db k rp.permission_id) _ (λ rp. keys_by_id db k rp.permission_id)
    ∙ any-filter (λ rp. id_has_key db k rp.permission_id) (λ rp. rp.role_id == role)
        db.directory.role_permissions

module _ (db : Admin) (role : String) (keys : List String) (k r : String) where
  -- The rows that are kept grant to other roles only.
  kept_rows :
      any (grants db k r) (filter (λ rp. not (rp.role_id == role)) db.directory.role_permissions)
      ≡ (not (r == role) && any (grants db k r) db.directory.role_permissions)
  kept_rows =
      any-filter (grants db k r) (λ rp. not (rp.role_id == role)) db.directory.role_permissions
      ∙ any_ext _ (λ rp. not (r == role) && grants db k r rp) db.directory.role_permissions
          (λ rp. ground (arith, eq_iff rp.role_id role, eq_iff rp.role_id r, eq_iff r role))
      ∙ any-and (not (r == role)) (grants db k r) db.directory.role_permissions

  -- The new rows grant to the role what was asked for.
  new_rows :
      any
        (grants db k r)
        (map (λ id. record { role_id = role; permission_id = id }) (resolved_ids db keys))
      ≡ (role == r
          && any (λ p. includes keys p.key && id_has_key db k p.id) db.directory.permissions)
  new_rows =
      any-map (grants db k r) _ (resolved_ids db keys)
      ∙ any-and (role == r) (id_has_key db k) (resolved_ids db keys)
      ∙ ap (λ b. role == r && b)
          (any-map (id_has_key db k) (λ p. p.id)
              (filter (λ p. includes keys p.key) db.directory.permissions)
            ∙ any-filter (λ p. id_has_key db k p.id) (λ p. includes keys p.key)
                db.directory.permissions)

own_key :
    (db : Admin) (k : String) (p : PermissionRow)
    → UniqueIds db.directory.permissions
    → In p db.directory.permissions
    → id_has_key db k p.id ≡ (p.key == k)
own_key db k p unique m =
    Bool-ext (id_has_key db k p.id) (p.key == k) to
      (λ h. In-any (λ q. q.id == p.id && q.key == k) m (rw (eq_refl p.id, h) refl))
  where
    to : id_has_key db k p.id ≡ true → (p.key == k) ≡ true
    to h =
        let (q, n, e) =
          any_In (λ q. has_permission_id p.id q && q.key == k) db.directory.permissions h in
        let same = unique q p n m ((eq_iff q.id p.id).0 (and_left (q.id == p.id) (q.key == k) e)) in
        ap (λ x. x == k) (sym same) ∙ and_right (q.id == p.id) (q.key == k) e

asked_for :
    (db : Admin) (keys : List String) (k : String)
    → UniqueIds db.directory.permissions
    → any (λ p. includes keys p.key && id_has_key db k p.id) db.directory.permissions
      ≡ (includes keys k && includes (map (λ p. p.key) db.directory.permissions) k)
asked_for db keys k unique =
    any_ext_In _ (λ p. includes keys k && p.key == k) db.directory.permissions pointwise
    ∙ any-and (includes keys k) (λ p. p.key == k) db.directory.permissions
    ∙ ap (λ b. includes keys k && b)
        (sym (any-map (λ x. x == k) (λ p. p.key) db.directory.permissions))
  where
    pointwise :
        (p : PermissionRow)
        → In p db.directory.permissions
        → (includes keys p.key && id_has_key db k p.id) ≡ (includes keys k && p.key == k)
    pointwise p m = rw (own_key db k p unique m) (elim (Bool-cases (p.key == k)) [
      | inl same ↦
          ap (λ x. includes keys x && x == k) ((eq_iff p.key k).0 same) ∙ rw (eq_refl k, same) refl
      | inr other ↦ rw other (ground arith)
    ])

-- After the permissions of a role, also of a system role, are set, it has exactly the keys that were
-- asked for and that are keys of a permission, and every other role has the keys that it had; if
-- permission ids are unique.
pub set_role_permissions-keys :
    (db : Admin) (role : String) (keys : List String) (r k : String)
    → UniqueIds db.directory.permissions
    → includes (get_role_permission_keys (set_role_permissions db role keys) r) k ≡ (
        if r == role
        then includes keys k && includes (map (λ p. p.key) db.directory.permissions) k
        else includes (get_role_permission_keys db r) k)
unfolding set_role_permissions
set_role_permissions-keys db role keys r k unique =
    includes_lem _ k r
    ∙ any-append (grants db k r)
        (filter (λ rp. not (rp.role_id == role)) db.directory.role_permissions) _
    ∙ rw
        (
          kept_rows db role keys k r,
          new_rows db role keys k r,
          asked_for db keys k unique,
          includes_lem db k r,
        )
        (ground (arith, eq_iff r role, eq_iff role r))
