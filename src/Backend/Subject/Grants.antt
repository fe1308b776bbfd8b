-- ===== src/Backend/Subject/Grants.antt =====
-- The permissions of a resolved subject are those that its groups reach through their roles.
use argus_monitor.Prelude.{
  ◌≡◌, sym, ◌↔◌, subst, ap, arith, String, some, Bool, true, false, ◌==◌, eq_iff, find, filter, map,
  In, In-filter, filter_In, In-map, map_In, join_In, In-join, find-some, dedupe, dedupe_iff, inl,
  inr, Option-cases,
}
use argus_monitor.Core.Authorize.{AuthSubject}
use argus_monitor.Backend.Schema.{
  UserRow, UserGroupRow, GroupRoleRow, RolePermissionRow, PermissionRow,
}
use argus_monitor.Backend.Subject.{
  Directory, keys_of_permission, keys_of_role, keys_of_group, keys_of_user, subject_of,
  resolve_subject,
}

-- A chain of rows from the user to the permission key: a membership, a role of the group, a
-- permission of the role.
pub record Grants (dir : Directory) (user_id key : String) : Type 0 where
  pub membership : UserGroupRow
  pub group_role : GroupRoleRow
  pub role_permission : RolePermissionRow
  pub permission : PermissionRow
  pub in_memberships : In membership dir.user_groups
  pub in_group_roles : In group_role dir.group_roles
  pub in_role_permissions : In role_permission dir.role_permissions
  pub in_permissions : In permission dir.permissions
  pub of_user : membership.user_id ≡ user_id
  pub of_group : group_role.group_id ≡ membership.group_id
  pub of_role : role_permission.role_id ≡ group_role.role_id
  pub of_permission : permission.id ≡ role_permission.permission_id
  pub has_key : key ≡ permission.key

module _ (dir : Directory) (user_id key : String) where
  module _ (ug : UserGroupRow) (ug_in : In ug dir.user_groups)
      (ug_eq : (ug.user_id == user_id) ≡ true) where
    module _ (gr : GroupRoleRow) (gr_in : In gr dir.group_roles)
        (gr_eq : (gr.group_id == ug.group_id) ≡ true) where
      module _ (rp : RolePermissionRow) (rp_in : In rp dir.role_permissions)
          (rp_eq : (rp.role_id == gr.role_id) ≡ true) where
        of_permission_row :
            (p : PermissionRow)
            → key ≡ p.key
            → In p dir.permissions
            → (p.id == rp.permission_id) ≡ true
            → Grants dir user_id key
        of_permission_row p key_eq p_in p_eq = record {
          membership = ug;
          group_role = gr;
          role_permission = rp;
          permission = p;
          in_memberships = ug_in;
          in_group_roles = gr_in;
          in_role_permissions = rp_in;
          in_permissions = p_in;
          of_user = (eq_iff ug.user_id user_id).0 ug_eq;
          of_group = (eq_iff gr.group_id ug.group_id).0 gr_eq;
          of_role = (eq_iff rp.role_id gr.role_id).0 rp_eq;
          of_permission = (eq_iff p.id rp.permission_id).0 p_eq;
          has_key = key_eq;
        }

        of_role_permission :
            In key (keys_of_permission dir.permissions rp.permission_id) → Grants dir user_id key
        unfolding keys_of_permission
        of_role_permission m =
            let test : PermissionRow → Bool = λ p. p.id == rp.permission_id in
            let (p, at_p, e) = map_In (λ p. p.key) (filter test dir.permissions) m in
            let (p_in, p_eq) = filter_In {a = p} test dir.permissions at_p in
            of_permission_row p e p_in p_eq

      of_group_role : In key (keys_of_role dir gr.role_id) → Grants dir user_id key
      unfolding keys_of_role
      of_group_role m =
          let (rp, i, e, n) =
            join_In (λ rp. rp.role_id == gr.role_id)
              (λ rp. keys_of_permission dir.permissions rp.permission_id) dir.role_permissions m in
          of_role_permission rp i e n

    of_membership : In key (keys_of_group dir ug.group_id) → Grants dir user_id key
    unfolding keys_of_group
    of_membership m =
        let (gr, i, e, n) =
          join_In (λ gr. gr.group_id == ug.group_id) (λ gr. keys_of_role dir gr.role_id)
            dir.group_roles m in
        of_group_role gr i e n

  to_Grants : In key (keys_of_user dir user_id) → Grants dir user_id key
  unfolding keys_of_user
  to_Grants m =
      let (ug, i, e, n) =
        join_In (λ ug. ug.user_id == user_id) (λ ug. keys_of_group dir ug.group_id) dir.user_groups
          m in
      of_membership ug i e n

  module _ (g : Grants dir user_id key) where
    in_permission : In key (keys_of_permission dir.permissions g.role_permission.permission_id)
    unfolding keys_of_permission
    in_permission =
        subst
          (λ t. In t (
            map (λ p. p.key)
              (filter (λ p. p.id == g.role_permission.permission_id) dir.permissions)))
          (sym g.has_key)
          (In-map (λ p. p.key)
            (In-filter (λ p. p.id == g.role_permission.permission_id) g.in_permissions
              ((eq_iff _ _).1 g.of_permission)))

    in_role : In key (keys_of_role dir g.group_role.role_id)
    unfolding keys_of_role
    in_role =
        In-join (λ rp. rp.role_id == g.group_role.role_id)
          (λ rp. keys_of_permission dir.permissions rp.permission_id) g.in_role_permissions
          ((eq_iff _ _).1 g.of_role) in_permission

    in_group : In key (keys_of_group dir g.membership.group_id)
    unfolding keys_of_group
    in_group =
        In-join (λ gr. gr.group_id == g.membership.group_id) (λ gr. keys_of_role dir gr.role_id)
          g.in_group_roles ((eq_iff _ _).1 g.of_group) in_role

    from_Grants : In key (keys_of_user dir user_id)
    unfolding keys_of_user
    from_Grants =
        In-join (λ ug. ug.user_id == user_id) (λ ug. keys_of_group dir ug.group_id) g.in_memberships
          ((eq_iff _ _).1 g.of_user) in_group

-- A resolved subject comes from the row of a user that is not disabled.
pub record Resolves (dir : Directory) (user_id : String) (s : AuthSubject) : Type 0 where
  pub user : UserRow
  pub listed : In user dir.users
  pub of_id : user.id ≡ user_id
  pub enabled : user.disabled ≡ false
  pub subject : s ≡ subject_of dir user_id user

module _ (dir : Directory) (user_id : String) {s : AuthSubject} where
  pub resolve_subject-Resolves : resolve_subject dir user_id ≡ some s → Resolves dir user_id s
  unfolding resolve_subject
  resolve_subject-Resolves h = elim (Option-cases (find (λ u. u.id == user_id) dir.users)) [
    | inl missing ↦ absurd (ground arith)
    | inr (u, found) ↦
        let (m, e) = find-some (λ u. u.id == user_id) dir.users found in
        let enabled : u.disabled ≡ false = ground arith in
        record {
          user = u;
          listed = m;
          of_id = (eq_iff _ _).0 e;
          enabled = enabled;
          subject = ground arith;
        }
  ]

  -- The subject that a user id resolves to holds a permission exactly when a chain of rows leads
  -- from the user through one of its groups and a role of that group to the permission.
  pub resolve_subject-permissions_iff :
      resolve_subject dir user_id ≡ some s
      → (key : String) → In key s.permissions ↔ Grants dir user_id key
  resolve_subject-permissions_iff h key =
      let r = resolve_subject-Resolves h in
      let e : s.permissions ≡ dedupe (keys_of_user dir user_id) =
        ap (λ t. t.permissions) r.subject in
      rw e (
        λ m. to_Grants dir user_id key ((dedupe_iff _ key).0 m),
        λ g. (dedupe_iff _ key).1 (from_Grants dir user_id key g),
      )
