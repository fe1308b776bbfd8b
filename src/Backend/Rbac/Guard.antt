-- ===== src/Backend/Rbac/Guard.antt =====
-- Who gets past a route's permission guard.
use text.Mathlib.TextPositions.{starts_with-append}
use argus_monitor.Prelude.{
  ◌≡◌, sym, ◌∙◌, ◌↔◌, ◌⊎◌, inl, inr, arith, String, Option, some, Bool, true, false, ◌||◌, not, In,
  [],
}
use argus_monitor.Core.Authorize.{AuthSubject, ResourceContext, required_of, can}
use argus_monitor.Core.Authorize.Attributes.{MeetsAll}
use argus_monitor.Core.Authorize.Decision.{can_iff}
use argus_monitor.Backend.Subject.{
  Directory, device_read_perms, is_device_subject, device_subject, resolve_subject,
}
use argus_monitor.Backend.Subject.Grants.{Grants, resolve_subject-permissions_iff}
use argus_monitor.Backend.Rbac.{pass, RequirePermissionOpts, require_permission}

-- The route is open to the subject's kind: it allows display devices, or the subject is none.
abbrev pub admits_kind : RequirePermissionOpts → AuthSubject → Bool
admits_kind o s = o.allow_device || not (is_device_subject s)

pass_iff_can :
    (action : String) (o : RequirePermissionOpts) (s : AuthSubject)
    → (require_permission action o (some s) ≡ pass)
      ↔ ((admits_kind o s ≡ true) × (can s action o.resource ≡ true))
unfolding require_permission can
pass_iff_can action o s = ground arith

-- A user that is signed in gets past the guard exactly when the route is open to its kind and it is
-- the owner, or a chain of group, role and permission rows grants it the action and it meets the
-- attributes that the resource requires.
pub require_permission_iff :
    (dir : Directory) (user_id : String) {s : AuthSubject}
    → resolve_subject dir user_id ≡ some s
    → (action : String) (o : RequirePermissionOpts)
    → (require_permission action o (some s) ≡ pass) ↔ (
        (admits_kind o s ≡ true)
        × ((s.is_owner ≡ true)
            ⊎ (Grants dir user_id action × MeetsAll s.attributes (required_of o.resource))))
require_permission_iff dir user_id {s} h action o = (to, from)
  where
    held : In action s.permissions ↔ Grants dir user_id action
    held = resolve_subject-permissions_iff dir user_id h action

    there' :
        (s.is_owner ≡ true)
          ⊎ (In action s.permissions × MeetsAll s.attributes (required_of o.resource))
        → (s.is_owner ≡ true)
          ⊎ (Grants dir user_id action × MeetsAll s.attributes (required_of o.resource))
    there' (inl owner) = inl owner
    there' (inr (m, k)) = inr (held.0 m, k)

    back :
        (s.is_owner ≡ true)
          ⊎ (Grants dir user_id action × MeetsAll s.attributes (required_of o.resource))
        → (s.is_owner ≡ true)
          ⊎ (In action s.permissions × MeetsAll s.attributes (required_of o.resource))
    back (inl owner) = inl owner
    back (inr (g, k)) = inr (held.1 g, k)

    to :
        require_permission action o (some s) ≡ pass
        → (admits_kind o s ≡ true)
          × ((s.is_owner ≡ true)
              ⊎ (Grants dir user_id action × MeetsAll s.attributes (required_of o.resource)))
    to p =
        let (kind, ok) = (pass_iff_can action o s).0 p in
        (kind, there' ((can_iff s action o.resource).0 ok))

    from :
        (admits_kind o s ≡ true)
          × ((s.is_owner ≡ true)
              ⊎ (Grants dir user_id action × MeetsAll s.attributes (required_of o.resource)))
        → require_permission action o (some s) ≡ pass
    from (kind, k) = (pass_iff_can action o s).1 (kind, (can_iff s action o.resource).1 (back k))

device-IsDevice : (id : String) → is_device_subject (device_subject id) ≡ true
unfolding is_device_subject device_subject
device-IsDevice id = starts_with-append "device:" id

device-admits :
    (o : RequirePermissionOpts) (id : String) → admits_kind o (device_subject id) ≡ o.allow_device
device-admits o id = rw (device-IsDevice id) (ground arith)

device-can_iff :
    (id action : String) (r : Option ResourceContext)
    → (can (device_subject id) action r ≡ true)
      ↔ (In action device_read_perms × MeetsAll [] (required_of r))
unfolding device_subject
device-can_iff id action r = (
  λ h. right ((can_iff (device_subject id) action r).0 h),
  λ k. (can_iff (device_subject id) action r).1 (inr k),
)
  where
    right :
        (false ≡ true) ⊎ (In action device_read_perms × MeetsAll [] (required_of r))
        → In action device_read_perms × MeetsAll [] (required_of r)
    right (inl owner) = cc
    right (inr k) = k

-- A paired display gets past the guard exactly on a route that allows devices, for one of the
-- permissions that rendering a board needs, where the resource requires no attribute.
pub require_permission-device_iff :
    (action : String) (o : RequirePermissionOpts) (id : String)
    → (require_permission action o (some (device_subject id)) ≡ pass) ↔ (
        (o.allow_device ≡ true)
        × In action device_read_perms
        × MeetsAll [] (required_of o.resource))
require_permission-device_iff action o id = (to, from)
  where
    to :
        require_permission action o (some (device_subject id)) ≡ pass
        → (o.allow_device ≡ true)
          × In action device_read_perms
          × MeetsAll [] (required_of o.resource)
    to p =
        let (kind, ok) = (pass_iff_can action o (device_subject id)).0 p in
        let (m, k) = (device-can_iff id action o.resource).0 ok in
        (sym (device-admits o id) ∙ kind, m, k)

    from :
        (o.allow_device ≡ true) × In action device_read_perms × MeetsAll [] (required_of o.resource)
        → require_permission action o (some (device_subject id)) ≡ pass
    from (a, m, k) =
        (pass_iff_can action o (device_subject id)).1
          (device-admits o id ∙ a, (device-can_iff id action o.resource).1 (m, k))
