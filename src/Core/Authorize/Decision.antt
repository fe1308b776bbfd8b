-- ===== src/Core/Authorize/Decision.antt =====
-- What `authorize` decides, against a description of access by membership.
use argus_monitor.Prelude.{
  ◌≡◌, refl, sym, ◌∙◌, ◌↔◌, ◌⊎◌, inl, inr, String, Option, Bool, true, false, arith, In,
  includes_iff, Bool-cases, if◌then◌else◌,
}
use argus_monitor.Core.Authorize.{
  Attribute, AuthSubject, ResourceContext, AuthzReason, AuthzResult, owner_bypass, granted,
  missing_permission, attribute_mismatch, has_permission, satisfies_attributes, required_of,
  authorize, can,
}
use argus_monitor.Core.Authorize.Attributes.{
  MeetsAll, satisfies_attributes_iff, is_mismatch_false, MeetsAll-mono,
}

-- What each reason says of the subject, the action and the resource.
abbrev pub Explains : AuthSubject → String → Option ResourceContext → AuthzReason → Type 0
Explains s action r owner_bypass = s.is_owner ≡ true
Explains s action r missing_permission = (s.is_owner ≡ false) × ¬ (In action s.permissions)
Explains s action r attribute_mismatch =
    (s.is_owner ≡ false) × In action s.permissions × ¬ (MeetsAll s.attributes (required_of r))
Explains s action r granted =
    (s.is_owner ≡ false) × In action s.permissions × MeetsAll s.attributes (required_of r)

-- The reasons that go with a permitted request.
abbrev pub permits : AuthzReason → Bool
permits owner_bypass = true
permits granted = true
permits _ = false

module _ (s : AuthSubject) (action : String) (r : Option ResourceContext) where
  not_held : has_permission s action ≡ false → ¬ (In action s.permissions)
  unfolding has_permission
  not_held h m = ground (arith, (includes_iff s.permissions action).1 m)

  held : has_permission s action ≡ true → In action s.permissions
  unfolding has_permission
  held h = (includes_iff s.permissions action).0 h

  unmet : satisfies_attributes s (required_of r) ≡ false → ¬ (MeetsAll s.attributes (required_of r))
  unmet h m = ground (arith, (satisfies_attributes_iff s (required_of r)).1 m)

  authorize_owner :
      s.is_owner ≡ true → authorize s action r ≡ record { allowed = true; reason = owner_bypass }
  unfolding authorize
  authorize_owner h = ground arith

  module _ (other : s.is_owner ≡ false) where
    authorize_lacking :
        has_permission s action ≡ false
        → authorize s action r ≡ record { allowed = false; reason = missing_permission }
    unfolding authorize
    authorize_lacking h = ground arith

    authorize_held :
        has_permission s action ≡ true
        → authorize s action r ≡ (
            if satisfies_attributes s (required_of r)
            then record { allowed = true; reason = granted }
            else record { allowed = false; reason = attribute_mismatch })
    unfolding authorize
    authorize_held h = ground (arith, is_mismatch_false s (required_of r))

  -- The decision is the one that its reason stands for, and the reason is true of the request: the
  -- subject is the owner; or it is not and lacks the permission; or it holds the permission and
  -- does not meet, or does meet, every required attribute.
  pub authorize-Explains :
      Explains s action r (authorize s action r).reason
      × ((authorize s action r).allowed ≡ permits (authorize s action r).reason)
  authorize-Explains = elim (Bool-cases s.is_owner) [
    | inl owner ↦ rw (authorize_owner owner) (owner, refl)
    | inr other ↦ elim (Bool-cases (has_permission s action)) [
      | inr lacks ↦ rw (authorize_lacking other lacks) ((other, not_held lacks), refl)
      | inl has ↦ rw (authorize_held other has) (decided other (held has))
    ]
  ]
    where
      result : Bool → AuthzResult
      result b =
          if b
          then record { allowed = true; reason = granted }
          else record { allowed = false; reason = attribute_mismatch }

      decided :
          s.is_owner ≡ false
          → In action s.permissions
          → Explains s action r (result (satisfies_attributes s (required_of r))).reason
            × ((result (satisfies_attributes s (required_of r))).allowed
                ≡ permits (result (satisfies_attributes s (required_of r))).reason)
      decided other has = elim (Bool-cases (satisfies_attributes s (required_of r))) [
        | inl meets ↦
            rw meets ((other, has, (satisfies_attributes_iff s (required_of r)).0 meets), refl)
        | inr fails ↦ rw fails ((other, has, unmet fails), refl)
      ]

  -- A request is allowed exactly when the subject is the owner, or holds the permission and meets
  -- every required attribute.
  pub can_iff :
      (can s action r ≡ true)
      ↔ ((s.is_owner ≡ true) ⊎ (In action s.permissions × MeetsAll s.attributes (required_of r)))
  unfolding can
  can_iff = (to, from)
    where
      of_reason :
          (x : AuthzReason)
          → Explains s action r x
          → permits x ≡ true
          → (s.is_owner ≡ true) ⊎ (In action s.permissions × MeetsAll s.attributes (required_of r))
      of_reason owner_bypass h p = inl h
      of_reason granted h p = inr (h.1, h.2)
      of_reason missing_permission h p = absurd (cc)
      of_reason attribute_mismatch h p = absurd (cc)

      to :
          (authorize s action r).allowed ≡ true
          → (s.is_owner ≡ true) ⊎ (In action s.permissions × MeetsAll s.attributes (required_of r))
      to h =
          of_reason (authorize s action r).reason authorize-Explains.0
            (sym authorize-Explains.1 ∙ h)

      refuse :
          (x : AuthzReason)
          → Explains s action r x
          → (s.is_owner ≡ true) ⊎ (In action s.permissions × MeetsAll s.attributes (required_of r))
          → permits x ≡ true
      refuse owner_bypass h k = refl
      refuse granted h k = refl
      refuse missing_permission h (inl o) = cc
      refuse missing_permission h (inr k) = absurd (h.1 k.0)
      refuse attribute_mismatch h (inl o) = cc
      refuse attribute_mismatch h (inr k) = absurd (h.2 k.1)

      from :
          (s.is_owner ≡ true) ⊎ (In action s.permissions × MeetsAll s.attributes (required_of r))
          → (authorize s action r).allowed ≡ true
      from k = authorize-Explains.1 ∙ refuse (authorize s action r).reason authorize-Explains.0 k

-- Granting permissions or attributes, or ownership, to a subject never takes access away.
pub can_mono :
    (s t : AuthSubject) (action : String) (r : Option ResourceContext)
    → (s.is_owner ≡ true → t.is_owner ≡ true)
    → ((p : String) → In p s.permissions → In p t.permissions)
    → ((a : Attribute) → In a s.attributes → In a t.attributes)
    → can s action r ≡ true
    → can t action r ≡ true
can_mono s t action r owner perms attrs h = (can_iff t action r).1 (grow ((can_iff s action r).0 h))
  where
    grow :
        (s.is_owner ≡ true) ⊎ (In action s.permissions × MeetsAll s.attributes (required_of r))
        → (t.is_owner ≡ true) ⊎ (In action t.permissions × MeetsAll t.attributes (required_of r))
    grow (inl o) = inl (owner o)
    grow (inr (p, m)) =
        inr (perms action p, MeetsAll-mono s.attributes t.attributes attrs (required_of r) m)
