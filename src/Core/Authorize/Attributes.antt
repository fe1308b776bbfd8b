-- ===== src/Core/Authorize/Attributes.antt =====
-- When a subject meets the required attributes of a resource.
use argus_monitor.Prelude.{
  ◌≡◌, refl, ◌↔◌, String, Option, none, some, List, [], ◌∷◌, Bool, true, ◌&&◌, not, ◌==◌, arith,
  any, In, All, any_In, In-any, includes_iff, eq_iff, and_left, and_right,
}
use argus_monitor.Core.Authorize.{
  Attribute, AuthSubject, Constraint, exactly, one_of, Required, admits, satisfies_key,
  satisfies_entries, satisfies_attributes, is_mismatch,
}

-- The values that a constraint admits.
abbrev pub Admits : Constraint → String → Type 0
Admits (exactly v) value = value ≡ v
Admits (one_of vs) value = In value vs

-- The subject carries, for the key, an attribute with an admitted value.
abbrev pub Carries : List Attribute → String → Constraint → Type 0
Carries attributes key c = (a : Attribute) × In a attributes × (a.key ≡ key) × Admits c a.value

-- The constraint of a required key, if it has one, is met.
abbrev pub CarriesEntry : List Attribute → String × Option Constraint → Type 0
CarriesEntry attributes (key, none) = Unit {0}
CarriesEntry attributes (key, some c) = Carries attributes key c

abbrev pub MeetsAll : List Attribute → Option Required → Type 0
MeetsAll attributes none = Unit {0}
MeetsAll attributes (some required) = All (CarriesEntry attributes) required

admits_iff : (c : Constraint) (v : String) → (admits c v ≡ true) ↔ Admits c v
unfolding admits
admits_iff (exactly w) v = eq_iff v w
admits_iff (one_of vs) v = includes_iff vs v

module _ (s : AuthSubject) where
  satisfies_key_iff :
      (key : String) (c : Constraint)
      → (satisfies_key s key (some c) ≡ true) ↔ Carries s.attributes key c
  unfolding satisfies_key
  satisfies_key_iff key c = (to, from)
    where
      test : Attribute → Bool
      test a = a.key == key && admits c a.value

      to : any test s.attributes ≡ true → Carries s.attributes key c
      to h =
          let (a, m, e) = any_In test s.attributes h in
          (
            a,
            m,
            (eq_iff a.key key).0 (and_left (a.key == key) (admits c a.value) e),
            (admits_iff c a.value).0 (and_right (a.key == key) (admits c a.value) e),
          )

      from : Carries s.attributes key c → any test s.attributes ≡ true
      from (a, m, k, v) =
          In-any test m (ground (arith, (eq_iff a.key key).1 k, (admits_iff c a.value).1 v))

  entry_iff :
      (e : String × Option Constraint)
      → (satisfies_key s e.0 e.1 ≡ true) ↔ CarriesEntry s.attributes e
  unfolding satisfies_key
  entry_iff (key, none) = (λ h. tt, λ h. refl)
  entry_iff (key, some c) = satisfies_key_iff key c

  entries_sound :
      (required : Required)
      → satisfies_entries s required ≡ true
      → All (CarriesEntry s.attributes) required
  unfolding satisfies_entries
  entries_sound [] h = tt
  entries_sound (x ∷ rest) h = ((entry_iff x).0 (ground arith), entries_sound rest (ground arith))

  entries_complete :
      (required : Required)
      → All (CarriesEntry s.attributes) required
      → satisfies_entries s required ≡ true
  unfolding satisfies_entries
  entries_complete [] h = refl
  entries_complete (x ∷ rest) h = rw ((entry_iff x).1 h.0) (entries_complete rest h.1)

  pub satisfies_attributes_iff :
      (required : Option Required)
      → (satisfies_attributes s required ≡ true) ↔ MeetsAll s.attributes required
  unfolding satisfies_attributes
  satisfies_attributes_iff none = (λ h. tt, λ h. refl)
  satisfies_attributes_iff (some required) = (entries_sound required, entries_complete required)

  pub is_mismatch_false :
      (required : Option Required) → is_mismatch s required ≡ not (satisfies_attributes s required)
  unfolding satisfies_attributes
  is_mismatch_false none = refl
  is_mismatch_false (some required) = refl

module _ (xs ys : List Attribute) (sub : (a : Attribute) → In a xs → In a ys) where
  CarriesEntry-mono : (e : String × Option Constraint) → CarriesEntry xs e → CarriesEntry ys e
  CarriesEntry-mono (key, none) h = tt
  CarriesEntry-mono (key, some c) (a, m, k, v) = (a, sub a m, k, v)

  All-mono : (required : Required) → All (CarriesEntry xs) required → All (CarriesEntry ys) required
  All-mono [] h = tt
  All-mono (e ∷ rest) h = (CarriesEntry-mono e h.0, All-mono rest h.1)

  -- More attributes meet what fewer do.
  pub MeetsAll-mono : (r : Option Required) → MeetsAll xs r → MeetsAll ys r
  MeetsAll-mono none m = tt
  MeetsAll-mono (some required) m = All-mono required m
