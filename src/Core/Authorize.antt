-- ===== src/Core/Authorize.antt =====
-- The RBAC and ABAC evaluator, packages/core/src/authorize.ts.
pub mod Attributes
pub mod Decision
use argus_monitor.Prelude.{
  String, Option, none, some, List, [], ◌∷◌, Bool, true, false, ◌&&◌, not, ◌==◌, any, all, includes,
  if◌then◌else◌,
}

pub record Attribute : Type 0 where
  pub key : String
  pub value : String

pub record AuthSubject : Type 0 where
  pub user_id : String
  pub is_owner : Bool
  pub permissions : List String
  pub attributes : List Attribute

-- A required value: a string, or an array of the strings that will do.
pub data Constraint : Type 0 where
  exactly : String → Constraint
  one_of : List String → Constraint

-- The entries of a `Record<string, string | string[]>`; `none` is a key whose value is undefined.
abbrev pub Required : Type 0
Required = List (String × Option Constraint)

pub record ResourceContext : Type 0 where
  pub required_attributes : Option Required
  pub owner_user_id : Option String

pub data AuthzReason : Type 0 where
  owner_bypass granted missing_permission attribute_mismatch : AuthzReason

pub record AuthzResult : Type 0 where
  pub allowed : Bool
  pub reason : AuthzReason

unfoldable pub has_permission : AuthSubject → String → Bool
has_permission subject action = includes subject.permissions action

-- The test of the callback of `some`, once the attribute has the key.
unfoldable pub admits : Constraint → String → Bool
admits (exactly v) value = value == v
admits (one_of vs) value = includes vs value

-- One round of the loop over the required keys.
unfoldable pub satisfies_key : AuthSubject → String → Option Constraint → Bool
satisfies_key subject key none = true
satisfies_key subject key (some constraint) =
    any (λ attr. attr.key == key && admits constraint attr.value) subject.attributes

unfoldable pub satisfies_entries : AuthSubject → Required → Bool
satisfies_entries subject [] = true
satisfies_entries subject ((key, constraint) ∷ rest) =
    if satisfies_key subject key constraint then satisfies_entries subject rest else false

unfoldable pub satisfies_attributes : AuthSubject → Option Required → Bool
satisfies_attributes subject none = true
satisfies_attributes subject (some required) = satisfies_entries subject required

-- `resource?.requiredAttributes`.
abbrev pub required_of : Option ResourceContext → Option Required
required_of none = none
required_of (some resource) = resource.required_attributes

-- The guard of step 3: a constraint is given and is not satisfied.
abbrev pub is_mismatch : AuthSubject → Option Required → Bool
is_mismatch subject none = false
is_mismatch subject (some required) = not (satisfies_attributes subject (some required))

unfoldable pub authorize : AuthSubject → String → Option ResourceContext → AuthzResult
authorize subject action resource =
    if subject.is_owner
    then record { allowed = true; reason = owner_bypass }
    else if not (has_permission subject action)
    then record { allowed = false; reason = missing_permission }
    else if is_mismatch subject (required_of resource)
    then record { allowed = false; reason = attribute_mismatch }
    else record { allowed = true; reason = granted }

unfoldable pub can : AuthSubject → String → Option ResourceContext → Bool
can subject action resource = (authorize subject action resource).allowed
