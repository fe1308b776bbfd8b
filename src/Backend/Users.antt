-- ===== src/Backend/Users.antt =====
-- The administration of users, apps/backend/src/services/users.ts. The hash of a password and `trim`
-- are parameters.
pub mod Security
pub mod Protected
use argus_monitor.Prelude.{
  ℕ, String, Option, none, some, List, [], ◌∷◌, ◌++◌, map, Bool, true, false, not, ◌==◌, find,
  filter, update_where, dedupe, if◌then◌else◌,
}
use argus_monitor.Core.Authorize.{Attribute}
use argus_monitor.Core.Protection.{Guarded, ok, assert_mutable, ◌>>=◌, ◌>>◌}
use argus_monitor.Backend.Schema.{UserRow, UserGroupRow, UserAttributeRow}
use argus_monitor.Backend.Subject.{Directory}
use argus_monitor.Backend.Lockout.{is_locked}

pub record CreateUserInput : Type 0 where
  pub username : String
  pub display_name : Option String
  pub email : Option String
  pub password : String
  pub group_ids : List String
  pub attributes : List Attribute

-- A field that is `none` is undefined.
pub record UpdateUserInput : Type 0 where
  pub display_name : Option String
  pub email : Option (Option String)
  pub disabled : Option Bool
  pub password : Option String

pub record ListedUser : Type 0 where
  pub row : UserRow
  pub locked : Bool
  pub group_ids : List String
  pub attributes : List Attribute

unfoldable pub list_users : Directory → ℕ → List ListedUser
list_users dir now =
    map
      (λ row. record {
        row = row;
        locked = is_locked row now;
        group_ids = map (λ m. m.group_id) (filter (λ m. m.user_id == row.id) dir.user_groups);
        attributes =
            map (λ a. record { key = a.key; value = a.value })
              (filter (λ a. a.user_id == row.id) dir.user_attributes);
      })
      dir.users

unfoldable pub get_user : Directory → String → Option UserRow
get_user dir id = find (λ u. u.id == id) dir.users

-- The user's rows are deleted, and one is inserted for each group; a conflict does nothing.
unfoldable pub set_user_groups : Directory → String → List String → Directory
set_user_groups dir user_id group_ids = record dir {
  user_groups =
      filter (λ m. not (m.user_id == user_id)) dir.user_groups
      ++ map (λ g. record { user_id = user_id; group_id = g }) (dedupe group_ids);
}

-- `map.set(key, value)`: a key that is there keeps its place.
unfoldable pub set_key : List Attribute → String → String → List Attribute
set_key [] key value = record { key = key; value = value } ∷ []
set_key (a ∷ attrs) key value =
    let rest = set_key attrs key value in
    if a.key == key then record { key = key; value = value } ∷ attrs else a ∷ rest

-- The guarded updates of a user, with what its branches need.
abbrev value_or {ℓ} : {A : Type ℓ} → Option A → A → A
value_or none old = old
value_or (some new) old = new

abbrev pub guard : UserRow → Guarded (Unit {0})
guard u =
    assert_mutable (record { is_system = some u.is_system; is_owner = some u.is_owner }) u.username

-- Memberships and attributes of a deleted user go with it.
unfoldable pub remove_user : Directory → String → Directory
remove_user dir id = record dir {
  users = filter (λ u. not (u.id == id)) dir.users;
  user_groups = filter (λ m. not (m.user_id == id)) dir.user_groups;
  user_attributes = filter (λ a. not (a.user_id == id)) dir.user_attributes;
}

abbrev pub delete_found : Directory → String → Option UserRow → Guarded (Directory × Bool)
delete_found dir id none = ok (dir, false)
delete_found dir id (some existing) = guard existing >> ok (remove_user dir id, true)

unfoldable pub delete_user : Directory → String → Guarded (Directory × Bool)
unfolding get_user
delete_user dir id = delete_found dir id (get_user dir id)

module _ (hash_password : String → String) (trim : String → String) where
  -- The keys that are not empty, trimmed, each with the last value given for it.
  unfoldable pub cleaned : List Attribute → List Attribute → List Attribute
  unfolding set_key
  cleaned done [] = done
  cleaned done (a ∷ attrs) =
      let key = trim a.key in
      let with = cleaned (set_key done key (trim a.value)) attrs in
      let without = cleaned done attrs in if key == "" then without else with

  unfoldable pub set_user_attributes : Directory → String → List Attribute → Directory
  unfolding cleaned
  set_user_attributes dir user_id attributes = record dir {
    user_attributes =
        filter (λ a. not (a.user_id == user_id)) dir.user_attributes
        ++ map (λ a. record { user_id = user_id; key = a.key; value = a.value })
            (cleaned [] attributes);
  }

  abbrev pub new_user : CreateUserInput → String → ℕ → UserRow
  new_user input id now = record {
    id = id;
    username = input.username;
    display_name = value_or input.display_name input.username;
    email = input.email;
    password_hash = some (hash_password input.password);
    auth_provider = "local";
    disabled = false;
    is_owner = false;
    is_system = false;
    totp_enabled = false;
    totp_secret = none;
    totp_recovery = none;
    token_version = 0;
    failed_login_count = 0;
    locked_until = none;
    last_login_at = none;
    updated_at = now;
  }

  -- An empty list of groups or attributes leaves the tables as they are.
  abbrev pub groups_if : Directory → String → List String → Directory
  groups_if dir id [] = dir
  groups_if dir id (g ∷ gs) = set_user_groups dir id (g ∷ gs)

  abbrev pub attributes_if : Directory → String → List Attribute → Directory
  attributes_if dir id [] = dir
  attributes_if dir id (a ∷ as_) = set_user_attributes dir id (a ∷ as_)

  unfoldable pub create_user : Directory → CreateUserInput → (id : String) → ℕ → Directory
  create_user dir input id now =
      attributes_if
        (groups_if (record dir { users = dir.users ++ new_user input id now ∷ [] }) id
          input.group_ids)
        id input.attributes

  -- An empty password is falsy.
  abbrev hash_or : Option String → Option String → Option String
  hash_or none old = old
  hash_or (some password) old = if password == "" then old else some (hash_password password)

  abbrev pub patched : UpdateUserInput → ℕ → UserRow → UserRow
  patched patch now u = record u {
    display_name = value_or patch.display_name u.display_name;
    email = value_or patch.email u.email;
    disabled = value_or patch.disabled u.disabled;
    password_hash = hash_or patch.password u.password_hash;
    updated_at = now;
  }

  abbrev pub update_found :
      Directory → String → UpdateUserInput → ℕ → Option UserRow → Guarded (Directory × Bool)
  update_found dir id patch now none = ok (dir, false)
  update_found dir id patch now (some existing) =
      guard existing
      >> ok (
        record dir { users = update_where (λ u. u.id == id) (patched patch now) dir.users },
        true,
      )

  unfoldable pub update_user : Directory → String → UpdateUserInput → ℕ → Guarded (Directory × Bool)
  unfolding get_user
  update_user dir id patch now = update_found dir id patch now (get_user dir id)
