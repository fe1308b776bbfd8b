-- ===== src/Backend/Users/Protected.antt =====
-- The owner and the system users stay as they are, but for resets of the second factor, the lock
-- and the sessions.
use argus_monitor.Prelude.{
  ℕ, ◌≡◌, refl, sym, ap, subst, ◌∙◌, if◌then◌else◌, arith, String, Option, none, some, List, [],
  ◌∷◌, ◌++◌, Bool, Bool-cases, inl, inr, true, false, ◌||◌, not, ◌==◌, eq_iff, find, filter, adjust,
  find-update_where,
}
use argus_monitor.Core.Authorize.{Attribute}
use argus_monitor.Core.Protection.{Guarded, ok, protected_entity, assert_mutable, ◌>>◌}
use argus_monitor.Backend.Schema.{UserRow}
use argus_monitor.Backend.Subject.{Directory}
use argus_monitor.Backend.Users.Security.{
  store_of, terminate_sessions, reset_two_factor, unlock_user,
}
use argus_monitor.Backend.Users.Security.Rows.{
  reset_row, unlocked_row, bumped_row, keep_terminate, keep_reset_found, keep_unlock_found,
}
use argus_monitor.Backend.Users.{
  CreateUserInput, UpdateUserInput, get_user, set_user_groups, guard, remove_user, delete_found,
  delete_user, set_user_attributes, new_user, groups_if, attributes_if, create_user, patched,
  update_found, update_user,
}

-- The operations of the administration.
pub data UserOp : Type 0 where
  create : CreateUserInput → String → UserOp
  update : String → UpdateUserInput → UserOp
  delete : String → UserOp
  put_groups : String → List String → UserOp
  put_attributes : String → List Attribute → UserOp
  reset_second unlock end_sessions : String → UserOp

-- A refused operation leaves the tables as they are.
abbrev pub settled : Directory → Guarded (Directory × Bool) → Directory
settled dir (ok (next, done)) = next
settled dir (protected_entity what) = dir

find-append_some :
    (p : UserRow → Bool) (xs ys : List UserRow) (x : UserRow)
    → find p xs ≡ some x
    → find p (xs ++ ys) ≡ some x
find-append_some p [] ys x h = ground arith
find-append_some p (y ∷ xs) ys x h = elim (Bool-cases (p y)) [
  | inl hit ↦ rw hit (rw hit at h)
  | inr miss ↦ rw miss (find-append_some p xs ys x (rw miss at h))
]

find-filter :
    (p q : UserRow → Bool) (xs : List UserRow)
    → ((x : UserRow) → p x ≡ true → q x ≡ true)
    → find p (filter q xs) ≡ find p xs
find-filter p q [] h = refl
find-filter p q (x ∷ xs) h = ground (arith, h x, find-filter p q xs h)

-- What an operation may do to a protected user: only a reset, an unlock and the end of its sessions
-- change it.
abbrev pub touched_by : UserOp → ℕ → UserRow → UserRow
touched_by (reset_second id) now row = if id == row.id then reset_row now row else row
touched_by (unlock id) now row = if id == row.id then unlocked_row now row else row
touched_by (end_sessions id) now row = if id == row.id then bumped_row row else row
touched_by (create input id) now row = row
touched_by (update id patch) now row = row
touched_by (delete id) now row = row
touched_by (put_groups id groups) now row = row
touched_by (put_attributes id attributes) now row = row

abbrev pub touched : List (UserOp × ℕ) → UserRow → UserRow
touched [] row = row
touched ((op, now) ∷ ops) row = touched ops (touched_by op now row)

-- The columns that tell a protected user and find it.
SameIdentity-touched_by :
    (op : UserOp) (now : ℕ) (row : UserRow)
    → ((touched_by op now row).id ≡ row.id)
      × (((touched_by op now row).is_system || (touched_by op now row).is_owner)
          ≡ (row.is_system || row.is_owner))
SameIdentity-touched_by (reset_second id) now row = elim (Bool-cases (id == row.id)) [
  | inl same ↦ rw same (refl, refl)
  | inr other ↦ rw other (refl, refl)
]
SameIdentity-touched_by (unlock id) now row = elim (Bool-cases (id == row.id)) [
  | inl same ↦ rw same (refl, refl)
  | inr other ↦ rw other (refl, refl)
]
SameIdentity-touched_by (end_sessions id) now row = elim (Bool-cases (id == row.id)) [
  | inl same ↦ rw same (refl, refl)
  | inr other ↦ rw other (refl, refl)
]
SameIdentity-touched_by (create input id) now row = (refl, refl)
SameIdentity-touched_by (update id patch) now row = (refl, refl)
SameIdentity-touched_by (delete id) now row = (refl, refl)
SameIdentity-touched_by (put_groups id groups) now row = (refl, refl)
SameIdentity-touched_by (put_attributes id attributes) now row = (refl, refl)

module _ (hash_password : String → String) (trim : String → String) where
  abbrev pub apply : Directory → UserOp → ℕ → Directory
  apply dir (create input id) now = create_user hash_password trim dir input id now
  apply dir (update id patch) now = settled dir (update_user hash_password trim dir id patch now)
  apply dir (delete id) now = settled dir (delete_user dir id)
  apply dir (put_groups id groups) now = set_user_groups dir id groups
  apply dir (put_attributes id attributes) now =
      set_user_attributes hash_password trim dir id attributes
  apply dir (reset_second id) now = (reset_two_factor dir id now).0
  apply dir (unlock id) now = (unlock_user dir id now).0
  apply dir (end_sessions id) now = (terminate_sessions (store_of dir) id now).0.directory

  abbrev pub run : Directory → List (UserOp × ℕ) → Directory
  run dir [] = dir
  run dir ((op, now) ∷ ops) = run (apply dir op now) ops

  users-groups_if :
      (dir : Directory) (id : String) (groups : List String)
      → (groups_if hash_password trim dir id groups).users ≡ dir.users
  unfolding set_user_groups
  users-groups_if dir id [] = refl
  users-groups_if dir id (g ∷ gs) = refl

  users-attributes_if :
      (dir : Directory) (id : String) (attrs : List Attribute)
      → (attributes_if hash_password trim dir id attrs).users ≡ dir.users
  unfolding set_user_attributes
  users-attributes_if dir id [] = refl
  users-attributes_if dir id (a ∷ rest) = refl

  users-create :
      (dir : Directory) (input : CreateUserInput) (id : String) (now : ℕ)
      → (create_user hash_password trim dir input id now).users
        ≡ (dir.users ++ new_user hash_password trim input id now ∷ [])
  unfolding create_user
  users-create dir input id now =
      users-attributes_if _ id input.attributes ∙ users-groups_if _ id input.group_ids

  module _ (row : UserRow) (shielded : (row.is_system || row.is_owner) ≡ true) where
    -- The row is found by its id.
    abbrev Kept : Directory → Type 0
    Kept dir = get_user dir row.id ≡ some row

    refused : guard row ≡ protected_entity row.username
    unfolding assert_mutable
    refused = rw shielded refl

    keep_create :
        (dir : Directory) (input : CreateUserInput) (id : String) (now : ℕ)
        → Kept dir
        → Kept (create_user hash_password trim dir input id now)
    unfolding get_user
    keep_create dir input id now k =
        ap (find (λ u. u.id == row.id)) (users-create dir input id now)
        ∙ find-append_some (λ u. u.id == row.id) dir.users _ row k

    keep_guard :
        (dir next : Directory) (u : UserRow)
        → Kept dir
        → Kept next
        → Kept (settled dir (guard u >> ok (next, true)))
    unfolding assert_mutable
    keep_guard dir next u k n = elim (Bool-cases (u.is_system || u.is_owner)) [
      | inl shut ↦ rw shut k
      | inr free ↦ rw free n
    ]

    other_id : (id : String) → (id == row.id) ≡ false → (row.id == id) ≡ false
    other_id id other = ground (arith, eq_iff id row.id, eq_iff row.id id)

    keep_update_found :
        (dir : Directory) (id : String) (patch : UpdateUserInput) (now : ℕ) (o : Option UserRow)
        → Kept dir
        → (id == row.id) ≡ false
        → Kept (settled dir (update_found hash_password trim dir id patch now o))
    unfolding get_user
    keep_update_found dir id patch now none k other = k
    keep_update_found dir id patch now (some u) k other = keep_guard dir _ u k (
        find-update_where (λ x. x.id == row.id) (λ x. x.id == id)
          (patched hash_password trim patch now) dir.users (λ x. refl)
        ∙ ap (adjust (λ x. x.id == id) (patched hash_password trim patch now)) k
        ∙ rw (other_id id other) refl)

    keep_update :
        (dir : Directory) (id : String) (patch : UpdateUserInput) (now : ℕ)
        → Kept dir
        → Kept (settled dir (update_user hash_password trim dir id patch now))
    unfolding update_user
    keep_update dir id patch now k = elim (Bool-cases (id == row.id)) [
      | inl same ↦ rw ((eq_iff id row.id).0 same, k, refused) k
      | inr other ↦ keep_update_found dir id patch now (get_user dir id) k other
    ]

    keep_delete_found :
        (dir : Directory) (id : String) (o : Option UserRow)
        → Kept dir
        → (id == row.id) ≡ false
        → Kept (settled dir (delete_found dir id o))
    unfolding get_user remove_user
    keep_delete_found dir id none k other = k
    keep_delete_found dir id (some u) k other = keep_guard dir _ u k (
        find-filter (λ x. x.id == row.id) (λ x. not (x.id == id)) dir.users
          (λ x same. ground (arith, eq_iff x.id row.id, eq_iff x.id id, eq_iff id row.id))
        ∙ k)

    keep_delete :
        (dir : Directory) (id : String) → Kept dir → Kept (settled dir (delete_user dir id))
    unfolding delete_user
    keep_delete dir id k = elim (Bool-cases (id == row.id)) [
      | inl same ↦ rw ((eq_iff id row.id).0 same, k, refused) k
      | inr other ↦ keep_delete_found dir id (get_user dir id) k other
    ]

    keep_apply :
        (dir : Directory) (op : UserOp) (now : ℕ)
        → Kept dir
        → get_user (apply dir op now) row.id ≡ some (touched_by op now row)
    unfolding set_user_groups set_user_attributes get_user reset_two_factor unlock_user
    keep_apply dir (create input id) now k = keep_create dir input id now k
    keep_apply dir (update id patch) now k = keep_update dir id patch now k
    keep_apply dir (delete id) now k = keep_delete dir id k
    keep_apply dir (put_groups id groups) now k = k
    keep_apply dir (put_attributes id attributes) now k = k
    keep_apply dir (reset_second id) now k =
        keep_reset_found dir id now row (get_user dir id) refl k
    keep_apply dir (end_sessions id) now k = keep_terminate dir id now row k
    keep_apply dir (unlock id) now k = keep_unlock_found dir id now row (get_user dir id) refl k

  -- Whatever the administration does, in any order, the row of a system user or an owner that is
  -- found by its id stays, column by column, but for three operations that name that id: a reset of
  -- the second factor takes it away, adds one to the token version and clears the lock; an unlock
  -- clears the lock; the end of all sessions adds one to the token version. The first two set the time
  -- of the update.
  pub run-keeps_protected :
      (row : UserRow) (ops : List (UserOp × ℕ)) (dir : Directory)
      → (row.is_system || row.is_owner) ≡ true
      → get_user dir row.id ≡ some row
      → get_user (run dir ops) row.id ≡ some (touched ops row)
  run-keeps_protected row [] dir shielded k = k
  run-keeps_protected row ((op, now) ∷ ops) dir shielded k =
      let (own, kind) = SameIdentity-touched_by op now row in
      subst
        (λ i. get_user (run (apply dir op now) ops) i ≡ some (touched ops (touched_by op now row)))
        own
        (run-keeps_protected (touched_by op now row) ops (apply dir op now) (kind ∙ shielded) (
          subst (λ i. get_user (apply dir op now) i ≡ some (touched_by op now row)) (sym own)
            (keep_apply row shielded dir op now k)))
