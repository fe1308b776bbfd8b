-- ===== src/Backend/Auth/Lookup.antt =====
-- How a login looks a user up, after an update of the users.
use argus_monitor.Prelude.{
  ◌≡◌, refl, ap, subst, arith, String, Option, none, some, true, ◌==◌, eq_refl, find,
  find-update_where, some_if,
}
use argus_monitor.Backend.Schema.{UserRow}
use argus_monitor.Backend.Auth.{Store, is_usable, if_usable, find_local_user, update_user}

usable_of :
    (user : UserRow) (o : Option UserRow)
    → if_usable o ≡ some user
    → (o ≡ some user) × (is_usable user ≡ true)
usable_of user none e = ground arith
usable_of user (some u) e =
    let (same, ok) = some_if (is_usable u) u user e in
    (ap some same, subst (λ v. is_usable v ≡ true) same ok)

-- An update that keeps what a login looks a user up by.
pub found_after :
    (db : Store) (name : String) (user : UserRow) (f : UserRow → UserRow)
    → find_local_user db name ≡ some user
    → ((u : UserRow) → ((f u).username ≡ u.username))
    → is_usable (f user) ≡ is_usable user
    → find_local_user (update_user db user.id f) name ≡ some (f user)
unfolding find_local_user
found_after db name user f found same usable =
    let (e, ok) = usable_of user (find (λ u. u.username == name) db.directory.users) found in
    rw
      (
        find-update_where (λ u. u.username == name) (λ u. u.id == user.id) f db.directory.users
            (λ u. ap (λ s. s == name) (same u)),
        e,
        eq_refl user.id,
        usable,
        ok,
      )
      refl
