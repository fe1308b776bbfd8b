-- ===== src/Backend/Tests/Administration.antt =====
-- Runs of the administration of users, roles and wallboards.
use argus_monitor.Prelude.{
  ℕ, ◌≡◌, refl, sym, ap, ◌∙◌, none, some, List, [], ◌∷◌, true, false, includes, here, there,
}
use argus_monitor.Backend.Schema.{WallLayoutRow}
use argus_monitor.Backend.Users.{get_user}
use argus_monitor.Backend.Users.Protected.{
  UserOp, update, delete, reset_second, unlock, end_sessions, run, run-keeps_protected,
}
use argus_monitor.Backend.Users.Security.Rows.{bumped_row, reset_row, unlocked_row}
use argus_monitor.Backend.Roles.{Admin, get_role_permission_keys, set_role_permissions}
use argus_monitor.Backend.Roles.Permissions.{UniqueIds, set_role_permissions-keys}
use argus_monitor.Backend.Wallboards.{Layouts}
use argus_monitor.Backend.Tests.{root_user, directory, apart}

abbrev attack : List (UserOp × ℕ)
attack =
    (
      update "u0"
          (record { display_name = none; email = none; disabled = some true; password = none }),
      3,
    )
    ∷ (delete "u0", 4)
    ∷ (unlock "u0", 5)
    ∷ (reset_second "u0", 6)
    ∷ (end_sessions "u0", 7)
    ∷ (unlock "u1", 8)
    ∷ []

run-keeps_protected_example :
    get_user (run (λ p. p) (λ s. s) directory attack) "u0"
    ≡ some (bumped_row (reset_row 6 (unlocked_row 5 root_user)))
unfolding get_user
run-keeps_protected_example =
    run-keeps_protected (λ p. p) (λ s. s) root_user attack directory refl refl

abbrev admin : Admin
admin = record { directory = directory; roles = []; groups = [] }

directory-UniqueIds : UniqueIds directory.permissions
directory-UniqueIds p q (here i) (here j) e = ap (λ x. x.key) i ∙ sym (ap (λ x. x.key) j)
directory-UniqueIds p q (here i) (there (here j)) e =
    absurd (apart "p1" "p2" refl (sym (ap (λ x. x.id) i) ∙ e ∙ ap (λ x. x.id) j))
directory-UniqueIds p q (there (here i)) (here j) e =
    absurd (apart "p2" "p1" refl (sym (ap (λ x. x.id) i) ∙ e ∙ ap (λ x. x.id) j))
directory-UniqueIds p q (there (here i)) (there (here j)) e =
    ap (λ x. x.key) i ∙ sym (ap (λ x. x.key) j)
directory-UniqueIds p q (there (there m)) n e = elim m [ ]
directory-UniqueIds p q m (there (there n)) e = elim n [ ]

set_role_permissions-keys_example :
    includes
      (get_role_permission_keys
        (set_role_permissions admin "r1" ("agents:write" ∷ "none" ∷ []))
        "r1")
      "agents:write"
    ≡ true
set_role_permissions-keys_example =
    set_role_permissions-keys admin "r1" ("agents:write" ∷ "none" ∷ []) "r1" "agents:write"
      directory-UniqueIds

abbrev board : WallLayoutRow
board = record {
  id = "b1";
  name = "Main";
  description = "";
  is_default = true;
  is_system = false;
  layout = "{}";
  rotate_sec = 10;
  template = "flex";
  panel_config = "{}";
  created_at = 0;
  updated_at = 0;
}

abbrev boards : Layouts
boards = board ∷ record board { id = "b2"; is_default = false } ∷ []
