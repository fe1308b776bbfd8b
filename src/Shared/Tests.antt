-- ===== src/Shared/Tests.antt =====
-- Concrete runs of packages/shared/src/backup.ts.
use argus_monitor.Prelude.{ℕ, ◌≡◌, refl, String, List, [], ◌∷◌, sort_by}
use argus_monitor.Prelude.Int.{pos}
use argus_monitor.Shared.Backups.{
  BackupScope, scope_all, scope_config, BackupMeta, BackupRetention, date_of, week_key, day_key,
  backups_to_prune,
}
use argus_monitor.Shared.Backups.Settled.{survivors, backups_to_prune-survivors}

abbrev copy : String → ℕ → BackupScope → BackupMeta
copy name created_at scope = record {
  name = name;
  size = 1;
  created_at = created_at;
  scope = scope;
}

-- Two copies of the first day of 2027, one of the day before, and one of the configuration.
abbrev copies : List BackupMeta
copies =
    copy "morning" 1798800000000 scope_all
    ∷ copy "noon" 1798804800000 scope_all
    ∷ copy "eve" 1798718400000 scope_all
    ∷ copy "config" 1798718400000 scope_config
    ∷ []

abbrev policy : BackupRetention
policy = record {
  keep_all = pos 1;
  keep_config = pos 0;
  keep_data = pos 3;
  daily = pos 2;
  weekly = pos 0;
  monthly = pos 0;
}

-- The first of January 2027 is a Friday, of the last week of 2026.
new_year : week_key 1798804800000 ≡ 202653
unfolding date_of
new_year = refl

first_of_january : day_key 1798804800000 ≡ 20270101
unfolding date_of
first_of_january = refl

pruned : backups_to_prune copies policy ≡ "morning" ∷ []
unfolding backups_to_prune sort_by
pruned = refl

backups_to_prune-survivors_example : backups_to_prune (survivors copies policy) policy ≡ []
backups_to_prune-survivors_example = backups_to_prune-survivors copies policy
