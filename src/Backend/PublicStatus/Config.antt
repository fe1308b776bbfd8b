-- ===== src/Backend/PublicStatus/Config.antt =====
-- The configuration of the public page, apps/backend/src/services/public-status.ts: what is read after
-- it was written.
use argus_monitor.Prelude.{
  ◌≡◌, refl, ap, ◌∙◌, inl, inr, Option, none, some, List, [], ◌∷◌, true, ◌==◌, find, Bool-cases,
  is_empty, if◌then◌else◌,
}
use argus_monitor.Core.Totp.{trim}
use argus_monitor.Core.Totp.Trim.{trim_idem, trim_nil}
use argus_monitor.Backend.PublicStatus.{
  info, maintenance, incident, NoticeLevel, PublicNotice, PublicConfig, PublicConfigRow,
  normalize_notice_level, level_text, or_blank, notice_of, config_of, get_public_config,
  stored_level, stored_message, row_of, put_row, update_public_config,
}

-- A notice without white space around it, or none if nothing is left.
abbrev pub tidy_notice : Option PublicNotice → Option PublicNotice
tidy_notice none = none
tidy_notice (some n) =
    if is_empty (trim n.message) then none else some (record n { message = trim n.message })

abbrev pub tidy : PublicConfig → PublicConfig
tidy dto = record dto {
  description = some (or_blank dto.description);
  notice = tidy_notice dto.notice;
}

level_lem : (l : NoticeLevel) → normalize_notice_level (some (level_text l)) ≡ l
level_lem info = refl
level_lem maintenance = refl
level_lem incident = refl

notice_lem :
    (n : Option PublicNotice) → notice_of (stored_level n) (stored_message n) ≡ tidy_notice n
notice_lem none = let e = trim_nil in rw e refl
notice_lem (some n) =
    let again = trim_idem n.message in
    let level = level_lem n.level in
    elim (Bool-cases (is_empty (trim n.message))) [
      | inl h ↦ let e = trim_nil in rw (h, e) refl
      | inr h ↦ rw (h, again, h, level) refl
    ]

put_row-find :
    (row : PublicConfigRow) (rows : List PublicConfigRow)
    → (row.id == "default") ≡ true
    → find (λ r. r.id == "default") (put_row row rows) ≡ some row
unfolding put_row
put_row-find row [] h = rw h refl
put_row-find row (r ∷ rows) h =
    let ih = put_row-find row rows h in
    elim (Bool-cases (r.id == "default")) [ inl e ↦ rw (e, h) refl | inr e ↦ rw (e, e) ih ]

put_row_idem :
    (row : PublicConfigRow) (rows : List PublicConfigRow)
    → (row.id == "default") ≡ true
    → put_row row (put_row row rows) ≡ put_row row rows
unfolding put_row
put_row_idem row [] h = rw h refl
put_row_idem row (r ∷ rows) h =
    let ih = put_row_idem row rows h in
    elim (Bool-cases (r.id == "default")) [
      | inl e ↦ rw (e, put_row, h) refl
      | inr e ↦ rw (e, put_row, e, ih) refl
    ]

config_of-row_of : (dto : PublicConfig) → config_of (some (row_of dto)) ≡ tidy dto
config_of-row_of dto = ap (λ n. record (tidy dto) { notice = n }) (notice_lem dto.notice)

stored_level-tidy : (n : Option PublicNotice) → stored_level (tidy_notice n) ≡ stored_level n
stored_level-tidy none = refl
stored_level-tidy (some n) =
    let again = trim_idem n.message in
    elim (Bool-cases (is_empty (trim n.message))) [
      | inl h ↦ rw h refl
      | inr h ↦ rw (h, again, h) refl
    ]

stored_message-tidy : (n : Option PublicNotice) → stored_message (tidy_notice n) ≡ stored_message n
stored_message-tidy none = refl
stored_message-tidy (some n) =
    let again = trim_idem n.message in
    elim (Bool-cases (is_empty (trim n.message))) [
      | inl h ↦ rw h refl
      | inr h ↦ rw (h, again, h) refl
    ]

row_of-tidy : (dto : PublicConfig) → row_of (tidy dto) ≡ row_of dto
row_of-tidy dto =
    ap (λ l. record (row_of (tidy dto)) { notice_level = l }) (stored_level-tidy dto.notice)
    ∙ ap (λ m. record (row_of dto) { notice_message = m }) (stored_message-tidy dto.notice)

-- A configuration that was saved is read back as it was given, but with a description, and with the
-- white space around the message of its notice gone, and without a notice that is blank; to save what
-- was read back changes nothing.
pub get_public_config-update_public_config :
    (configs : List PublicConfigRow) (dto : PublicConfig)
    → let once = update_public_config configs dto in
      (get_public_config once ≡ tidy dto)
      × (update_public_config once (get_public_config once) ≡ once)
unfolding get_public_config update_public_config
get_public_config-update_public_config configs dto =
    let found = put_row-find (row_of dto) configs refl in
    let read = ap config_of found ∙ config_of-row_of dto in
    (
      read,
      ap (λ c. put_row (row_of c) (put_row (row_of dto) configs)) read
          ∙ ap (λ r. put_row r (put_row (row_of dto) configs)) (row_of-tidy dto)
          ∙ put_row_idem (row_of dto) configs refl,
    )
