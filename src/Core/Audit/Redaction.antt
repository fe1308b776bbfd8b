-- ===== src/Core/Audit/Redaction.antt =====
-- No secret survives redaction, and nothing else is changed.
use mathlib.Core.Path.{ap₂}
use argus_monitor.Prelude.{
  ◌≡◌, inl, inr, refl, sym, ap, subst, ◌↔◌, arith, String, true, false, ◌&&◌, Bool-cases,
  if◌then◌else◌,
}
use argus_monitor.Core.Audit.{
  Value, null, undefined, bool, num, text, arr, obj, Items, nil, cons, Fields, end, field,
  is_secret_key, redacted, is_present, redact, redact_items, redact_fields, AuditEntryInput,
  build_audit_entry, recorded,
}

-- At a secret key stands nothing, or the mark; elsewhere the value is itself clean.
abbrev mutual
  pub IsClean : Value → Type 0
  IsClean (arr xs) = IsCleanItems xs
  IsClean (obj fs) = IsCleanFields fs
  IsClean null = Unit {0}
  IsClean undefined = Unit {0}
  IsClean (bool b) = Unit {0}
  IsClean (num n) = Unit {0}
  IsClean (text s) = Unit {0}

  pub IsCleanItems : Items → Type 0
  IsCleanItems nil = Unit {0}
  IsCleanItems (cons x xs) = IsClean x × IsCleanItems xs

  pub IsCleanFields : Fields → Type 0
  IsCleanFields end = Unit {0}
  IsCleanFields (field key val fs) =
      (is_secret_key key && is_present val ≡ true → val ≡ redacted) × IsClean val × IsCleanFields fs

present_absent : (v : Value) → is_present v ≡ false → is_present (redact v) ≡ false
unfolding redact
present_absent null h = refl
present_absent undefined h = refl
present_absent (bool b) h = cc
present_absent (num n) h = cc
present_absent (text t) h = cc
present_absent (arr xs) h = cc
present_absent (obj fs) h = cc

-- The value that is stored under a key.
abbrev stored : String → Value → Value
stored key val = if is_secret_key key && is_present val then redacted else redact val

stored_marked :
    (key : String) (val : Value)
    → (is_secret_key key && is_present (stored key val)) ≡ true
    → stored key val ≡ redacted
stored_marked key val h = elim (Bool-cases (is_secret_key key && is_present val)) [
  | inl secret ↦ rw secret
  | inr plain ↦ absurd (ground (arith, present_absent val))
]

stored-IsClean : (key : String) (val : Value) → IsClean (redact val) → IsClean (stored key val)
stored-IsClean key val h = elim (Bool-cases (is_secret_key key && is_present val)) [
  | inl secret ↦ rw secret tt
  | inr plain ↦ rw plain h
]

mutual
  unfolding redact

  redact-IsClean_any : (v : Value) → IsClean (redact v)
  redact-IsClean_any null = tt
  redact-IsClean_any undefined = tt
  redact-IsClean_any (bool b) = tt
  redact-IsClean_any (num n) = tt
  redact-IsClean_any (text s) = tt
  redact-IsClean_any (arr xs) = redact_items_clean xs
  redact-IsClean_any (obj fs) = redact_fields_clean fs

  redact_items_clean : (xs : Items) → IsCleanItems (redact_items xs)
  redact_items_clean nil = tt
  redact_items_clean (cons x xs) = (redact-IsClean_any x, redact_items_clean xs)

  redact_fields_clean : (fs : Fields) → IsCleanFields (redact_fields fs)
  redact_fields_clean end = tt
  redact_fields_clean (field key val fs) = (
    stored_marked key val,
    stored-IsClean key val (redact-IsClean_any val),
    redact_fields_clean fs,
  )

stored_same :
    (key : String) (val : Value)
    → (is_secret_key key && is_present val ≡ true → val ≡ redacted)
    → redact val ≡ val
    → stored key val ≡ val
stored_same key val marked same = elim (Bool-cases (is_secret_key key && is_present val)) [
  | inl secret ↦ rw secret (sym (marked secret))
  | inr plain ↦ rw plain same
]

mutual
  unfolding redact

  clean_same : (v : Value) → IsClean v → redact v ≡ v
  clean_same null h = refl
  clean_same undefined h = refl
  clean_same (bool b) h = refl
  clean_same (num n) h = refl
  clean_same (text s) h = refl
  clean_same (arr xs) h = ap arr (items_same xs h)
  clean_same (obj fs) h = ap obj (fields_same fs h)

  items_same : (xs : Items) → IsCleanItems xs → redact_items xs ≡ xs
  items_same nil h = refl
  items_same (cons x xs) (h, hs) = ap₂ cons (clean_same x h) (items_same xs hs)

  fields_same : (fs : Fields) → IsCleanFields fs → redact_fields fs ≡ fs
  fields_same end h = refl
  fields_same (field key val fs) (marked, clean, rest) =
      ap₂ (field key) (stored_same key val marked (clean_same val clean)) (fields_same fs rest)

-- Redaction leaves a value as it is exactly when the value is clean, that is, when at any depth
-- every secret key holds null, undefined or the mark.
pub redact-fixed_iff : (v : Value) → (redact v ≡ v) ↔ IsClean v
redact-fixed_iff v = (λ e. subst IsClean e (redact-IsClean_any v), clean_same v)

-- What `redact` returns is clean, and redacting it again changes nothing.
pub redact-IsClean : (v : Value) → IsClean (redact v) × (redact (redact v) ≡ redact v)
redact-IsClean v = (redact-IsClean_any v, clean_same (redact v) (redact-IsClean_any v))

recorded-IsClean : (v : Value) → IsClean (recorded v)
recorded-IsClean undefined = tt
recorded-IsClean null = redact-IsClean_any null
recorded-IsClean (bool b) = redact-IsClean_any (bool b)
recorded-IsClean (num n) = redact-IsClean_any (num n)
recorded-IsClean (text s) = redact-IsClean_any (text s)
recorded-IsClean (arr xs) = redact-IsClean_any (arr xs)
recorded-IsClean (obj fs) = redact-IsClean_any (obj fs)

-- Whatever the caller passes, the two states of an audit entry are clean.
pub build_audit_entry-IsClean :
    (input : AuditEntryInput)
    → IsClean (build_audit_entry input).before × IsClean (build_audit_entry input).after
unfolding build_audit_entry
build_audit_entry-IsClean input = (recorded-IsClean input.before, recorded-IsClean input.after)
