-- ===== src/Core/Audit.antt =====
-- The audit-entry builder and its redaction, packages/core/src/audit.ts. A value of type `unknown` is
-- a JSON-like value or `undefined`; a number is the text that it is written as.
pub mod Redaction
use argus_monitor.Prelude.{
  ℕ, ◌+◌, String, Option, none, some, List, [], ◌∷◌, Bool, true, false, ◌&&◌, ◌||◌, not, any, map,
  code_points, leb, nat_eq, if◌then◌else◌,
}

mutual
  pub data Fields : Type 0 where
    end : Fields
    field : String → Value → Fields → Fields

  pub data Value : Type 0 where
    null undefined : Value
    bool : Bool → Value
    text num : String → Value
    obj : Fields → Value
    arr : Items → Value

  pub data Items : Type 0 where
    cons : Value → Items → Items
    nil : Items

-- The flag `i`: an ASCII letter stands for both of its cases.
unfoldable pub fold_case : ℕ → ℕ
fold_case c = if leb 65 c && leb c 90 then c + 32 else c

unfoldable pub starts : List ℕ → List ℕ → Bool
starts [] s = true
starts (p ∷ ps) [] = false
starts (p ∷ ps) (c ∷ s) = nat_eq (fold_case p) (fold_case c) && starts ps s

-- The alternative matches somewhere in the text.
unfoldable pub contains : List ℕ → List ℕ → Bool
unfolding starts fold_case
contains p [] = starts p []
contains p (c ∷ s) = starts p (c ∷ s) || contains p s

-- The alternatives of SECRET_KEY_PATTERN; `pass(word)?` is two of them.
abbrev pub secret_words : List String
secret_words =
    "pass" ∷ "password" ∷ "secret" ∷ "token" ∷ "key" ∷ "cipher" ∷ "credential" ∷ "authorization"
    ∷ []

-- `SECRET_KEY_PATTERN.test(key)`.
unfoldable pub is_secret_key : String → Bool
unfolding contains
is_secret_key key = any (λ word. contains (code_points word) (code_points key)) secret_words

abbrev pub redacted : Value
redacted = text "[REDACTED]"

-- `val !== null && val !== undefined`.
abbrev pub is_present : Value → Bool
is_present null = false
is_present undefined = false
is_present _ = true

unfoldable mutual
  pub redact : Value → Value
  redact (arr xs) = arr (redact_items xs)
  redact (obj fs) = obj (redact_fields fs)
  redact null = null
  redact undefined = undefined
  redact (bool b) = bool b
  redact (num n) = num n
  redact (text s) = text s

  pub redact_items : Items → Items
  redact_items nil = nil
  redact_items (cons x xs) = cons (redact x) (redact_items xs)

  pub redact_fields : Fields → Fields
  redact_fields end = end
  redact_fields (field key val fs) =
      field key (if is_secret_key key && is_present val then redacted else redact val)
        (redact_fields fs)

-- An optional field that is absent or undefined is `none`, one that is null is `some none`.
pub record AuditEntryInput : Type 0 where
  pub actor : Option (Option String)
  pub actor_role : Option (Option String)
  pub action : String
  pub category : String
  pub target : Option (Option String)
  pub before : Value
  pub after : Value
  pub ip : Option (Option String)

pub record AuditEntry : Type 0 where
  pub actor : Option String
  pub actor_role : Option String
  pub action : String
  pub category : String
  pub target : Option String
  pub before : Value
  pub after : Value
  pub ip : Option String

-- `x ?? null`.
abbrev pub or_null : Option (Option String) → Option String
or_null none = none
or_null (some x) = x

-- `x !== undefined ? redact(x) : null`.
abbrev pub recorded : Value → Value
recorded undefined = null
recorded x = redact x

unfoldable pub build_audit_entry : AuditEntryInput → AuditEntry
build_audit_entry input = record {
  actor = or_null input.actor;
  actor_role = or_null input.actor_role;
  action = input.action;
  category = input.category;
  target = or_null input.target;
  before = recorded input.before;
  after = recorded input.after;
  ip = or_null input.ip;
}
