-- ===== src/Backend/Tests/Mibs.antt =====
-- Runs of the MIB import.
use argus_monitor.Prelude.{
  ℕ, suc, ◌≡◌, ◌↔◌, refl, String, none, some, List, [], ◌∷◌, true, length, code_points, same_text,
  sort_by,
}
use argus_monitor.Backend.Mib.{
  Names, base, has, Raw, MibObject, Parsed, settle, strip_comments, token_value, is_number,
  parse_mib,
}
use argus_monitor.Backend.Mib.Tokens.{Defined}
use argus_monitor.Backend.Mib.Resolution.{settle_iff}
use argus_monitor.Backend.MibStore.{
  Objects, of_others, store, undotted, label_of, list_mibs, resolve_oid_names,
}
use argus_monitor.Backend.MibStore.Import.{with_oid, or_else, imported_row, store-with_oid}
use argus_monitor.Backend.MibStore.Labels.{Labels, label_of-Labels}

-- The second definition refers to one that comes after it, and the last to none.
abbrev qnap : List Raw
qnap =
    record { name = "temp"; tokens = "sys" ∷ "6" ∷ []; unit = some "C"; description = none }
    ∷ record { name = "sys"; tokens = "nas" ∷ "info(2)" ∷ []; unit = none; description = none }
    ∷ record {
      name = "nas";
      tokens = "enterprises" ∷ "24681" ∷ [];
      unit = none;
      description = none;
    }
    ∷ record { name = "lone"; tokens = "unknown" ∷ "1" ∷ []; unit = none; description = none }
    ∷ []

settle_iff_example :
    (names : Names) × (settle (suc (length qnap)) qnap base ≡ some names)
    × ((n : String) → (has names n ≡ true) ↔ Defined qnap n)
settle_iff_example = settle_iff qnap

abbrev temp : MibObject
temp = record {
  oid = code_points "1.3.6.1.4.1.24681.2.6";
  name = "temp";
  unit = some "C";
  description = none;
}

abbrev nas_sys : List MibObject
nas_sys =
    record {
      oid = code_points "1.3.6.1.4.1.24681.2";
      name = "sys";
      unit = none;
      description = none;
    }
    ∷ record {
      oid = code_points "1.3.6.1.4.1.24681";
      name = "nas";
      unit = none;
      description = none;
    }
    ∷ []

-- Three of the four definitions are resolved, in three rounds and one that changes nothing.
abbrev parsed : Parsed
parsed = record { objects = temp ∷ nas_sys; parsed = 4; resolved = 3 }

qnap_parsed : parse_mib qnap ≡ some parsed
unfolding parse_mib
qnap_parsed = refl

named_token : token_value [] "iso(1)" ≡ some (1 ∷ [])
unfolding token_value
named_token = refl

open_token : token_value [] "iso(1" ≡ none
unfolding token_value
open_token = refl

comments_stripped :
    strip_comments (code_points "a -- b -- c \"-- d\" -- e") ≡ code_points "a  c \"-- d\" "
unfolding strip_comments
comments_stripped = refl

-- Another module has the OID of `temp` already.
abbrev objects : Objects
objects =
    record {
      oid = code_points "1.3.6.1.4.1.24681.2.6";
      name = "systemTemperature";
      unit = none;
      description = none;
      mib = "NAS-MIB";
      updated_at = 1;
    }
    ∷ []

store-with_oid_example :
    ((store objects "QNAP-MIB" parsed 7).1.imported ≡ length parsed.objects)
    × (with_oid temp.oid (store objects "QNAP-MIB" parsed 7).0
        ≡ or_else
            (with_oid temp.oid (of_others "QNAP-MIB" objects))
            (imported_row "QNAP-MIB" 7 parsed.objects temp.oid))
store-with_oid_example = store-with_oid objects "QNAP-MIB" parsed 7 temp.oid refl

old_name_kept : with_oid temp.oid (store objects "QNAP-MIB" parsed 7).0 ≡ with_oid temp.oid objects
unfolding store same_text
old_name_kept = refl

abbrev third_row : List ℕ
third_row = code_points ".1.3.6.1.4.1.24681.2.6.3"

third_row_label : label_of objects third_row ≡ some (code_points "systemTemperature #3")
unfolding label_of same_text sort_by is_number
third_row_label = refl

label_of-Labels_example : Labels objects (undotted third_row) (code_points "systemTemperature #3")
label_of-Labels_example =
    label_of-Labels objects third_row (code_points "systemTemperature #3") third_row_label

ancestor_not_named : label_of objects (code_points "1.3.6.1.4.1.24681.2.6.3.1") ≡ none
unfolding label_of same_text sort_by is_number
ancestor_not_named = refl

modules_counted : list_mibs (λ a b. true) objects ≡ ("NAS-MIB", 1) ∷ []
unfolding list_mibs sort_by
modules_counted = refl

names_resolved :
    resolve_oid_names objects (third_row ∷ code_points "1.3" ∷ [])
    ≡ (third_row, code_points "systemTemperature #3") ∷ []
unfolding resolve_oid_names same_text sort_by is_number
names_resolved = refl
