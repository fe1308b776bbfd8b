-- ===== src/Backend/Mib.antt =====
-- MIB modules, apps/backend/src/services/mib.ts: comments, and the resolution of the definitions that
-- a module makes to numeric OIDs. What the regular expression ASSIGN_RE finds in the text, a name, its
-- brace tokens, a unit and a description, is the list of `Raw` that the resolution starts from. A
-- number is unbounded. An OID is the list of its numbers, and its text the list of its code points.
pub mod Comments
pub mod Tokens
pub mod Rounds
pub mod Resolution
pub mod Values
use argus_monitor.Prelude.{
  ℕ, zero, suc, String, Option, none, some, List, [], ◌∷◌, ◌++◌, map, Bool, true, false, ◌&&◌, ◌||◌,
  not, ◌==◌, find, length, leb, nat_eq, is_null, is_digit, all, number_of, to_text, code_points,
  same_text, is_empty, if◌then◌else◌,
}

-- Where the loop of `stripComments` is: outside, in a string, in a comment, or on the second dash of
-- the pair that opens or closes a comment.
pub data Mode : Type 0 where
  outside in_string opening in_comment closing : Mode

-- `src[i + 1] === "-"`.
abbrev pub starts_dash : List ℕ → Bool
starts_dash [] = false
starts_dash (c ∷ s) = nat_eq c 45

unfoldable pub next_mode : Mode → ℕ → List ℕ → Mode
next_mode outside c s =
    if nat_eq c 34 then in_string else if nat_eq c 45 && starts_dash s then opening else outside
next_mode in_string c s = if nat_eq c 34 then outside else in_string
next_mode opening c s = in_comment
next_mode in_comment c s =
    if nat_eq c 10 then outside else if nat_eq c 45 && starts_dash s then closing else in_comment
next_mode closing c s = outside

unfoldable pub is_kept : Mode → ℕ → List ℕ → Bool
is_kept outside c s = not (nat_eq c 45 && starts_dash s)
is_kept in_string c s = true
is_kept in_comment c s = nat_eq c 10
is_kept _ c s = false

unfoldable pub strip_from : Mode → List ℕ → List ℕ
unfolding next_mode is_kept
strip_from mode [] = []
strip_from mode (c ∷ s) =
    let rest = strip_from (next_mode mode c s) s in if is_kept mode c s then c ∷ rest else rest

unfoldable pub strip_comments : List ℕ → List ℕ
unfolding strip_from
strip_comments src = strip_from outside src

abbrev pub Oid : Type 0
Oid = List ℕ

-- The map of the names that are resolved.
abbrev pub Names : Type 0
Names = List (String × Oid)

abbrev pub base : Names
base =
    ("iso", 1 ∷ [])
    ∷ ("org", 1 ∷ 3 ∷ [])
    ∷ ("dod", 1 ∷ 3 ∷ 6 ∷ [])
    ∷ ("internet", 1 ∷ 3 ∷ 6 ∷ 1 ∷ [])
    ∷ ("directory", 1 ∷ 3 ∷ 6 ∷ 1 ∷ 1 ∷ [])
    ∷ ("mgmt", 1 ∷ 3 ∷ 6 ∷ 1 ∷ 2 ∷ [])
    ∷ ("mib-2", 1 ∷ 3 ∷ 6 ∷ 1 ∷ 2 ∷ 1 ∷ [])
    ∷ ("transmission", 1 ∷ 3 ∷ 6 ∷ 1 ∷ 2 ∷ 1 ∷ 10 ∷ [])
    ∷ ("experimental", 1 ∷ 3 ∷ 6 ∷ 1 ∷ 3 ∷ [])
    ∷ ("private", 1 ∷ 3 ∷ 6 ∷ 1 ∷ 4 ∷ [])
    ∷ ("enterprises", 1 ∷ 3 ∷ 6 ∷ 1 ∷ 4 ∷ 1 ∷ [])
    ∷ ("security", 1 ∷ 3 ∷ 6 ∷ 1 ∷ 5 ∷ [])
    ∷ ("snmpV2", 1 ∷ 3 ∷ 6 ∷ 1 ∷ 6 ∷ [])
    ∷ ("snmpModules", 1 ∷ 3 ∷ 6 ∷ 1 ∷ 6 ∷ 3 ∷ [])
    ∷ ("host", 1 ∷ 3 ∷ 6 ∷ 1 ∷ 2 ∷ 1 ∷ 25 ∷ [])
    ∷ []

-- `map.get(name)`.
abbrev pub lookup : Names → String → Option Oid
lookup [] name = none
lookup ((key, oid) ∷ names) name = if key == name then some oid else lookup names name

abbrev pub has : Names → String → Bool
has names name = not (is_null (lookup names name))

-- `map.set(name, oid)`, of a name that the map has not.
abbrev pub assign : Names → String → Oid → Names
assign names name oid = names ++ (name, oid) ∷ []

pub record Raw : Type 0 where
  pub name : String
  pub tokens : List String
  pub unit : Option String
  pub description : Option String

pub record MibObject : Type 0 where
  pub oid : List ℕ
  pub name : String
  pub unit : Option String
  pub description : Option String

abbrev pub is_letter : ℕ → Bool
is_letter c = leb 65 c && leb c 90 || leb 97 c && leb c 122

-- The class `[\w-]`.
abbrev pub is_word : ℕ → Bool
is_word c = is_letter c || is_digit c || nat_eq c 95 || nat_eq c 45

-- `/^\d+$/`.
unfoldable pub is_number : List ℕ → Bool
is_number [] = false
is_number (c ∷ s) = all is_digit (c ∷ s)

-- `/^[a-zA-Z][\w-]*$/`.
unfoldable pub is_symbol : List ℕ → Bool
is_symbol [] = false
is_symbol (c ∷ s) = is_letter c && all is_word s

-- The rest of `\((\d+)\)$` behind the bracket, with the digits so far.
unfoldable pub closed : List ℕ → List ℕ → Option ℕ
closed digits [] = none
closed digits (c ∷ s) =
    let more = closed (digits ++ c ∷ []) s in
    if is_digit c
    then more
    else if nat_eq c 41 && is_empty s && not (is_empty digits)
    then some (number_of digits)
    else none

-- The rest of `/^[\w-]+\((\d+)\)$/` behind the first character.
unfoldable pub named_rest : List ℕ → Option ℕ
unfolding closed
named_rest [] = none
named_rest (c ∷ s) =
    let more = named_rest s in if is_word c then more else if nat_eq c 40 then closed [] s else none

-- `iso(1)`.
unfoldable pub named_number : List ℕ → Option ℕ
unfolding named_rest
named_number [] = none
named_number (c ∷ s) = if is_word c then named_rest s else none

-- The numbers that a token stands for, or `none`: a symbol that is not known yet, or no token.
unfoldable pub token_value : Names → String → Option Oid
unfolding is_number named_number is_symbol
token_value names token =
    if is_number (code_points token)
    then some (number_of (code_points token) ∷ [])
    else elim (named_number (code_points token)) [
      | some n ↦ some (n ∷ [])
      | none ↦ if is_symbol (code_points token) then lookup names token else none
    ]

-- The loop over the tokens, with the numbers so far.
unfoldable pub resolve_from : Names → List String → Oid → Option Oid
unfolding token_value
resolve_from names [] out = if is_empty out then none else some out
resolve_from names (token ∷ tokens) out = elim (token_value names token) [
  | none ↦ none
  | some part ↦ resolve_from names tokens (out ++ part)
]

unfoldable pub resolve_tokens : List String → Names → Option Oid
unfolding resolve_from
resolve_tokens tokens names = resolve_from names tokens []

-- The body of the `for` loop: the names, and whether they changed.
unfoldable pub settle_one : Raw → Names × Bool → Names × Bool
unfolding resolve_tokens
settle_one r (names, changed) =
    if has names r.name then (names, changed) else elim (resolve_tokens r.tokens names) [
      | none ↦ (names, changed)
      | some oid ↦ (assign names r.name oid, true)
    ]

unfoldable pub settle_round : List Raw → Names × Bool → Names × Bool
unfolding settle_one
settle_round [] state = state
settle_round (r ∷ raws) state = settle_round raws (settle_one r state)

-- `while (changed)`, with fuel.
unfoldable pub settle : ℕ → List Raw → Names → Option Names
unfolding settle_round
settle zero raws names = none
settle (suc fuel) raws names =
    let (next, changed) = settle_round raws (names, false) in
    elim changed [ true ↦ settle fuel raws next | false ↦ some next ]

-- `arr.join(".")`.
unfoldable pub join : Oid → List ℕ
unfolding to_text
join [] = []
join (n ∷ []) = to_text n
join (n ∷ m ∷ oid) = to_text n ++ 46 ∷ join (m ∷ oid)

-- `byOid.set(o.oid, o)`: the value of a key that is there is replaced in its place.
unfoldable pub set_object : MibObject → List MibObject → List MibObject
unfolding same_text
set_object o [] = o ∷ []
set_object o (p ∷ objects) = if same_text p.oid o.oid then o ∷ objects else p ∷ set_object o objects

abbrev pub object_of : Raw → Oid → MibObject
object_of r oid = record {
  oid = join oid;
  name = r.name;
  unit = r.unit;
  description = r.description;
}

-- The loop that collects the objects, and counts the definitions that are resolved.
unfoldable pub collect : Names → List Raw → List MibObject × ℕ → List MibObject × ℕ
unfolding join set_object
collect names [] state = state
collect names (r ∷ raws) (objects, resolved) = elim (lookup names r.name) [
  | none ↦ collect names raws (objects, resolved)
  | some oid ↦ collect names raws (set_object (object_of r oid) objects, suc resolved)
]

pub record Parsed : Type 0 where
  pub objects : List MibObject
  pub parsed : ℕ
  pub resolved : ℕ

abbrev pub parsed_of : List Raw → Option Names → Option Parsed
parsed_of raws none = none
parsed_of raws (some names) = some (
    let (objects, resolved) = collect names raws ([], 0) in
    record { objects = objects; parsed = length raws; resolved = resolved })

-- `parseMib`, from what the regular expression finds. A round that changes the names resolves a
-- definition more, so one round more than there are definitions is enough.
unfoldable pub parse_mib : List Raw → Option Parsed
unfolding settle collect
parse_mib raws = parsed_of raws (settle (suc (length raws)) raws base)
