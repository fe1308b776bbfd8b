-- ===== src/Backend/Mib/Tokens.antt =====
-- What the tokens of a definition need to have a value, and what a new name changes.
use argus_monitor.Prelude.{
  is_empty, ◌≡◌, inl, inr, refl, arith, String, none, some, List, [], ◌∷◌, ◌++◌, Bool, true, false,
  not, ◌&&◌, ◌||◌, ◌==◌, eq_iff, is_null, all, All, In, Option-cases, code_points, if◌then◌else◌,
}
use argus_monitor.Backend.Mib.{
  Oid, Names, base, lookup, has, assign, Raw, is_number, named_number, is_symbol, token_value,
  resolve_from, resolve_tokens,
}

-- A number, a named number or a symbol.
abbrev pub is_token : String → Bool
is_token t =
    is_number (code_points t)
    || not (is_null (named_number (code_points t)))
    || is_symbol (code_points t)

-- A symbol that is not a number.
abbrev pub is_reference : String → Bool
is_reference t = not (is_number (code_points t)) && is_null (named_number (code_points t))

-- The names that a chain of definitions leads from to the known roots.
pub data Defined (raws : List Raw) : String → Type 0 where
  root : {n : String} → has base n ≡ true → Defined raws n
  by_raw :
      {n : String} (r : Raw)
      → In r raws
      → r.name ≡ n
      → is_empty r.tokens ≡ false
      → all is_token r.tokens ≡ true
      → ((s : String) → In s r.tokens → is_reference s ≡ true → Defined raws s)
      → Defined raws n

-- A token that has a value.
abbrev pub known : Names → String → Bool
known names t = is_token t && (not (is_reference t) || has names t)

token_value-known :
    (names : Names) (t : String) → is_null (token_value names t) ≡ not (known names t)
unfolding token_value
token_value-known names t = ground arith

abbrev pub IsFull : Names → Type 0
IsFull = All (λ e. is_empty e.1 ≡ false)

lookup-full :
    (names : Names) (n : String) (oid : Oid)
    → IsFull names
    → lookup names n ≡ some oid
    → is_empty oid ≡ false
lookup-full [] n oid f h = ground arith
lookup-full ((key, o) ∷ names) n oid f h = ground (arith, lookup-full names n oid f.1)

token_value-full :
    (names : Names) (t : String) (oid : Oid)
    → IsFull names
    → token_value names t ≡ some oid
    → is_empty oid ≡ false
unfolding token_value
token_value-full names t oid f h = ground (arith, lookup-full names t oid f)

is_empty-append : (xs ys : Oid) → is_empty ys ≡ false → is_empty (xs ++ ys) ≡ false
is_empty-append [] ys h = h
is_empty-append (x ∷ xs) ys h = refl

pub resolve_from-known :
    (names : Names) (tokens : List String) (out : Oid)
    → IsFull names
    → is_null (resolve_from names tokens out)
      ≡ not (all (known names) tokens && not (is_empty tokens && is_empty out))
unfolding resolve_from
resolve_from-known names [] out f = ground arith
resolve_from-known names (t ∷ tokens) out f = elim (Option-cases (token_value names t)) [
  | inl missing ↦ rw (missing, resolve_from) (ground (arith, token_value-known names t))
  | inr (part, found) ↦
      rw (found, resolve_from)
        (ground (
          arith,
          token_value-known names t,
          resolve_from-known names tokens (out ++ part) f,
          is_empty-append out part (token_value-full names t part f found),
        ))
]

pub resolve_from-full :
    (names : Names) (tokens : List String) (out oid : Oid)
    → IsFull names
    → resolve_from names tokens out ≡ some oid
    → is_empty oid ≡ false
unfolding resolve_from
resolve_from-full names [] out oid f e = ground arith
resolve_from-full names (t ∷ tokens) out oid f e = elim (Option-cases (token_value names t)) [
  | inl missing ↦ absurd (let h = (rw (missing, resolve_from) at e) in ground arith)
  | inr (part, found) ↦
      resolve_from-full names tokens (out ++ part) oid f (rw (found, resolve_from) at e)
]

pub lookup-assign :
    (names : Names) (n m : String) (oid : Oid)
    → has names n ≡ false
    → lookup (assign names n oid) m ≡ (if n == m then some oid else lookup names m)
lookup-assign [] n m oid h = refl
lookup-assign ((key, o) ∷ names) n m oid h =
    ground (arith, eq_iff key m, eq_iff key n, eq_iff n m, lookup-assign names n m oid)

pub IsFull-assign :
    (names : Names) (n : String) (oid : Oid)
    → is_empty oid ≡ false
    → IsFull names
    → IsFull (assign names n oid)
IsFull-assign [] n oid h f = (h, tt)
IsFull-assign (e ∷ names) n oid h f = (f.0, IsFull-assign names n oid h f.1)

-- Every name that is known stays known with its OID.
abbrev pub Extends : Names → Names → Type 0
Extends names next = (n : String) (oid : Oid) → lookup names n ≡ some oid → lookup next n ≡ some oid

pub resolve_tokens-none :
    (names : Names) (r : Raw)
    → resolve_tokens r.tokens names ≡ none
    → is_null (resolve_from names r.tokens []) ≡ true
unfolding resolve_tokens
resolve_tokens-none names r h = rw h
