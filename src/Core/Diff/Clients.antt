-- ===== src/Core/Diff/Clients.antt =====
-- Applying the derived events turns the previous set of clients into the current one.
use argus_monitor.Prelude.{
  ◌≡◌, refl, ap, inl, inr, arith, String, List, [], ◌∷◌, ◌++◌, Bool, true, false, not, ◌&&◌, ◌||◌,
  map, includes, Bool-cases, if◌then◌else◌, filter, ◌==◌, eq_iff,
}
use argus_monitor.Core.Diff.{
  ClientEvent, client_connect, client_disconnect, missing_events, diff_clients,
}

-- The client that an event is about.
abbrev client_of : ClientEvent → String
client_of (client_connect c) = c
client_of (client_disconnect c) = c

missing_events_lem :
    (event : String → ClientEvent) (others clients : List String)
    → missing_events event others clients
      ≡ map event (filter (λ c. not (includes others c)) clients)
unfolding missing_events
missing_events_lem event others [] = refl
missing_events_lem event others (c ∷ cs) = ground (arith, missing_events_lem event others cs)

-- What a consumer of the events holds after an event: a set, as a predicate.
abbrev pub apply_client : (String → Bool) → ClientEvent → String → Bool
apply_client held (client_connect c) = λ x. if x == c then true else held x
apply_client held (client_disconnect c) = λ x. if x == c then false else held x

abbrev pub apply_clients : (String → Bool) → List ClientEvent → String → Bool
apply_clients held [] = held
apply_clients held (e ∷ events) = apply_clients (apply_client held e) events

apply_clients-append :
    (held : String → Bool) (xs ys : List ClientEvent) (x : String)
    → apply_clients held (xs ++ ys) x ≡ apply_clients (apply_clients held xs) ys x
apply_clients-append held [] ys x = refl
apply_clients-append held (e ∷ xs) ys x = apply_clients-append (apply_client held e) xs ys x

connects_lem :
    (held : String → Bool) (cs : List String) (x : String)
    → apply_clients held (map client_connect cs) x ≡ (includes cs x || held x)
connects_lem held [] x = refl
connects_lem held (c ∷ cs) x =
    ground (arith, connects_lem (apply_client held (client_connect c)) cs x, eq_iff x c, eq_iff c x)

disconnects_lem :
    (held : String → Bool) (cs : List String) (x : String)
    → apply_clients held (map client_disconnect cs) x ≡ (not (includes cs x) && held x)
disconnects_lem held [] x = refl
disconnects_lem held (c ∷ cs) x =
    ground (
      arith,
      disconnects_lem (apply_client held (client_disconnect c)) cs x,
      eq_iff x c,
      eq_iff c x,
    )

includes-filter :
    (p : String → Bool) (cs : List String) (x : String)
    → includes (filter p cs) x ≡ (p x && includes cs x)
includes-filter p [] x = ground arith
includes-filter p (c ∷ cs) x = elim (Bool-cases (c == x)) [
  | inl same ↦
      let q : p c ≡ p x = ap p ((eq_iff c x).0 same) in ground (arith, includes-filter p cs x)
  | inr other ↦ ground (arith, includes-filter p cs x)
]

-- A consumer that holds the previous clients and applies the events holds exactly the current ones.
pub diff_clients-apply :
    (prev current : List String) (x : String)
    → apply_clients (includes prev) (diff_clients prev current) x ≡ includes current x
unfolding diff_clients
diff_clients-apply prev current x =
    let gone : String → Bool = λ c. not (includes current c) in
    let come : String → Bool = λ c. not (includes prev c) in
    rw
      (
        missing_events_lem client_connect prev current,
        missing_events_lem client_disconnect current prev,
        apply_clients-append (includes prev) (map client_connect (filter come current))
            (map client_disconnect (filter gone prev)) x,
        disconnects_lem (apply_clients (includes prev) (map client_connect (filter come current)))
            (filter gone prev) x,
        connects_lem (includes prev) (filter come current) x,
        includes-filter gone prev x,
        includes-filter come current x,
      )
      (ground arith)
