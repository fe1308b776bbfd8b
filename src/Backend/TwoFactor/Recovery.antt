-- ===== src/Backend/TwoFactor/Recovery.antt =====
-- A recovery code is used once.
use argus_monitor.Prelude.{
  ℕ, ◌≡◌, refl, ap, ◌∙◌, arith, String, some, List, [], ◌∷◌, true, ◌&&◌, not, ◌==◌, eq_iff, filter,
  includes,
}
use argus_monitor.Backend.Schema.{UserRow}
use argus_monitor.Backend.Crypto.{Crypto}
use argus_monitor.Backend.Auth.{Store, find_local_user}
use argus_monitor.Backend.Auth.Lookup.{found_after}
use argus_monitor.Backend.TwoFactor.{hashes_of, try_recovery}

includes-filter :
    (s r : String) (hashes : List String)
    → includes (filter (λ h. not (h == s)) hashes) r ≡ (includes hashes r && not (r == s))
includes-filter s r [] = refl
includes-filter s r (h ∷ hashes) =
    ground (arith, includes-filter s r hashes, eq_iff h s, eq_iff h r, eq_iff r s)

module _ (c : Crypto) where
  -- The hash that a submitted recovery code is looked up by.
  abbrev pub hash_of : String → String
  hash_of code = c.sha256 (c.normalize_code code)

  passed_lem :
      (db : Store) (user : UserRow) (code : String) (t : ℕ)
      → (try_recovery c db user code t).1.passed
        ≡ includes (hashes_of user.totp_recovery) (hash_of code)
  unfolding try_recovery
  passed_lem db user code t = ground arith

  abbrev pub spent_row : UserRow → String → ℕ → UserRow
  spent_row user code now = record user {
    totp_recovery = some (filter (λ h. not (h == hash_of code)) (hashes_of user.totp_recovery));
    updated_at = now;
  }

  pub found_spent :
      (db : Store) (name : String) (user : UserRow) (code : String) (now : ℕ)
      → find_local_user db name ≡ some user
      → (try_recovery c db user code now).1.passed ≡ true
      → find_local_user (try_recovery c db user code now).0 name ≡ some (spent_row user code now)
  unfolding try_recovery
  found_spent db name user code now found passed =
      let used = rw (passed_lem db user code now) at passed in
      rw used (found_after db name user _ found (λ u. refl) refl)

  -- A row with the hashes that are left accepts the codes that the former row did, but none with the
  -- hash of the code that was used.
  pub spent_lem :
      (db next_db : Store) (user next : UserRow) (code : String)
      → next.totp_recovery
        ≡ some (filter (λ h. not (h == hash_of code)) (hashes_of user.totp_recovery))
      → (other : String) (t : ℕ)
      → (try_recovery c next_db next other t).1.passed
        ≡ ((try_recovery c db user other t).1.passed && not (hash_of other == hash_of code))
  spent_lem db next_db user next code left other t =
      rw (passed_lem next_db next other t, passed_lem db user other t)
        (ap (λ r. includes (hashes_of r) (hash_of other)) left
          ∙ includes-filter (hash_of code) (hash_of other) (hashes_of user.totp_recovery))
