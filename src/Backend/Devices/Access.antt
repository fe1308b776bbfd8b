-- ===== src/Backend/Devices/Access.antt =====
-- A display's token works from its pairing until the device is revoked.
use argus_monitor.Prelude.{
  ℕ, ◌+◌, ◌*◌, ◌≤◌, ◌≡◌, refl, ap, subst, ◌∙◌, arith, String, Option, none, some, Bool-cases, inl,
  inr, true, false, not, ◌==◌, eq_iff, eq_refl, some_if, any, find, filter, find-some,
  update_where_In, find-update_new, any-filter-false, any-find, In, In-any, In-filter,
}
use argus_monitor.Backend.Schema.{WallDeviceRow}
use argus_monitor.Backend.Crypto.{Crypto}
use argus_monitor.Backend.Auth.{Store}
use argus_monitor.Backend.Devices.{
  carries, by_id, update_device, revoke_device, ClaimInput, Claimed, claim_new, reclaim, claim_as,
  former, given, claim_pending, claim_device, is_valid, if_valid, resolve_device_token,
}

module _ (c : Crypto) where
  valid_found :
      (ttl_sec now : ℕ) (o : Option WallDeviceRow) (row : WallDeviceRow)
      → if_valid c ttl_sec now o ≡ some row
      → o ≡ some row
  valid_found ttl_sec now none row h = ground arith
  valid_found ttl_sec now (some x) row h = ap some (some_if (is_valid c ttl_sec now x) x row h).0

  -- A device that was revoked is resolved from no token, at any time.
  pub revoke-unresolved :
      (db : Store) (id raw : String) (ttl_sec now : ℕ) (row : WallDeviceRow)
      → resolve_device_token c (revoke_device db id) raw ttl_sec now ≡ some row
      → (row.id == id) ≡ false
  unfolding resolve_device_token revoke_device
  revoke-unresolved db id raw ttl_sec now row h =
      let e = valid_found ttl_sec now _ row h in
      let (m, carried) = find-some (λ d. carries (c.sha256 raw) d.token_hash) _ e in
      let (x, n, same) = update_where_In (λ d. d.id == id) _ db.wall_devices m in
      elim (Bool-cases (x.id == id)) [
        | inl hit ↦
            let gone = ap (λ d. carries (c.sha256 raw) d.token_hash) (rw hit at same) in
            ground arith
        | inr miss ↦ ap (λ d. d.id == id) (rw miss at same) ∙ miss
      ]

  valid_row :
      (row : WallDeviceRow) (ttl_sec now t : ℕ)
      → row.status ≡ "approved"
      → row.last_seen_at ≡ some now
      → t ≤ now + ttl_sec * 1000
      → is_valid c ttl_sec t row ≡ true
  valid_row row ttl_sec now t status seen within =
      rw (status, seen) (ground (arith, eq_refl "approved"))

  -- An update that pairs the device: approved, seen now, and with the token's hash.
  abbrev Pairs : (WallDeviceRow → WallDeviceRow) → String → ℕ → Type 0
  Pairs f token now =
      (d : WallDeviceRow)
      → ((f d).id ≡ d.id)
        × ((f d).status ≡ "approved")
        × ((f d).last_seen_at ≡ some now)
        × ((f d).token_hash ≡ some (c.sha256 token))

  paired :
      (db : Store) (id token : String) (f : WallDeviceRow → WallDeviceRow) (ttl_sec now t : ℕ)
      → Pairs f token now
      → any (by_id id) db.wall_devices ≡ true
      → any (λ d. carries (c.sha256 token) d.token_hash) db.wall_devices ≡ false
      → t ≤ now + ttl_sec * 1000
      → (row : WallDeviceRow) × (resolve_device_token c (update_device db id f) token ttl_sec t
          ≡ some row)
        × (row.id ≡ id)
  unfolding resolve_device_token
  paired db id token f ttl_sec now t pairs there fresh within =
      let (d, e, own) = any-find (by_id id) db.wall_devices there in
      let (same, status, seen, hash) = pairs d in
      (
        f d,
        rw
            (
              find-update_new (λ d. carries (c.sha256 token) d.token_hash) (by_id id) f
                  db.wall_devices
                  (λ x. let (i, s, n, h) = pairs x in rw (h, eq_refl (c.sha256 token)) refl) fresh,
              e,
              valid_row (f d) ttl_sec now t status seen within,
            )
            refl,
        same ∙ (eq_iff d.id id).0 own,
      )

  -- The store resolves the claimed device from its token.
  abbrev Resolved : Store → Claimed → ℕ → ℕ → Type 0
  Resolved db claimed ttl_sec t =
      (row : WallDeviceRow) × (resolve_device_token c db claimed.token ttl_sec t ≡ some row)
      × (row.id ≡ claimed.device_id)

  module _ (db : Store) (input : ClaimInput) (token : String) (ttl_sec now t : ℕ)
      (fresh : any (λ d. carries (c.sha256 token) d.token_hash) db.wall_devices ≡ false)
      (within : t ≤ now + ttl_sec * 1000) where
    new-Resolved :
        (pending : WallDeviceRow)
        → In pending db.wall_devices
        → Resolved
            (claim_new c db input pending token now).0
            (record { device_id = pending.id; token = token })
            ttl_sec
            t
    new-Resolved pending m =
        paired db pending.id token _ ttl_sec now t (λ d. (refl, refl, refl, refl))
          (In-any (by_id pending.id) m (eq_refl pending.id)) fresh within

    new_as :
        (pending : WallDeviceRow) (claimed : Claimed)
        → In pending db.wall_devices
        → (claim_new c db input pending token now).1 ≡ some claimed
        → Resolved (claim_new c db input pending token now).0 claimed ttl_sec t
    new_as pending claimed m h =
        subst (λ k. Resolved (claim_new c db input pending token now).0 k ttl_sec t)
          (some_if true (record { device_id = pending.id; token = token }) claimed h).0
          (new-Resolved pending m)

    reclaim-Resolved :
        (pending existing : WallDeviceRow)
        → In existing db.wall_devices
        → (existing.id == pending.id) ≡ false
        → Resolved
            (reclaim c db input pending existing token now).0
            (record { device_id = existing.id; token = token })
            ttl_sec
            t
    reclaim-Resolved pending existing m other =
        paired (record db { wall_devices = filter (λ d. not (by_id pending.id d)) db.wall_devices })
          existing.id token _ ttl_sec now t (λ d. (refl, refl, refl, refl))
          (In-any (by_id existing.id) (In-filter (λ d. not (by_id pending.id d)) m (rw other refl))
            (eq_refl existing.id))
          (any-filter-false (λ d. carries (c.sha256 token) d.token_hash)
            (λ d. not (by_id pending.id d)) db.wall_devices fresh)
          within

    as-Resolved :
        (pending : WallDeviceRow) (o : Option WallDeviceRow) (claimed : Claimed)
        → In pending db.wall_devices
        → ((existing : WallDeviceRow) → o ≡ some existing → In existing db.wall_devices)
        → (claim_as c db input pending o token now).1 ≡ some claimed
        → Resolved (claim_as c db input pending o token now).0 claimed ttl_sec t
    as-Resolved pending none claimed m n h = new_as pending claimed m h
    as-Resolved pending (some existing) claimed m n h =
        elim (Bool-cases (existing.id == pending.id)) [
          | inl same ↦ rw same (new_as pending claimed m (rw same at h))
          | inr other ↦ rw other (
              subst (λ k. Resolved (reclaim c db input pending existing token now).0 k ttl_sec t)
                (some_if true (record { device_id = existing.id; token = token }) claimed
                  (rw other at h)).0
                (reclaim-Resolved pending existing (n existing refl) other))
        ]

    former_In :
        (o : Option String) (existing : WallDeviceRow)
        → former c db o ≡ some existing
        → In existing db.wall_devices
    former_In none existing e = ground arith
    former_In (some f) existing e = (find-some (λ d. carries f d.fingerprint) db.wall_devices e).0

    pending-Resolved :
        (o : Option WallDeviceRow) (claimed : Claimed)
        → ((pending : WallDeviceRow) → o ≡ some pending → In pending db.wall_devices)
        → (claim_pending c db input o token now).1 ≡ some claimed
        → Resolved (claim_pending c db input o token now).0 claimed ttl_sec t
    pending-Resolved none claimed m h = ground arith
    pending-Resolved (some pending) claimed m h = elim (Bool-cases (pending.status == "pending")) [
      | inl waits ↦ rw waits (
          as-Resolved pending (former c db (given input.fingerprint)) claimed (m pending refl)
            (former_In (given input.fingerprint)) (rw waits at h))
      | inr done ↦ let none_given = rw done at h in ground arith
    ]

    -- A screen that has claimed a pairing code is resolved from the token it was given, as the device
    -- that it was told, until the lifetime of a display's session has passed; if no device had the
    -- token's hash before.
    pub claim-resolves :
        (claimed : Claimed)
        → (claim_device c db input token now).1 ≡ some claimed
        → (row : WallDeviceRow) × (resolve_device_token c
              (claim_device c db input token now).0
              claimed.token
              ttl_sec
              t
            ≡ some row)
          × (row.id ≡ claimed.device_id)
    unfolding claim_device
    claim-resolves claimed h =
        pending-Resolved (find (λ d. carries input.code d.pairing_code) db.wall_devices) claimed
          (λ pending e. (find-some (λ d. carries input.code d.pairing_code) db.wall_devices e).0) h
