-- ===== src/Devices/Store/Epoch.antt =====
-- internal/deviceidentity/authorization.go: a revocation advances the epoch and lasts.
use mathlib.Core.Path.{subst}
use vibe_bridge.Base.{
  [], ◌∷◌, ◌++◌, ℕ, ◌+◌, ◌-◌, ◌^◌, ◌%◌, ◌≡◌, ◌≢◌, ◌⊎◌, refl, sym, ◌∙◌, true, not, ◌||◌, Option,
  none, some, Bytes, ◌==◌, Result, ok, err, dec_bytes, arith, if_cases, inl, inr,
}
use vibe_bridge.Devices.Descriptor.{DeviceDescriptor, SignedDeviceDescriptor, Codec}
use vibe_bridge.Devices.Records.{
  AuthorizationState, revoked, PersistedAuthorization, Store, AuthorizedDevice, Error,
  decode_failed, invalid_state, persist_failed, device_not_found, counters_exhausted, Attempt, same,
  view_of, authorization_view, id_of, search, set_at, authorized_device, is_revoked,
}
use vibe_bridge.Devices.Validation.{validate_state}
use vibe_bridge.Devices.Store.{
  with_records, persist, granted, grant, described, withdrawn, revoke_found,
}
use vibe_bridge.Devices.Store.Search.{
  Search, search-set_at, search-set_at_other, search-append_other, search-found, view-withdrawn,
}

-- Where an ID stands as revoked.
abbrev pub Revoked : Codec → Store → Bytes → Type 0
Revoked c s id = (u : AuthorizedDevice) × (authorized_device c s id ≡ ok u) × (u.state ≡ revoked)

found_Revoked :
    (c : Codec) (s : Store) (id : Bytes) (n : ℕ) (r : PersistedAuthorization) (v : AuthorizedDevice)
    → search c id s.authorized ≡ ok (some (n, r, v))
    → v.state ≡ revoked
    → Revoked c s id
unfolding authorized_device
found_Revoked c s id n r v found gone = (v, ground arith, gone)

viewed_cases {ℓ} :
    (P : Store × Result Error AuthorizedDevice → Type ℓ) (s next : Store)
    (view : Option AuthorizedDevice)
    → P (s, err decode_failed)
    → ((v : AuthorizedDevice) → view ≡ some v → P (next, ok v))
    → P (elim view [ none ↦ (s, err decode_failed) | some v ↦ (next, ok v) ])
viewed_cases P s next none refused written = refused
viewed_cases P s next (some v) refused written = written v refl

pub persist_cases {ℓ} :
    (P : Store × Result Error AuthorizedDevice → Type ℓ) (c : Codec) (a : Attempt) (s next : Store)
    (changed : PersistedAuthorization)
    → ((e : Error) → P (s, err e))
    → ((v : AuthorizedDevice) → authorization_view c changed ≡ some v → P (next, ok v))
    → P (persist c a s next changed)
unfolding persist
persist_cases P c a s next changed refused written =
    if_cases P (not (validate_state c next)) _ _ (λ bad. refused invalid_state)
      (λ good.
        if_cases P a.save_fails _ _ (λ failed. refused persist_failed)
          (λ saved.
            viewed_cases P s next (authorization_view c changed) (refused decode_failed) written))

revoked_state : (x : AuthorizationState) → is_revoked x ≡ true → x ≡ revoked
revoked_state x h = ground arith

-- What Revoke comes to, given what the search found.
pub revoked_cases {ℓ} :
    (P : Store × Result Error AuthorizedDevice → Type ℓ) (c : Codec) (a : Attempt) (s : Store)
    (q : Search)
    → ((e : Error) → P (s, err e))
    → ((n : ℕ) (r : PersistedAuthorization) (v : AuthorizedDevice)
        → q ≡ ok (some (n, r, v))
        → v.state ≡ revoked
        → P (s, ok v))
    → ((n : ℕ) (r : PersistedAuthorization) (v u : AuthorizedDevice)
        → q ≡ ok (some (n, r, v))
        → v.state ≢ revoked
        → s.revocation_epoch ≢ 2 ^ 64 - 1
        → authorization_view c (withdrawn a s r) ≡ some u
        → P (
          record s {
            authorization_counter = s.authorization_counter + 1;
            revocation_epoch = s.revocation_epoch + 1;
            authorized = set_at n (withdrawn a s r) s.authorized;
          },
          ok u,
        ))
    → P (revoke_found c a s q)
unfolding revoke_found
revoked_cases P c a s (err e) refused again fresh = refused e
revoked_cases P c a s (ok none) refused again fresh = refused device_not_found
revoked_cases P c a s (ok (some (n, r, v))) refused again fresh =
    if_cases P (is_revoked v.state) _ _ (λ gone. again n r v refl (revoked_state v.state gone))
      (λ stands.
        if_cases P (s.authorization_counter == 2 ^ 64 - 1 || s.revocation_epoch == 2 ^ 64 - 1) _ _
          (λ full. refused counters_exhausted)
          (λ room.
            persist_cases P c a s _ (withdrawn a s r) refused
              (λ u view. fresh n r v u refl (λ gone. absurd (ground arith)) (ground arith) view)))

pub revoke_found-Revoked :
    (c : Codec) (a : Attempt) (s : Store) (id : Bytes) (w : AuthorizedDevice)
    → let q = revoke_found c a s (search c id s.authorized) in
      q.1 ≡ ok w → Revoked c q.0 id × ((q.0 ≡ s) ⊎ (q.0.revocation_epoch ≡ s.revocation_epoch + 1))
revoke_found-Revoked c a s id w =
    revoked_cases
      (λ q.
        q.1 ≡ ok w
        → Revoked c q.0 id × ((q.0 ≡ s) ⊎ (q.0.revocation_epoch ≡ s.revocation_epoch + 1)))
      c a s (search c id s.authorized) (λ e h. absurd (ground arith))
      (λ n r v found gone h. (found_Revoked c s id n r v found gone, inl refl))
      (λ n r v u found stands room view h.
        let (old_view, old_id) = search-found c id n s.authorized r v found in
        let (u', view', same_id, gone) = view-withdrawn c a s r v old_view in
        (
          found_Revoked c _ id n (withdrawn a s r) u'
              (search-set_at c id n s.authorized r (withdrawn a s r) v u' found view'
                (same_id ∙ old_id))
              gone,
          inr refl,
        ))

Revoked-same :
    (c : Codec) (s s' : Store) (id : Bytes)
    → search c id s'.authorized ≡ search c id s.authorized
    → Revoked c s id
    → Revoked c s' id
unfolding authorized_device
Revoked-same c s s' id same (u, found, gone) = (u, ground (arith, same), gone)

-- A revocation, of whatever device, leaves a revoked one revoked.
pub revoke_found-keeps :
    (c : Codec) (a : Attempt) (s : Store) (id other : Bytes)
    → Revoked c s id
    → Revoked c (revoke_found c a s (search c other s.authorized)).0 id
revoke_found-keeps c a s id other gone =
    revoked_cases (λ q. Revoked c q.0 id) c a s (search c other s.authorized) (λ e. gone)
      (λ n r v found h. gone)
      (λ n r v u found stands room view.
        let (old_view, old_id) = search-found c other n s.authorized r v found in
        let (u', view', same_id, now_gone) = view-withdrawn c a s r v old_view in
        elim (dec_bytes other id) [
          | yes here ↦ subst (Revoked c _) here (
              found_Revoked c _ other n (withdrawn a s r) u'
                (search-set_at c other n s.authorized r (withdrawn a s r) v u' found view'
                  (same_id ∙ old_id))
                now_gone)
          | no elsewhere ↦
              Revoked-same c s _ id
                (search-set_at_other c id other n s.authorized r (withdrawn a s r) v u' found view'
                  (same_id ∙ old_id) elsewhere)
                gone
        ])

-- The decoder reads what the encoder wrote.
pub record Lawful (c : Codec) : Type 0 where
  pub reads :
      (signed : SignedDeviceDescriptor) (b : Bytes)
      → c.marshal signed ≡ some b
      → c.decode b ≡ some signed

view-granted :
    (c : Codec) (a : Attempt) (s : Store) (signed : SignedDeviceDescriptor) (d : DeviceDescriptor)
    (encoded : Bytes)
    → c.decode encoded ≡ some signed
    → signed.device_descriptor ≡ some d
    → (u : AuthorizedDevice) × (authorization_view c (granted a s encoded) ≡ some u)
      × (id_of u ≡ d.device_id)
unfolding authorization_view granted id_of
view-granted c a s signed d encoded read described =
    (view_of (granted a s encoded) signed, ground arith, ground arith)

-- An authorization of another device leaves a revoked one revoked.
pub grant-keeps :
    (c : Codec) (a : Attempt) (s : Store) (id : Bytes) (signed : SignedDeviceDescriptor)
    (d : DeviceDescriptor) (encoded : Bytes)
    → c.decode encoded ≡ some signed
    → signed.device_descriptor ≡ some d
    → d.device_id ≢ id
    → Revoked c s id
    → Revoked c (grant c a s encoded none).0 id
      × ((n : ℕ) (r : PersistedAuthorization) (v : AuthorizedDevice)
          → search c d.device_id s.authorized ≡ ok (some (n, r, v))
          → Revoked c (grant c a s encoded (some n)).0 id)
unfolding grant
grant-keeps c a s id signed d encoded read named differs gone =
    let (u, view, same_id) = view-granted c a s signed d encoded read named in
    (
      if_cases (λ (q : Store × Result Error AuthorizedDevice). Revoked c q.0 id)
          ((s.authorization_counter + 1) % 2 ^ 64 == 0) _ _ (λ full. gone)
          (λ room.
            persist_cases (λ q. Revoked c q.0 id) c a s
              (with_records s (s.authorized ++ granted a s encoded ∷ [])) (granted a s encoded)
              (λ e. gone)
              (λ v h.
                Revoked-same c s (with_records s (s.authorized ++ granted a s encoded ∷ [])) id
                  (search-append_other c id s.authorized (granted a s encoded) u view
                    (λ e. differs (sym same_id ∙ e)))
                  gone)),
      λ n r v found.
          if_cases (λ (q : Store × Result Error AuthorizedDevice). Revoked c q.0 id)
            ((s.authorization_counter + 1) % 2 ^ 64 == 0) _ _ (λ full. gone)
            (λ room.
              persist_cases (λ q. Revoked c q.0 id) c a s
                (with_records s (set_at n (granted a s encoded) s.authorized)) (granted a s encoded)
                (λ e. gone)
                (λ v' h.
                  Revoked-same c s (with_records s (set_at n (granted a s encoded) s.authorized)) id
                    (search-set_at_other c id d.device_id n s.authorized r (granted a s encoded) v u
                      found view same_id differs)
                    gone)),
    )
