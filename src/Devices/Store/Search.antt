-- ===== src/Devices/Store/Search.antt =====
-- internal/deviceidentity/authorization.go: what the search for a device finds.
use vibe_bridge.Base.{
  ℕ, ◌+◌, ◌≡◌, ◌≢◌, refl, List, [], ◌∷◌, ◌++◌, Option, none, some, Bytes, Result, ok, err,
  dec_bytes, arith, Option-cases, inl, inr,
}
use vibe_bridge.Devices.Descriptor.{Codec}
use vibe_bridge.Devices.Records.{
  revoked, PersistedAuthorization, Store, AuthorizedDevice, Error, Attempt, same, view_of,
  authorization_view, id_of, shifted, search, set_at,
}
use vibe_bridge.Devices.Store.{withdrawn}

abbrev pub Search : Type 0
Search = Result Error (Option (ℕ × PersistedAuthorization × AuthorizedDevice))

abbrev Found : Type 0
Found = ℕ × PersistedAuthorization × AuthorizedDevice

-- What a shifted search found.
shifted_found :
    (q : Search) (n : ℕ) (r : PersistedAuthorization) (v : AuthorizedDevice)
    → shifted q ≡ ok (some (n, r, v))
    → (m : ℕ) × (n ≡ m + 1) × (q ≡ ok (some (m, r, v)))
shifted_found (err e) n r v h = absurd (ground arith)
shifted_found (ok none) n r v h = absurd (ground arith)
shifted_found (ok (some (m, r', v'))) n r v h = (m, ground arith, ground arith)

-- A record of the same ID in the place of the one that was found is what is found then.
pub search-set_at :
    (c : Codec) (id : Bytes) (n : ℕ) (rs : List PersistedAuthorization)
    (r r' : PersistedAuthorization) (v v' : AuthorizedDevice)
    → search c id rs ≡ ok (some (n, r, v))
    → authorization_view c r' ≡ some v'
    → id_of v' ≡ id
    → search c id (set_at n r' rs) ≡ ok (some (n, r', v'))
unfolding search
search-set_at c id n [] r r' v v' found view same = absurd (ground arith)
search-set_at c id n (x ∷ rs) r r' v v' found view same =
    elim (Option-cases (authorization_view c x)) [
      | inl bad ↦ absurd (ground arith)
      | inr (u, good) ↦ elim (dec_bytes (id_of u) id) [
        | yes here ↦ ground arith
        | no other ↦
            let later : shifted (search c id rs) ≡ ok (some (n, r, v)) = ground arith in
            let (m, next, rest) = shifted_found (search c id rs) n r v later in
            ground (arith, search-set_at c id m rs r r' v v' rest view same)
      ]
    ]

-- It hides nothing from a search for another ID.
pub search-set_at_other :
    (c : Codec) (id other : Bytes) (n : ℕ) (rs : List PersistedAuthorization)
    (r r' : PersistedAuthorization) (v v' : AuthorizedDevice)
    → search c other rs ≡ ok (some (n, r, v))
    → authorization_view c r' ≡ some v'
    → id_of v' ≡ other
    → other ≢ id
    → search c id (set_at n r' rs) ≡ search c id rs
unfolding search
search-set_at_other c id other n [] r r' v v' found view same differs = absurd (ground arith)
search-set_at_other c id other n (x ∷ rs) r r' v v' found view same differs =
    elim (Option-cases (authorization_view c x)) [
      | inl bad ↦ absurd (ground arith)
      | inr (u, good) ↦ elim (dec_bytes (id_of u) other) [
        | yes here ↦ ground arith
        | no elsewhere ↦
            let later : shifted (search c other rs) ≡ ok (some (n, r, v)) = ground arith in
            let (m, next, rest) = shifted_found (search c other rs) n r v later in
            let same_tail = search-set_at_other c id other m rs r r' v v' rest view same differs in
            ground (arith, same_tail)
      ]
    ]

pub search-append_other :
    (c : Codec) (id : Bytes) (rs : List PersistedAuthorization) (r : PersistedAuthorization)
    (v : AuthorizedDevice)
    → authorization_view c r ≡ some v
    → id_of v ≢ id
    → search c id (rs ++ r ∷ []) ≡ search c id rs
unfolding search
search-append_other c id [] r v view differs = ground arith
search-append_other c id (x ∷ rs) r v view differs = elim (Option-cases (authorization_view c x)) [
  | inl bad ↦ ground arith
  | inr (u, good) ↦ ground (arith, search-append_other c id rs r v view differs)
]

-- What a search found is the record of the ID, with its view.
pub search-found :
    (c : Codec) (id : Bytes) (n : ℕ) (rs : List PersistedAuthorization) (r : PersistedAuthorization)
    (v : AuthorizedDevice)
    → search c id rs ≡ ok (some (n, r, v))
    → (authorization_view c r ≡ some v) × (id_of v ≡ id)
unfolding search
search-found c id n [] r v found = absurd (ground arith)
search-found c id n (x ∷ rs) r v found = elim (Option-cases (authorization_view c x)) [
  | inl bad ↦ absurd (ground arith)
  | inr (u, good) ↦ elim (dec_bytes (id_of u) id) [
    | yes here ↦ ground arith
    | no elsewhere ↦
        let later : shifted (search c id rs) ≡ ok (some (n, r, v)) = ground arith in
        let (m, next, rest) = shifted_found (search c id rs) n r v later in
        search-found c id m rs r v rest
  ]
]

-- A record whose descriptor is kept has the ID it had.
pub view-withdrawn :
    (c : Codec) (a : Attempt) (s : Store) (r : PersistedAuthorization) (v : AuthorizedDevice)
    → authorization_view c r ≡ some v
    → (u : AuthorizedDevice) × (authorization_view c (withdrawn a s r) ≡ some u)
      × (id_of u ≡ id_of v)
      × (u.state ≡ revoked)
unfolding authorization_view withdrawn id_of
view-withdrawn c a s r v view = elim (Option-cases (c.decode r.device)) [
  | inl bad ↦ absurd (ground arith)
  | inr (signed, good) ↦ (view_of (withdrawn a s r) signed, ground arith, ground arith, refl)
]
