-- ===== src/Pairing/Manager/Invariant.antt =====
-- internal/pairing/manager.go: what holds of the manager between two calls.
use vibe_bridge.Base.{
  ℕ, ◌+◌, ◌≤◌, ◌≡◌, refl, Bool, true, false, not, List, [], ◌∷◌, Option, none, some, Bytes, arith,
  Result, ok, err, inl, inr, Option-cases, if_cases,
}
use vibe_bridge.Pairing.Invitation.{
  Surroundings, PairingInvitation, SignedDescriptor, code_of, validate_connection_hints,
}
use vibe_bridge.Pairing.Manager.{
  ActiveInvitation, Manager, Error, invitation_unavailable, invitation_expired, expired,
  clear_active, install, create_with, create, with_active, with_reservation, active_status, reserve,
  begin_active, begin, approve, reject, release, authenticate, consume, draft, create_random,
  create_from, create_coded, is_agent, holds, knows,
}

abbrev pub held : Option ActiveInvitation → Option ℕ
held none = none
held (some a) = a.reservation

abbrev as_list : Option ℕ → List ℕ
as_list none = []
as_list (some r) = r ∷ []

abbrev above : Option ℕ → ℕ
above none = 0
above (some r) = r + 1

-- The manager owns exactly the reservation of the active invitation, and it was issued.
pub record Inv (m : Manager) : Type 0 where
  pub owned_exact : m.owned ≡ as_list (held m.active)
  pub issued_above : above (held m.active) ≤ m.issued

pub clear_active-Inv : (m : Manager) → Inv m → Inv (clear_active m)
unfolding clear_active
clear_active-Inv m v = ground arith

-- The three ways of a use of the invitation: there is none, it has expired, or it is used.
pub with_active_cases :
    {A : Type 0} (P : Manager × Result Error A → Type 0) (m : Manager) (now : ℕ)
    (f : ActiveInvitation → Manager × Result Error A)
    → (m.active ≡ none → P (m, err invitation_unavailable))
    → P (clear_active m, err invitation_expired)
    → ((a : ActiveInvitation) → m.active ≡ some a → expired a now ≡ false → P (f a))
    → P (with_active m now f)
unfolding with_active
with_active_cases P m now f absent late used = elim (Option-cases m.active) [
  | inl e ↦ rw (e, with_active) (absent e)
  | inr (a, e) ↦ rw (e, with_active) (if_cases P (expired a now) _ _ (λ t. late) (λ t. used a e t))
]

-- The invariant of the manager that a call returns.
abbrev Leaves : {A : Type 0} → Manager × Result Error A → Type 0
Leaves r = Inv r.0

with_active-Inv :
    {A : Type 0} (m : Manager) (now : ℕ) (f : ActiveInvitation → Manager × Result Error A)
    → Inv m
    → ((a : ActiveInvitation) → m.active ≡ some a → Inv (f a).0)
    → Inv (with_active m now f).0
with_active-Inv m now f v each =
    with_active_cases Leaves m now f (λ e. v) (clear_active-Inv m v) (λ a e t. each a e)

pub cleared :
    (m : Manager)
    → Inv m
    → ((clear_active m).active ≡ none)
      × ((clear_active m).owned ≡ [])
      × ((clear_active m).issued ≡ m.issued)
unfolding clear_active
cleared m v = ground arith

-- `Create` refuses and changes nothing, or installs an invitation of its own making.
module _ (P : Manager × Result Error PairingInvitation → Type 0) (w : Surroundings) (m : Manager)
    (hints : List Bytes) (now : ℕ) (refused : (x : Error) → P (m, err x))
    (made : (d : SignedDescriptor) (id secret code : Bytes)
      → w.random_id ≡ some id
      → w.random_secret ≡ some secret
      → let invitation = record (draft m d id secret hints now) { verification_code = code } in
        P (install m invitation secret, ok invitation)) where
  create_coded_cases :
      (d : SignedDescriptor) (id secret : Bytes) (code : Option Bytes)
      → w.random_id ≡ some id
      → w.random_secret ≡ some secret
      → P (create_coded m (draft m d id secret hints now) secret code)
  unfolding create_coded
  create_coded_cases d id secret none read_id read_secret = refused _
  create_coded_cases d id secret (some code) read_id read_secret =
      made d id secret code read_id read_secret

  create_random_cases :
      (d : SignedDescriptor) (id secret : Option Bytes)
      → w.random_id ≡ id
      → w.random_secret ≡ secret
      → P (create_random w m d id secret hints now)
  unfolding create_random create_with
  create_random_cases d none secret read_id read_secret = refused _
  create_random_cases d (some id) none read_id read_secret = refused _
  create_random_cases d (some id) (some secret) read_id read_secret =
      create_coded_cases d id secret (code_of w (draft m d id secret hints now)) read_id read_secret

  create_from_cases : (d : Option SignedDescriptor) → P (create_from w m d hints now)
  unfolding create_from
  create_from_cases none = refused _
  create_from_cases (some d) =
      if_cases P (not (w.verifies d)) _ _ (λ t. refused _)
        (λ t.
          if_cases P (not (is_agent d.device_class)) _ _ (λ u. refused _)
            (λ u. create_random_cases d w.random_id w.random_secret refl refl))

  pub create_cases : P (create w m hints now)
  unfolding create
  create_cases =
      if_cases P (not (validate_connection_hints w hints)) _ _ (λ t. refused _)
        (λ t. create_from_cases w.descriptor)

pub create-Inv :
    (w : Surroundings) (m : Manager) (hints : List Bytes) (now : ℕ)
    → Inv m
    → Inv (create w m hints now).0
unfolding install
create-Inv w m hints now v =
    create_cases Leaves w m hints now (λ x. v)
      (λ d id secret code read_id read_secret. ground (arith, cleared m v))

pub begin-Inv :
    (m : Manager) (id : Bytes) (use_secret : Option (Bytes → Bool)) (now : ℕ)
    → Inv m
    → Inv (begin m id use_secret now).0
unfolding begin begin_active reserve
begin-Inv m id none now v = v
begin-Inv m id (some use_secret) now v =
    with_active-Inv m now (begin_active m id use_secret) v (λ a e. ground arith)

with_reservation-Inv :
    (m : Manager) (r : Option ℕ) (now : ℕ)
    (f : ActiveInvitation → Manager × Result Error (Unit {0}))
    → Inv m
    → ((a : ActiveInvitation)
        → m.active ≡ some a
        → holds r a.reservation m.owned ≡ true
        → Inv (f a).0)
    → Inv (with_reservation m r now f).0
unfolding with_reservation
with_reservation-Inv m r now f v each =
    with_active-Inv m now _ v
      (λ a e. if_cases Leaves (holds r a.reservation m.owned) _ _ (λ t. each a e t) (λ t. v))

pub approve-Inv :
    (m : Manager) (r : Option ℕ) (persist : Option Bool) (now : ℕ)
    → Inv m
    → Inv (approve m r persist now).0
unfolding approve
approve-Inv m r none now v = v
approve-Inv m r (some fails) now v =
    with_reservation-Inv m r now _ v
      (λ a e t. if_cases Leaves fails _ _ (λ t. v) (λ t. clear_active-Inv m v))

pub reject-Inv : (m : Manager) (r : Option ℕ) (now : ℕ) → Inv m → Inv (reject m r now).0
unfolding reject
reject-Inv m r now v = with_reservation-Inv m r now _ v (λ a e t. clear_active-Inv m v)

pub release-Inv : (m : Manager) (r : Option ℕ) (now : ℕ) → Inv m → Inv (release m r now).0
unfolding release
release-Inv m r now v = with_reservation-Inv m r now _ v (λ a e t. ground (arith, v.owned_exact))

pub consume-Inv :
    (m : Manager) (id secret : Bytes) (now : ℕ) → Inv m → Inv (consume m id secret now).0
unfolding consume
consume-Inv m id secret now v =
    with_active-Inv m now _ v
      (λ a e. if_cases Leaves (knows id secret a) _ _ (λ t. clear_active-Inv m v) (λ t. v))

pub authenticate-Inv :
    (m : Manager) (id secret : Bytes) (now : ℕ) → Inv m → Inv (authenticate m id secret now).0
unfolding authenticate
authenticate-Inv m id secret now v =
    with_active-Inv m now _ v (λ a e. if_cases Leaves (knows id secret a) _ _ (λ t. v) (λ t. v))

pub active_status-Inv : (m : Manager) (now : ℕ) → Inv m → Inv (active_status m now).0
unfolding active_status
active_status-Inv m now v = with_active-Inv m now _ v (λ a e. v)
