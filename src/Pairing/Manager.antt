-- ===== src/Pairing/Manager.antt =====
-- internal/pairing/manager.go: the one invitation that may be active, and the flow that reserves it.
-- A `*Reservation` is the number of its allocation; it is valid while the manager lists it as owned,
-- which is the code's `reservation.manager == manager`. Times are nanoseconds. A callback answers
-- `true` for an error; whether it ran shows in the call's answer: success or `callback_failed`.
pub mod Invariant
pub mod Spending
pub mod Reservations
pub mod Refusals
pub mod Examples
use vibe_bridge.Base.{
  ℕ, ◌+◌, ◌*◌, Bool, true, false, not, ◌||◌, List, [], ◌∷◌, Option, none, some, Bytes, ltb, leb,
  ◌==◌, if◌then◌else◌, length, Result, ok, err, is_some,
}
use vibe_bridge.Base.Int.{ℤ, pos, negsuc}
use vibe_bridge.Pairing.Invitation.{
  DeviceClass, SignedDescriptor, PairingInvitation, Surroundings, class_unspecified, agent, client,
  current_invitation_version, invitation_id_bytes, bootstrap_secret_bytes, equal_bytes,
  validate_connection_hints, code_of,
}

pub data Error : Type 0 where
  agent_required ttl_out_of_range : Error
  hints_invalid descriptor_unread descriptor_invalid not_an_agent : Error
  id_not_generated secret_not_generated code_not_encoded : Error
  invitation_unavailable invitation_expired invitation_rejected invitation_in_use : Error
  callback_required callback_failed : Error

pub record ActiveInvitation : Type 0 where
  pub invitation : PairingInvitation
  pub secret : Bytes
  pub reservation : Option ℕ

pub record Manager : Type 0 where
  pub ttl : ℕ
  pub active : Option ActiveInvitation
  pub owned : List ℕ
  pub issued : ℕ

pub record Status : Type 0 where
  pub invitation_id : Bytes
  pub created_at : ℕ
  pub expires_at : ℕ
  pub verification_code : Bytes
  pub reserved : Bool

abbrev second : ℕ
second = 1000000000

abbrev pub default_ttl : ℕ
default_ttl = 5 * 60 * second

-- A duration of 30 seconds to 15 minutes; zero stands for the default.
pub manager_ttl : ℤ → Option ℕ
manager_ttl (negsuc n) = none
manager_ttl (pos n) =
    let ttl = if n == 0 then default_ttl else n in
    if ltb ttl (30 * second) || ltb (15 * 60 * second) ttl then none else some ttl

pub new_manager : Bool → ℤ → Result Error Manager
new_manager has_agent ttl = if not has_agent then err agent_required else elim (manager_ttl ttl) [
  | none ↦ err ttl_out_of_range
  | some t ↦ ok (record { ttl = t; active = none; owned = []; issued = 0 })
]

abbrev remove : ℕ → List ℕ → List ℕ
remove r [] = []
remove r (q ∷ qs) = if q == r then remove r qs else q ∷ remove r qs

-- `reservation.manager = nil`.
abbrev pub disown : Option ℕ → List ℕ → List ℕ
disown none owned = owned
disown (some r) owned = remove r owned

pub clear_active : Manager → Manager
clear_active m = elim m.active [
  | none ↦ m
  | some a ↦ record m { active = none; owned = disown a.reservation m.owned }
]

abbrev pub is_agent : DeviceClass → Bool
is_agent agent = true
is_agent _ = false

-- The invitation that `Create` builds, before its code is set.
pub draft : Manager → SignedDescriptor → Bytes → Bytes → List Bytes → ℕ → PairingInvitation
draft m descriptor id secret hints now = record {
  version = current_invitation_version;
  invitation_id = id;
  agent = descriptor;
  bootstrap_secret = secret;
  created_at = now;
  expires_at = now + m.ttl;
  connection_hints = hints;
  verification_code = [];
}

-- The stored copy has no secret of its own.
pub install : Manager → PairingInvitation → Bytes → Manager
install m invitation secret = record (clear_active m) {
  active = some (record {
    invitation = record invitation { bootstrap_secret = [] };
    secret = secret;
    reservation = none;
  });
}

-- With the verification code computed, or not.
pub create_coded :
    Manager → PairingInvitation → Bytes → Option Bytes → Manager × Result Error PairingInvitation
create_coded m invitation secret none = (m, err code_not_encoded)
create_coded m invitation secret (some code) =
    let made = record invitation { verification_code = code } in (install m made secret, ok made)

-- With the descriptor and both random values read.
pub create_with :
    Surroundings
    → Manager
    → SignedDescriptor
    → Bytes
    → Bytes
    → List Bytes
    → ℕ
    → Manager × Result Error PairingInvitation
unfolding create_coded
create_with w m d id secret hints now =
    create_coded m (draft m d id secret hints now) secret
      (code_of w (draft m d id secret hints now))

-- The ID is read from the random source, then the secret.
pub create_random :
    Surroundings
    → Manager
    → SignedDescriptor
    → Option Bytes
    → Option Bytes
    → List Bytes
    → ℕ
    → Manager × Result Error PairingInvitation
unfolding create_with
create_random w m d none secret hints now = (m, err id_not_generated)
create_random w m d (some id) none hints now = (m, err secret_not_generated)
create_random w m d (some id) (some secret) hints now = create_with w m d id secret hints now

pub create_from :
    Surroundings
    → Manager
    → Option SignedDescriptor
    → List Bytes
    → ℕ
    → Manager × Result Error PairingInvitation
unfolding create_random
create_from w m none hints now = (m, err descriptor_unread)
create_from w m (some d) hints now =
    if not (w.verifies d)
    then (m, err descriptor_invalid)
    else if not (is_agent d.device_class)
    then (m, err not_an_agent)
    else create_random w m d w.random_id w.random_secret hints now

pub create : Surroundings → Manager → List Bytes → ℕ → Manager × Result Error PairingInvitation
unfolding create_from
create w m hints now =
    if not (validate_connection_hints w hints)
    then (m, err hints_invalid)
    else create_from w m w.descriptor hints now

-- `!now.Before(expiresAt)`.
abbrev pub expired : ActiveInvitation → ℕ → Bool
expired a now = leb a.invitation.expires_at now

-- The checks that every use of the invitation starts with: there is one, and it has not expired.
-- What follows them is given the active invitation.
pub with_active :
    {A : Type 0}
    → Manager
    → ℕ
    → (ActiveInvitation → Manager × Result Error A)
    → Manager × Result Error A
with_active m now use_it = elim m.active [
  | none ↦ (m, err invitation_unavailable)
  | some a ↦ if expired a now then (clear_active m, err invitation_expired) else use_it a
]

abbrev pub matches_id : Bytes → ActiveInvitation → Bool
matches_id id a =
    if not (length id == invitation_id_bytes)
    then false
    else equal_bytes id a.invitation.invitation_id

abbrev pub status_of : ActiveInvitation → Bool → Status
status_of a reserved = record {
  invitation_id = a.invitation.invitation_id;
  created_at = a.invitation.created_at;
  expires_at = a.invitation.expires_at;
  verification_code = a.invitation.verification_code;
  reserved = reserved;
}

pub active_status : Manager → ℕ → Manager × Result Error Status
active_status m now = with_active m now (λ a. (m, ok (status_of a (is_some a.reservation))))

pub reserve : Manager → ActiveInvitation → Manager
reserve m a = record m {
  active = some (record a { reservation = some m.issued });
  owned = m.issued ∷ m.owned;
  issued = m.issued + 1;
}

pub begin_active :
    Manager → Bytes → (Bytes → Bool) → ActiveInvitation → Manager × Result Error (ℕ × Status)
begin_active m id use_secret a =
    if not (matches_id id a)
    then (m, err invitation_rejected)
    else if is_some a.reservation
    then (m, err invitation_in_use)
    else if use_secret a.secret
    then (m, err callback_failed)
    else (reserve m a, ok (m.issued, status_of a true))

-- A nil callback is `none`.
pub begin : Manager → Bytes → Option (Bytes → Bool) → ℕ → Manager × Result Error (ℕ × Status)
begin m id none now = (m, err callback_required)
begin m id (some use_secret) now = with_active m now (begin_active m id use_secret)

abbrev pub member : ℕ → List ℕ → Bool
member r [] = false
member r (q ∷ qs) = if q == r then true else member r qs

-- A nil reservation is `none`.
abbrev pub holds : Option ℕ → Option ℕ → List ℕ → Bool
holds none held owned = false
holds (some r) none owned = false
holds (some r) (some h) owned = if member r owned then h == r else false

-- `validateReservationLocked`, and what follows it.
pub with_reservation :
    Manager
    → Option ℕ
    → ℕ
    → (ActiveInvitation → Manager × Result Error (Unit {0}))
    → Manager × Result Error (Unit {0})
with_reservation m r now use_it =
    with_active m now
      (λ a. if holds r a.reservation m.owned then use_it a else (m, err invitation_rejected))

-- The answer of the persistence callback decides whether the invitation is consumed.
pub approve : Manager → Option ℕ → Option Bool → ℕ → Manager × Result Error (Unit {0})
approve m r none now = (m, err callback_required)
approve m r (some fails) now =
    with_reservation m r now
      (λ a. if fails then (m, err callback_failed) else (clear_active m, ok tt))

pub reject : Manager → Option ℕ → ℕ → Manager × Result Error (Unit {0})
reject m r now = with_reservation m r now (λ a. (clear_active m, ok tt))

pub release : Manager → Option ℕ → ℕ → Manager × Result Error (Unit {0})
release m r now = with_reservation m r now (λ a.
    (record m { active = some (record a { reservation = none }); owned = disown r m.owned }, ok tt))

abbrev pub knows : Bytes → Bytes → ActiveInvitation → Bool
knows id secret a =
    if not (matches_id id a)
    then false
    else if not (length secret == bootstrap_secret_bytes)
    then false
    else equal_bytes secret a.secret

pub authenticate : Manager → Bytes → Bytes → ℕ → Manager × Result Error (Unit {0})
authenticate m id secret now =
    with_active m now (λ a. if knows id secret a then (m, ok tt) else (m, err invitation_rejected))

pub consume : Manager → Bytes → Bytes → ℕ → Manager × Result Error (Unit {0})
consume m id secret now =
    with_active m now
      (λ a. if knows id secret a then (clear_active m, ok tt) else (m, err invitation_rejected))

pub close : Manager → Manager
close m = clear_active m
