-- ===== src/Pairing/Manager/Reservations.antt =====
-- internal/pairing/manager.go: a reservation that has come to its end authorizes nobody any more.
use vibe_bridge.Base.{
  ℕ, ◌+◌, ◌<◌, ◌≡◌, refl, Bool, false, List, [], ◌∷◌, Option, none, some, Bytes, arith, Result, ok,
  err, ltb, ◌==◌, if◌then◌else◌, if_cases,
}
use vibe_bridge.Pairing.Invitation.{Surroundings}
use vibe_bridge.Pairing.Manager.{
  ActiveInvitation, Manager, Error, callback_failed, clear_active, install, create, with_active,
  with_reservation, holds, active_status, reserve, begin_active, begin, approve, reject, release,
  authenticate, consume, close,
}
use vibe_bridge.Pairing.Manager.Invariant.{
  Inv, held, with_active_cases, create_cases, cleared, clear_active-Inv, create-Inv, approve-Inv,
  reject-Inv, release-Inv,
}
use vibe_bridge.Pairing.Manager.Spending.{
  Op, creates, statuses, begins, approves, rejects, releases, authenticates, consumes, closes, step,
  step-Inv,
}

-- 1 where a call succeeds.
abbrev pub one_ok : {A : Type 0} → Result Error A → ℕ
one_ok (ok a) = 1
one_ok (err x) = 0

-- 1 where the persistence callback ran.
abbrev ran : Result Error (Unit {0}) → ℕ
ran (ok a) = 1
ran (err callback_failed) = 1
ran (err _) = 0

abbrev persists : ℕ → Manager → Op → ℕ
persists r m (approves (some q) persist now) =
    if q == r then ran (approve m (some q) persist now).1 else 0
persists r m _ = 0

-- How often the calls made the persistence callback run for a reservation.
pub persisted : ℕ → Manager → List Op → ℕ
persisted r m [] = 0
persisted r m (op ∷ ops) = persists r m op + persisted r (step m op) ops

abbrev same : ℕ → Option ℕ → ℕ
same r none = 0
same r (some h) = if h == r then 1 else 0

-- 0 once the reservation was issued and is not the active one.
abbrev pub alive : ℕ → Manager → ℕ
alive r m = if ltb r m.issued then same r (held m.active) else 1

abbrev DeadIn : {A : Type 0} → ℕ → Manager × Result Error A → Type 0
DeadIn r q = alive r q.0 ≡ 0

cleared_dead : (r : ℕ) (m : Manager) → Inv m → alive r m ≡ 0 → alive r (clear_active m) ≡ 0
cleared_dead r m v dead = ground (arith, cleared m v)

with_active_dead :
    {A : Type 0} (r : ℕ) (m : Manager) (now : ℕ) (f : ActiveInvitation → Manager × Result Error A)
    → Inv m
    → alive r m ≡ 0
    → ((a : ActiveInvitation) → m.active ≡ some a → alive r (f a).0 ≡ 0)
    → alive r (with_active m now f).0 ≡ 0
with_active_dead r m now f v dead each =
    with_active_cases (DeadIn r) m now f (λ e. dead) (cleared_dead r m v dead) (λ a e t. each a e)

create_dead :
    (r : ℕ) (w : Surroundings) (m : Manager) (hints : List Bytes) (now : ℕ)
    → Inv m
    → alive r m ≡ 0
    → alive r (create w m hints now).0 ≡ 0
unfolding install
create_dead r w m hints now v dead =
    create_cases (DeadIn r) w m hints now (λ x. dead)
      (λ d id secret code e f. ground (arith, cleared m v))

step_dead : (r : ℕ) (m : Manager) (op : Op) → Inv m → alive r m ≡ 0 → alive r (step m op) ≡ 0
unfolding step active_status begin begin_active reserve approve reject release with_reservation
    authenticate consume close
step_dead r m (creates w hints now) v dead = create_dead r w m hints now v dead
step_dead r m (statuses now) v dead = with_active_dead r m now _ v dead (λ a e. dead)
step_dead r m (begins id none now) v dead = dead
step_dead r m (begins id (some use_secret) now) v dead =
    with_active_dead r m now (begin_active m id use_secret) v dead (λ a e. ground arith)
step_dead r m (approves q none now) v dead = dead
step_dead r m (approves q (some fails) now) v dead =
    with_active_dead r m now _ v dead (λ a e. ground (arith, cleared_dead r m v dead))
step_dead r m (rejects q now) v dead =
    with_active_dead r m now _ v dead (λ a e. ground (arith, cleared_dead r m v dead))
step_dead r m (releases q now) v dead = with_active_dead r m now _ v dead (λ a e. ground arith)
step_dead r m (authenticates id secret now) v dead =
    with_active_dead r m now _ v dead (λ a e. ground arith)
step_dead r m (consumes id secret now) v dead =
    with_active_dead r m now _ v dead (λ a e. ground (arith, cleared_dead r m v dead))
step_dead r m closes v dead = cleared_dead r m v dead

dead_approve :
    (r : ℕ) (m : Manager) (persist : Option Bool) (now : ℕ)
    → alive r m ≡ 0
    → ran (approve m (some r) persist now).1 ≡ 0
unfolding approve with_reservation
dead_approve r m none now dead = refl
dead_approve r m (some fails) now dead =
    with_active_cases (λ q. ran q.1 ≡ 0) m now _ (λ e. refl) refl (λ a e t. ground arith)

dead_persists : (r : ℕ) (m : Manager) (op : Op) → alive r m ≡ 0 → persists r m op ≡ 0
dead_persists r m (approves (some q) persist now) dead =
    if_cases (λ n. n ≡ 0) (q == r) _ _ (λ t. ground (arith, dead_approve r m persist now dead))
      (λ t. refl)
dead_persists r m (approves none persist now) dead = refl
dead_persists r m _ dead = refl

pub dead_run : (r : ℕ) (m : Manager) (ops : List Op) → Inv m → alive r m ≡ 0 → persisted r m ops ≡ 0
unfolding persisted
dead_run r m [] v dead = refl
dead_run r m (op ∷ ops) v dead = omega (
  arith,
  dead_persists r m op dead,
  dead_run r (step m op) ops (step-Inv m op v) (step_dead r m op v dead),
)

-- What a successful call with the reservation leaves.
abbrev EndsIn : ℕ → Manager × Result Error (Unit {0}) → Type 0
EndsIn r q = q.1 ≡ ok tt → alive r q.0 ≡ 0

with_reservation_ends :
    (r : ℕ) (m : Manager) (now : ℕ) (f : ActiveInvitation → Manager × Result Error (Unit {0}))
    → ((a : ActiveInvitation) → m.active ≡ some a → a.reservation ≡ some r → EndsIn r (f a))
    → EndsIn r (with_reservation m (some r) now f)
unfolding with_reservation
with_reservation_ends r m now f each =
    with_active_cases (EndsIn r) m now _ (λ e o. absurd (ground arith)) (λ o. absurd (ground arith))
      (λ a e t.
        if_cases (EndsIn r) (holds (some r) a.reservation m.owned) _ _
          (λ own. each a e (ground arith)) (λ foreign o. absurd (ground arith)))

create_ends :
    (r : ℕ) (w : Surroundings) (m : Manager) (hints : List Bytes) (now : ℕ)
    → Inv m
    → r < m.issued
    → one_ok (create w m hints now).1 ≡ 1
    → alive r (create w m hints now).0 ≡ 0
unfolding install
create_ends r w m hints now v issued =
    create_cases (λ q. one_ok q.1 ≡ 1 → alive r q.0 ≡ 0) w m hints now
      (λ x o. absurd (ground arith)) (λ d id secret code e f o. ground (arith, cleared m v))

-- On a manager that keeps its invariant, a reservation that was issued and then approved, rejected
-- or released, or that stood when an invitation was created or the manager was closed, is dead:
-- whatever is called afterwards, the persistence callback of an approval never runs for it.
pub ended_reservation :
    (m : Manager) (r : ℕ) (w : Surroundings) (hints : List Bytes) (now : ℕ) (ops : List Op)
    → Inv m
    → r < m.issued
    → ((approve m (some r) (some false) now).1 ≡ ok tt
        → persisted r (approve m (some r) (some false) now).0 ops ≡ 0)
      × ((reject m (some r) now).1 ≡ ok tt → persisted r (reject m (some r) now).0 ops ≡ 0)
      × ((release m (some r) now).1 ≡ ok tt → persisted r (release m (some r) now).0 ops ≡ 0)
      × (one_ok (create w m hints now).1 ≡ 1 → persisted r (create w m hints now).0 ops ≡ 0)
      × (persisted r (close m) ops ≡ 0)
unfolding approve reject release close
ended_reservation m r w hints now ops v issued =
    let gone : alive r (clear_active m) ≡ 0 = ground (arith, cleared m v) in
    let after : (m' : Manager) → Inv m' → alive r m' ≡ 0 → persisted r m' ops ≡ 0 =
      λ m' v' dead. dead_run r m' ops v' dead in
    (
      λ o.
          after _ (approve-Inv m (some r) (some false) now v)
            (with_reservation_ends r m now _ (λ a e h u. gone) o),
      λ o.
          after _ (reject-Inv m (some r) now v)
            (with_reservation_ends r m now _ (λ a e h u. gone) o),
      λ o.
          after _ (release-Inv m (some r) now v)
            (with_reservation_ends r m now _ (λ a e h u. ground arith) o),
      λ o. after _ (create-Inv w m hints now v) (create_ends r w m hints now v issued o),
      after (clear_active m) (clear_active-Inv m v) gone,
    )
