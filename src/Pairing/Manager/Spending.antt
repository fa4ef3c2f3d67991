-- ===== src/Pairing/Manager/Spending.antt =====
-- internal/pairing/manager.go: over any sequence of calls, what an invitation and a reservation can
-- still bring about.
use vibe_bridge.Base.{
  ℕ, ◌+◌, ◌≤◌, ◌≡◌, Bool, List, [], ◌∷◌, Option, none, some, Bytes, arith, Result, ok, err,
  if◌then◌else◌, is_some, true, false, ite, dec_bytes, Option-cases, inl, inr, ap,
}
use vibe_bridge.Pairing.Invitation.{Surroundings, PairingInvitation}
use vibe_bridge.Pairing.Manager.{
  ActiveInvitation, Manager, Error, clear_active, install, draft, status_of, create, with_active,
  with_reservation, active_status, reserve, begin_active, begin, approve, reject, release,
  authenticate, consume, close,
}
use vibe_bridge.Pairing.Manager.Invariant.{
  Inv, with_active_cases, create_cases, clear_active-Inv, create-Inv, begin-Inv, approve-Inv,
  reject-Inv, release-Inv, consume-Inv, authenticate-Inv, active_status-Inv,
}

pub data Op : Type 0 where
  creates : Surroundings → List Bytes → ℕ → Op
  statuses : ℕ → Op
  begins : Bytes → Option (Bytes → Bool) → ℕ → Op
  approves : Option ℕ → Option Bool → ℕ → Op
  rejects releases : Option ℕ → ℕ → Op
  authenticates consumes : Bytes → Bytes → ℕ → Op
  closes : Op

unfoldable pub step : Manager → Op → Manager
step m (creates w hints now) = (create w m hints now).0
step m (statuses now) = (active_status m now).0
step m (begins id use_secret now) = (begin m id use_secret now).0
step m (approves r persist now) = (approve m r persist now).0
step m (rejects r now) = (reject m r now).0
step m (releases r now) = (release m r now).0
step m (authenticates id secret now) = (authenticate m id secret now).0
step m (consumes id secret now) = (consume m id secret now).0
step m closes = close m

unfoldable pub run : Manager → List Op → Manager
run m [] = m
run m (op ∷ ops) = run (step m op) ops

pub step-Inv : (m : Manager) (op : Op) → Inv m → Inv (step m op)
unfolding step close
step-Inv m (creates w hints now) v = create-Inv w m hints now v
step-Inv m (statuses now) v = active_status-Inv m now v
step-Inv m (begins id use_secret now) v = begin-Inv m id use_secret now v
step-Inv m (approves r persist now) v = approve-Inv m r persist now v
step-Inv m (rejects r now) v = reject-Inv m r now v
step-Inv m (releases r now) v = release-Inv m r now v
step-Inv m (authenticates id secret now) v = authenticate-Inv m id secret now v
step-Inv m (consumes id secret now) v = consume-Inv m id secret now v
step-Inv m closes v = clear_active-Inv m v

-- What a call is credited with if it succeeds.
abbrev pub credit : {A : Type 0} → Result Error A → ℕ → ℕ
credit (ok a) n = n
credit (err x) n = 0

-- 1 if the active invitation has the ID.
abbrev pub waiting : Bytes → Option ActiveInvitation → ℕ
waiting id none = 0
waiting id (some a) = if ite (dec_bytes a.invitation.invitation_id id) true false then 1 else 0

-- 1 for a call that spends the invitation of the ID: an approval, a rejection or a consumption that
-- succeeds while it is the active one.
abbrev pub spends : Bytes → Manager → Op → ℕ
spends id m (approves r persist now) = credit (approve m r persist now).1 (waiting id m.active)
spends id m (rejects r now) = credit (reject m r now).1 (waiting id m.active)
spends id m (consumes id' secret now) = credit (consume m id' secret now).1 (waiting id m.active)
spends id m _ = 0

abbrev named : Bytes → Result Error PairingInvitation → ℕ
named id (err x) = 0
named id (ok made) = if ite (dec_bytes made.invitation_id id) true false then 1 else 0

-- 1 for a call that hands out an invitation of the ID.
abbrev pub makes : Bytes → Manager → Op → ℕ
makes id m (creates w hints now) = named id (create w m hints now).1
makes id m _ = 0

unfoldable pub spent : Bytes → Manager → List Op → ℕ
spent id m [] = 0
spent id m (op ∷ ops) = spends id m op + spent id (step m op) ops

unfoldable pub made : Bytes → Manager → List Op → ℕ
made id m [] = 0
made id m (op ∷ ops) = makes id m op + made id (step m op) ops

-- The balance of one call.
abbrev Balanced : {A : Type 0} → Bytes → Manager → Manager × Result Error A → Type 0
Balanced id m r = credit r.1 (waiting id m.active) + waiting id r.0.active ≤ waiting id m.active

waiting_le : (id : Bytes) (o : Option ActiveInvitation) → waiting id o ≤ 1
waiting_le id none = omega arith
waiting_le id (some a) = ground arith

cleared_waiting : (id : Bytes) (m : Manager) → waiting id (clear_active m).active ≡ 0
unfolding clear_active
cleared_waiting id m = elim (Option-cases m.active) [
  | inl none_active ↦ ground arith
  | inr (a, active) ↦ ground arith
]

create-waits :
    (id : Bytes) (w : Surroundings) (m : Manager) (hints : List Bytes) (now : ℕ)
    → waiting id (create w m hints now).0.active
      ≤ named id (create w m hints now).1 + waiting id m.active
unfolding install draft
create-waits id w m hints now =
    create_cases (λ r. waiting id r.0.active ≤ named id r.1 + waiting id m.active) w m hints now
      (λ x. omega arith) (λ d id' secret code e f. omega arith)

-- A call that uses the invitation leaves the balance if what it does with it does.
with_active-waits :
    {A : Type 0} (id : Bytes) (m : Manager) (now : ℕ)
    (f : ActiveInvitation → Manager × Result Error A)
    → ((a : ActiveInvitation) → m.active ≡ some a → waiting id (f a).0.active ≤ waiting id m.active)
    → 0 + waiting id (with_active m now f).0.active ≤ 0 + waiting id m.active
with_active-waits id m now f each =
    with_active_cases (λ r. 0 + waiting id r.0.active ≤ 0 + waiting id m.active) m now f
      (λ e. omega arith) (omega (arith, cleared_waiting id m)) (λ a e t. omega (arith, each a e))

with_active-Balanced :
    {A : Type 0} (id : Bytes) (m : Manager) (now : ℕ)
    (f : ActiveInvitation → Manager × Result Error A)
    → ((a : ActiveInvitation) → m.active ≡ some a → Balanced id m (f a))
    → Balanced id m (with_active m now f)
with_active-Balanced id m now f each =
    with_active_cases (Balanced id m) m now f (λ e. omega arith)
      (omega (arith, cleared_waiting id m)) (λ a e t. each a e)

approve-Balanced :
    (id : Bytes) (m : Manager) (r : Option ℕ) (persist : Option Bool) (now : ℕ)
    → Balanced id m (approve m r persist now)
unfolding approve with_reservation
approve-Balanced id m r none now = omega arith
approve-Balanced id m r (some fails) now =
    with_active-Balanced id m now _ (λ a e. ground (arith, cleared_waiting id m))

reject-Balanced :
    (id : Bytes) (m : Manager) (r : Option ℕ) (now : ℕ) → Balanced id m (reject m r now)
unfolding reject with_reservation
reject-Balanced id m r now =
    with_active-Balanced id m now _ (λ a e. ground (arith, cleared_waiting id m))

consume-Balanced :
    (id : Bytes) (m : Manager) (id' secret : Bytes) (now : ℕ)
    → Balanced id m (consume m id' secret now)
unfolding consume
consume-Balanced id m id' secret now =
    with_active-Balanced id m now _ (λ a e. ground (arith, cleared_waiting id m))

step-Balanced :
    (id : Bytes) (m : Manager) (op : Op)
    → spends id m op + waiting id (step m op).active ≤ makes id m op + waiting id m.active
unfolding step active_status begin begin_active reserve release with_reservation authenticate close
step-Balanced id m (creates w hints now) = omega (arith, create-waits id w m hints now)
step-Balanced id m (statuses now) = omega (
  arith,
  with_active-waits id m now (λ a. (m, ok (status_of a (is_some a.reservation))))
      (λ a e. omega arith),
)
step-Balanced id m (begins id' none now) = omega arith
step-Balanced id m (begins id' (some use_secret) now) =
    with_active-waits id m now (begin_active m id' use_secret) (λ a e. ground (arith, e))
step-Balanced id m (approves r persist now) = omega (arith, approve-Balanced id m r persist now)
step-Balanced id m (rejects r now) = omega (arith, reject-Balanced id m r now)
step-Balanced id m (releases r now) = with_active-waits id m now _ (λ a e. ground (arith, e))
step-Balanced id m (authenticates id' secret now) =
    with_active-waits id m now _ (λ a e. ground arith)
step-Balanced id m (consumes id' secret now) = omega (arith, consume-Balanced id m id' secret now)
step-Balanced id m closes = omega (arith, cleared_waiting id m)

run-Balanced :
    (id : Bytes) (m : Manager) (ops : List Op)
    → spent id m ops + waiting id (run m ops).active ≤ made id m ops + waiting id m.active
unfolding spent made run
run-Balanced id m [] = omega arith
run-Balanced id m (op ∷ ops) = omega (arith, step-Balanced id m op, run-Balanced id (step m op) ops)

-- Over any sequence of calls on a manager without an invitation, the invitations of an ID that are
-- spent, by approvals, rejections and consumptions that succeed while the active one has the ID,
-- are no more than those that were created with it: one whose ID is drawn once is spent at most
-- once, whatever becomes of the others.
pub spent_once :
    (id : Bytes) (m : Manager) (ops : List Op) → m.active ≡ none → spent id m ops ≤ made id m ops
spent_once id m ops none_active =
    let start : waiting id m.active ≡ 0 = ap (waiting id) none_active in
    omega (arith, run-Balanced id m ops, start)
