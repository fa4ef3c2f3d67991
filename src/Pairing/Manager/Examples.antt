-- ===== src/Pairing/Manager/Examples.antt =====
-- internal/pairing/manager.go on concrete inputs.
use vibe_bridge.Base.{
  ℕ, zero, suc, ◌+◌, ◌*◌, ◌≤◌, ◌<◌, ◌≡◌, ◌≢◌, refl, Bool, true, false, List, [], ◌∷◌, none, some,
  Bytes, arith, ok, err, ◌⊎◌, dec_bytes,
}
use vibe_bridge.Base.Int.{pos}
use vibe_bridge.Pairing.Invitation.{
  Surroundings, PairingInvitation, agent, validate_connection_hints, code_of,
}
use vibe_bridge.Pairing.Manager.{
  ActiveInvitation, Manager, new_manager, manager_ttl, create, install, draft, clear_active, begin,
  begin_active, reserve, with_active, release, approve, reject, authenticate, consume, close,
  status_of, with_reservation, invitation_rejected,
}
use vibe_bridge.Pairing.Manager.Invariant.{Inv, begin-Inv}
use vibe_bridge.Pairing.Manager.Spending.{
  Op, creates, begins, approves, consumes, step, spent, made, spent_once,
}
use vibe_bridge.Pairing.Manager.Reservations.{one_ok, persisted, ended_reservation}
use vibe_bridge.Pairing.Manager.Refusals.{create-consume}

abbrev repeated : ℕ → ℕ → Bytes
repeated zero b = []
repeated (suc n) b = b ∷ repeated n b

abbrev id : Bytes
id = repeated 16 7

abbrev secret : Bytes
secret = repeated 32 9

abbrev surroundings : Surroundings
surroundings = record {
  descriptor = some (record { device_class = agent; encoded = [] });
  verifies = λ d. true;
  random_id = some id;
  random_secret = some secret;
  marshal = λ i. some i.invitation_id;
  sha256 = λ b. b;
  parse_url = λ h. none;
}

abbrev minute : ℕ
minute = 60000000000

abbrev manager : Manager
manager = record { ttl = 5 * minute; active = none; owned = []; issued = 0 }

manager_new : new_manager true (pos 0) ≡ ok manager
unfolding new_manager manager_ttl
manager_new = refl

abbrev made_invitation : PairingInvitation
made_invitation = record {
  version = 1;
  invitation_id = id;
  agent = record { device_class = agent; encoded = [] };
  bootstrap_secret = secret;
  created_at = 1000;
  expires_at = 1000 + 5 * minute;
  connection_hints = [];
  verification_code = 0x36 ∷ 0x36 ∷ 0x33 ∷ 45 ∷ 0x30 ∷ 0x37 ∷ 0x34 ∷ [];
}

abbrev active : ActiveInvitation
active = record {
  invitation = record made_invitation { bootstrap_secret = [] };
  secret = secret;
  reservation = none;
}

abbrev inviting : Manager
inviting = record manager { active = some active }

made_created : create surroundings manager [] 1000 ≡ (inviting, ok made_invitation)
unfolding create install draft clear_active validate_connection_hints code_of
made_created = refl

create-consume_example :
    (authenticate inviting id secret 2000 ≡ (inviting, ok tt))
    × (consume inviting id secret 2000 ≡ (clear_active inviting, ok tt))
    × ((clear_active inviting).active ≡ none)
    × ((id' secret' : Bytes)
        → (id' ≢ id) ⊎ (secret' ≢ secret)
        → (authenticate inviting id' secret' 2000 ≡ (inviting, err invitation_rejected))
          × (consume inviting id' secret' 2000 ≡ (inviting, err invitation_rejected)))
create-consume_example =
    create-consume surroundings manager inviting [] 1000 2000 made_invitation
      (λ b e. ground (arith, e)) (λ b e. ground (arith, e)) made_created (omega arith)

abbrev passing : Bytes → Bool
passing b = false

abbrev begun : Manager
begun = (begin inviting id (some passing) 1500).0

begun_first : (begin inviting id (some passing) 1500).1 ≡ ok (0, status_of active true)
unfolding begin begin_active reserve with_active dec_bytes
begun_first = refl

abbrev ops : List Op
ops =
    creates surroundings [] 1000
    ∷ begins id (some passing) 1100
    ∷ approves (some 0) (some true) 1200
    ∷ approves (some 0) (some false) 1300
    ∷ approves (some 0) (some false) 1400
    ∷ consumes id secret 1500
    ∷ []

-- Only the second approval spends the invitation.
spent_run : spent id manager ops ≡ 1
unfolding spent step create install draft clear_active validate_connection_hints code_of begin
    begin_active reserve with_active approve with_reservation consume dec_bytes
spent_run = refl

spent_once_example : spent id manager ops ≤ made id manager ops
spent_once_example = spent_once id manager ops refl

begun_issued : 0 < begun.issued
unfolding begin begin_active reserve with_active dec_bytes
begun_issued = omega arith

inviting-Inv : Inv inviting
inviting-Inv = record { owned_exact = refl; issued_above = omega arith }

begun-Inv : Inv begun
begun-Inv = begin-Inv inviting id (some passing) 1500 inviting-Inv

ended_reservation_example :
    ((approve begun (some 0) (some false) 2000).1 ≡ ok tt
      → persisted 0 (approve begun (some 0) (some false) 2000).0 ops ≡ 0)
    × ((reject begun (some 0) 2000).1 ≡ ok tt → persisted 0 (reject begun (some 0) 2000).0 ops ≡ 0)
    × ((release begun (some 0) 2000).1 ≡ ok tt
        → persisted 0 (release begun (some 0) 2000).0 ops ≡ 0)
    × (one_ok (create surroundings begun [] 2000).1 ≡ 1
        → persisted 0 (create surroundings begun [] 2000).0 ops ≡ 0)
    × (persisted 0 (close begun) ops ≡ 0)
ended_reservation_example =
    ended_reservation begun 0 surroundings [] 2000 ops begun-Inv begun_issued
