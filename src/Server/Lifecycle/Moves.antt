-- ===== src/Server/Lifecycle/Moves.antt =====
-- internal/server/session_lifecycle.go: the moves between the states, over any sequence of calls.
use vibe_bridge.Base.{ℕ, ◌+◌, ◌≡◌, refl, Bool, true, false, List, [], ◌∷◌, arith, ◌⊎◌, inl, inr}
use vibe_bridge.Server.Lifecycle.{
  State, Outcome, starting, connected, detached, ending, ended, failed, new_session_lifecycle,
  started, attach, detach, begin_ending, finish, done, accepts_output, public_state, public_ended,
}

pub data Call : Type 0 where
  starts attaches detaches begins_ending : Call
  finishes : Bool → Call

unfoldable pub step : State → Call → Outcome
step s starts = started s
step s attaches = attach s
step s detaches = detach s
step s begins_ending = begin_ending s
step s (finishes run_failed) = finish run_failed s

-- The moves of the session's state machine, each with the call that makes it. `live` tells that the
-- process runs: the end of its run is an end of the session, or a failure, if it comes by itself.
pub data Live : State → Type 0 where
  at_start : Live starting
  at_client : Live connected
  alone : Live detached

pub data Move : State → Call → State → Type 0 where
  start : Move starting starts detached
  connect : Move detached attaches connected
  disconnect : Move connected detaches detached
  end_run : {s : State} → Live s → Move s begins_ending ending
  settle : (run_failed : Bool) → Move ending (finishes run_failed) ended
  exit : {s : State} → Live s → Move s (finishes false) ended
  crash : {s : State} → Live s → Move s (finishes true) failed

-- What a call comes to: a move that it makes; or a refusal, where nothing changes and the machine
-- has no move for the call.
abbrev pub Makes : State → Call → Outcome → Type 0
Makes s c (s', true) = Move s c s'
Makes s c (s', false) = (s' ≡ s) × ((t : State) → ¬ Move s c t)

-- The call that a move is for makes it.
Move-step : {s t : State} {c : Call} → Move s c t → step s c ≡ (t, true)
unfolding step started attach detach begin_ending finish
Move-step start = refl
Move-step connect = refl
Move-step disconnect = refl
Move-step (end_run at_start) = refl
Move-step (end_run at_client) = refl
Move-step (end_run alone) = refl
Move-step (settle run_failed) = refl
Move-step (exit at_start) = refl
Move-step (exit at_client) = refl
Move-step (exit alone) = refl
Move-step (crash at_start) = refl
Move-step (crash at_client) = refl
Move-step (crash alone) = refl

refuses : (s : State) (c : Call) → step s c ≡ (s, false) → (t : State) → ¬ Move s c t
refuses s c refused t m = absurd (ground (arith, refused, Move-step m))

-- Every call makes the one move that the machine has for it and answers true; where the machine has
-- none, the call changes nothing and answers false.
pub step-Move : (s : State) (c : Call) → Makes s c (step s c)
unfolding step started attach detach begin_ending finish
step-Move starting starts = start
step-Move detached attaches = connect
step-Move connected detaches = disconnect
step-Move starting begins_ending = end_run at_start
step-Move connected begins_ending = end_run at_client
step-Move detached begins_ending = end_run alone
step-Move ending (finishes run_failed) = settle run_failed
step-Move starting (finishes true) = crash at_start
step-Move starting (finishes false) = exit at_start
step-Move connected (finishes true) = crash at_client
step-Move connected (finishes false) = exit at_client
step-Move detached (finishes true) = crash alone
step-Move detached (finishes false) = exit alone
step-Move s starts = (refl, refuses s starts refl)
step-Move s attaches = (refl, refuses s attaches refl)
step-Move s detaches = (refl, refuses s detaches refl)
step-Move s begins_ending = (refl, refuses s begins_ending refl)
step-Move ended (finishes b) = (refl, refuses ended (finishes b) refl)
step-Move failed (finishes b) = (refl, refuses failed (finishes b) refl)

unfoldable pub run : State → List Call → State
run s [] = s
run s (c ∷ cs) = run (step s c).0 cs

-- A settled session stays as it is: no call changes it and none answers true.
pub done_final :
    (s : State) (cs : List Call) (c : Call)
    → done s ≡ true
    → (run s cs ≡ s) × (step (run s cs) c ≡ (s, false))
unfolding run step done started attach detach begin_ending finish
done_final s [] c d = (refl, ground arith)
done_final s (b ∷ cs) c d =
    let same : (step s b).0 ≡ s = ground arith in
    let (stays, refuses) = done_final s cs c d in (rw same stays, rw same refuses)

-- Whatever is called after the ending has begun, the session is still ending or has ended: it is
-- never attached again, accepts no output and does not count as failed.
pub ending_settles :
    (cs : List Call)
    → ((run ending cs ≡ ending) ⊎ (run ending cs ≡ ended))
      × (accepts_output (run ending cs) ≡ false)
      × (public_state (run ending cs) ≡ public_ended)
unfolding run step accepts_output public_state started attach detach begin_ending finish
ending_settles [] = (inl refl, refl, refl)
ending_settles (finishes run_failed ∷ cs) =
    let stays : run ended cs ≡ ended = (done_final ended cs starts (unfold done in refl)).0 in
    (inr stays, rw stays, rw stays)
ending_settles (starts ∷ cs) = ending_settles cs
ending_settles (attaches ∷ cs) = ending_settles cs
ending_settles (detaches ∷ cs) = ending_settles cs
ending_settles (begins_ending ∷ cs) = ending_settles cs

abbrev pub one_if : Bool → ℕ
one_if true = 1
one_if false = 0

-- 1 for a call of `finish` that answered true.
abbrev settles : Call → Outcome → ℕ
settles (finishes run_failed) (s, answer) = one_if answer
settles _ _ = 0

-- How many calls of `finish` answered true.
pub settled_calls : State → List Call → ℕ
settled_calls s [] = 0
settled_calls s (c ∷ cs) = settles c (step s c) + settled_calls (step s c).0 cs

settles-step :
    (s : State) (c : Call) → settles c (step s c) + one_if (done s) ≡ one_if (done (step s c).0)
unfolding step done started attach detach begin_ending finish
settles-step s c = ground arith

settled_calls-run :
    (s : State) (cs : List Call) → settled_calls s cs + one_if (done s) ≡ one_if (done (run s cs))
unfolding settled_calls run
settled_calls-run s [] = omega arith
settled_calls-run s (c ∷ cs) = omega (arith, settles-step s c, settled_calls-run (step s c).0 cs)

-- Over the whole life of a session `finish` answers true once if the session is over, and not at
-- all before.
pub finish_once :
    (cs : List Call)
    → settled_calls new_session_lifecycle cs ≡ one_if (done (run new_session_lifecycle cs))
unfolding new_session_lifecycle
finish_once cs =
    let start : one_if (done starting) ≡ 0 = unfold done in refl in
    omega (arith, settled_calls-run starting cs)
