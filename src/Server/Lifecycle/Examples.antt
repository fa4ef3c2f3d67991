-- ===== src/Server/Lifecycle/Examples.antt =====
-- internal/server/session_lifecycle.go on concrete inputs.
use vibe_bridge.Base.{◌≡◌, refl, true, false, List, [], ◌∷◌}
use vibe_bridge.Server.Lifecycle.{
  starting, ended, new_session_lifecycle, started, attach, begin_ending, finish, done,
}
use vibe_bridge.Server.Lifecycle.Moves.{
  Call, starts, attaches, begins_ending, finishes, step, run, Makes, step-Move,
}

abbrev calls : List Call
calls = starts ∷ attaches ∷ begins_ending ∷ attaches ∷ finishes true ∷ finishes false ∷ []

whole_life : run new_session_lifecycle calls ≡ ended
unfolding run step new_session_lifecycle started attach begin_ending finish
whole_life = refl

step-Move_example : Makes starting begins_ending (step starting begins_ending)
step-Move_example = step-Move starting begins_ending

ended_done : done ended ≡ true
unfolding done
ended_done = refl
