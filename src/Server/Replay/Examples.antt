-- ===== src/Server/Replay/Examples.antt =====
-- internal/server/replay_buffer.go on concrete inputs.
use vibe_bridge.Base.{◌≡◌, ◌≤◌, refl, true, false, List, [], ◌∷◌, ◌++◌, Bytes, length, concat}
use vibe_bridge.Server.Replay.{
  ReplayBuffer, new_replay_buffer, append, drain_with_status, prune_expired, prune_entries,
  trim_entries, with_entry, add_entry, snapshot,
}
use vibe_bridge.Server.Replay.Runs.{Op, appends, drains, run, drain_replays}

-- Six bytes into a buffer of four: the first two are given up.
abbrev ops : List Op
ops = drains 5 ∷ appends (1 ∷ 2 ∷ 3 ∷ []) 10 ∷ appends (4 ∷ 5 ∷ 6 ∷ []) 11 ∷ []

abbrev filled : ReplayBuffer
filled = (run [] (new_replay_buffer 4 100) ops).1

filled_drained : (drain_with_status filled 20).output ≡ (3 ∷ []) ∷ (4 ∷ 5 ∷ 6 ∷ []) ∷ []
unfolding run new_replay_buffer append drain_with_status prune_expired prune_entries trim_entries
    with_entry add_entry snapshot
filled_drained = refl

filled_incomplete : (drain_with_status filled 20).complete ≡ false
unfolding run new_replay_buffer append drain_with_status prune_expired prune_entries trim_entries
    with_entry add_entry snapshot
filled_incomplete = refl

drain_replays_example :
    let (history, b) = run [] (new_replay_buffer 4 100) ops in
    let d = drain_with_status b 20 in
    (lost : Bytes) × (history ≡ lost ++ concat d.output)
    × (d.complete ≡ true → concat d.output ≡ history)
    × (length (concat d.output) ≤ b.max_bytes)
    × (d.buffer.entries ≡ [])
drain_replays_example = drain_replays 4 100 ops 20
