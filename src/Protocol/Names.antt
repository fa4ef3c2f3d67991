-- ===== src/Protocol/Names.antt =====
-- internal/protocol/stream.go and negotiation.go: the names of the capabilities, as bytes.
use vibe_bridge.Base.{Bytes, [], ◌∷◌}

-- "terminal.binary_output".
abbrev pub capability_terminal_binary_output : Bytes
capability_terminal_binary_output =
    116 ∷ 101 ∷ 114 ∷ 109 ∷ 105 ∷ 110 ∷ 97 ∷ 108 ∷ 46 ∷ 98 ∷ 105 ∷ 110 ∷ 97 ∷ 114 ∷ 121 ∷ 95 ∷ 111
    ∷ 117 ∷ 116 ∷ 112 ∷ 117 ∷ 116 ∷ []

-- "terminal.sequenced_io_v1".
abbrev pub capability_terminal_sequenced_io : Bytes
capability_terminal_sequenced_io =
    116 ∷ 101 ∷ 114 ∷ 109 ∷ 105 ∷ 110 ∷ 97 ∷ 108 ∷ 46 ∷ 115 ∷ 101 ∷ 113 ∷ 117 ∷ 101 ∷ 110 ∷ 99 ∷ 101
    ∷ 100 ∷ 95 ∷ 105 ∷ 111 ∷ 95 ∷ 118 ∷ 49 ∷ []

-- "terminal.resize_end_v1".
abbrev pub capability_terminal_resize_end : Bytes
capability_terminal_resize_end =
    116 ∷ 101 ∷ 114 ∷ 109 ∷ 105 ∷ 110 ∷ 97 ∷ 108 ∷ 46 ∷ 114 ∷ 101 ∷ 115 ∷ 105 ∷ 122 ∷ 101 ∷ 95 ∷ 101
    ∷ 110 ∷ 100 ∷ 95 ∷ 118 ∷ 49 ∷ []

-- "session.process_exit_v1".
abbrev pub capability_session_process_exit : Bytes
capability_session_process_exit =
    115 ∷ 101 ∷ 115 ∷ 115 ∷ 105 ∷ 111 ∷ 110 ∷ 46 ∷ 112 ∷ 114 ∷ 111 ∷ 99 ∷ 101 ∷ 115 ∷ 115 ∷ 95 ∷ 101
    ∷ 120 ∷ 105 ∷ 116 ∷ 95 ∷ 118 ∷ 49 ∷ []

-- "session.resume_v1".
abbrev pub capability_session_resume : Bytes
capability_session_resume =
    115 ∷ 101 ∷ 115 ∷ 115 ∷ 105 ∷ 111 ∷ 110 ∷ 46 ∷ 114 ∷ 101 ∷ 115 ∷ 117 ∷ 109 ∷ 101 ∷ 95 ∷ 118 ∷ 49
    ∷ []

-- "control.error_v1".
abbrev pub capability_control_error : Bytes
capability_control_error =
    99 ∷ 111 ∷ 110 ∷ 116 ∷ 114 ∷ 111 ∷ 108 ∷ 46 ∷ 101 ∷ 114 ∷ 114 ∷ 111 ∷ 114 ∷ 95 ∷ 118 ∷ 49 ∷ []

-- "control.health_v1".
abbrev pub capability_control_health : Bytes
capability_control_health =
    99 ∷ 111 ∷ 110 ∷ 116 ∷ 114 ∷ 111 ∷ 108 ∷ 46 ∷ 104 ∷ 101 ∷ 97 ∷ 108 ∷ 116 ∷ 104 ∷ 95 ∷ 118 ∷ 49
    ∷ []

-- "attachment.transfer_v1".
abbrev pub capability_attachment_transfer : Bytes
capability_attachment_transfer =
    97 ∷ 116 ∷ 116 ∷ 97 ∷ 99 ∷ 104 ∷ 109 ∷ 101 ∷ 110 ∷ 116 ∷ 46 ∷ 116 ∷ 114 ∷ 97 ∷ 110 ∷ 115 ∷ 102
    ∷ 101 ∷ 114 ∷ 95 ∷ 118 ∷ 49 ∷ []

-- "attachment.prompt_action_v1".
abbrev pub capability_attachment_prompt_action : Bytes
capability_attachment_prompt_action =
    97 ∷ 116 ∷ 116 ∷ 97 ∷ 99 ∷ 104 ∷ 109 ∷ 101 ∷ 110 ∷ 116 ∷ 46 ∷ 112 ∷ 114 ∷ 111 ∷ 109 ∷ 112 ∷ 116
    ∷ 95 ∷ 97 ∷ 99 ∷ 116 ∷ 105 ∷ 111 ∷ 110 ∷ 95 ∷ 118 ∷ 49 ∷ []
