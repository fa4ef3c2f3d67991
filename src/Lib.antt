-- ===== src/Lib.antt =====
-- VibeBridge runs a coding agent's terminal on a developer's machine (the Agent, cmd/vibebridge) and
-- lets a client reach it over a WebSocket, directly or through a relay (cmd/viberelay).
--
-- The parts modelled, and how they meet:
-- - PromptAction (internal/promptaction/registry.go): the registry that makes the commit of a
--   prepared prompt happen once. A session owns one; the stream's prompt messages drive it.
--   `prepare`, `commit`, `cancel` and `close` are the methods; the function ending in `_locked` is
--   the part under the lock, and `commit_entry` and `cancel_entry` the switch on the state.
-- - Protocol (internal/protocol/stream.go): the order of one connection. Protocol/Envelope.antt has
--   the messages of gen/go/vibebridge/v1/envelope.pb.go, Protocol/Message.antt the decoded message,
--   Protocol/Stream.antt the state, the checks, commits and binding, Protocol/Stream/Decode.antt
--   DecodeClientMessage and Protocol/Stream/Encode.antt the Encode methods.
--   Protocol/Negotiation.antt (internal/protocol/negotiation.go) accepts the client's Hello, from
--   which the stream starts; Protocol/Names.antt has the names of the capabilities.
-- - Pairing (internal/pairing/manager.go): the one active invitation of a new client.
--   Pairing/Invitation.antt has its hints and its verification code, Pairing/Manager.antt the
--   methods; `with_active` and `with_reservation` are matchInvitationLocked and
--   validateReservationLocked with what follows them.
-- - Attachment (internal/attachment): the files that a client uploads for a prompt. A session's
--   manager (transfer.go) has its state in Attachment/Upload.antt, Begin and Chunk in
--   Attachment/Receive.antt, Complete, Outcome and CompletedAttachments in Attachment/Finish.antt,
--   Discard, Cancel, Close and the constructors in Attachment/Retire.antt, and the releases they
--   share in Attachment/Staging.antt. It decides on the bytes with the policies of content_policy.go
--   (Attachment/Content.antt) and the validator of a text (Attachment/Text.antt), and counts them in
--   the ceiling that all sessions share (aggregate.go, Attachment/Aggregate.antt). What the staging
--   directory answers is an argument of each call. Attachment/Transfer.antt has the runs of calls, with
--   what other sessions make of the ceiling in between.
-- - Devices (internal/deviceidentity): the client devices that the Agent has authorized.
--   Devices/Descriptor.antt makes and checks a signed descriptor (descriptor.go), Devices/Records.antt
--   has the state and the lookups, Devices/Agent.antt the Agent's own descriptor and
--   Devices/Validation.antt the check of a state that is written (store.go), and Devices/Store.antt
--   authorizes and revokes (authorization.go).
-- - Relay (internal/relay): Relay/Ticket.antt issues and verifies the tickets with which a peer may
--   join a route (ticket.go); its gate over the revocation epoch of Devices is in Relay/Epoch.antt
--   (epoch.go). Relay/Router.antt (router.go) has the routes that pair an Agent with a client:
--   `join`, `leave`, `forward`, `sweep` and `stop`; closing a peer is an output.
-- - RateLimit (cmd/vibebridge/ratelimit.go): the requests that each address may make of the Agent.
-- - Server: the lifecycle of a terminal session (internal/server/session_lifecycle.go) in
--   Server/Lifecycle.antt, and the output kept for a client that comes back
--   (internal/server/replay_buffer.go) in Server/Replay.antt. The gate that binds the upgrade of a
--   connection to a device of Devices (internal/server/pairedsession.go) is in
--   Server/PairedSession.antt, the nonces that it spends in Server/Nonces.antt.
-- Base has what the parts share: tests on numbers, lists, results, byte strings and their maps, and
-- UTF-8 validity. The modules named Examples run the code on concrete inputs.
--
-- Conventions. An operation takes a state and returns the state after it with its answer. A mutex
-- makes each locked section one step, so that any interleaving is a sequence of steps. An error is
-- a constructor; its text is left out. A byte slice or string is a list of numbers. Times are
-- numbers of nanoseconds that the operation takes as an argument. Counters of 64 bits wrap around
-- where they are increased. SHA-256, the Protobuf encoder and decoder, the random source, url.Parse,
-- Ed25519, X25519, base64, net.SplitHostPort, mime.ParseMediaType, http.DetectContentType, the
-- tables of Unicode, the invitation's check of a signed descriptor and the peers' own Forward are
-- parameters.
--
-- Bounds. The binary search of EncodeTerminalOutputChunk runs on fuel: one more than the length of
-- the output, and each round shortens the range of lengths, so that the fuel never runs out. The
-- loops over the runes of a text run on the length of the text, for each round reads a byte at least.
--
-- Not modelled: network, terminal, file and process I/O, key storage and encryption, the front ends,
-- and the parts above these (session server, pairing flow, relay server, relay client). The
-- fragment URLs of an invitation are left out as well.
pub mod Base
pub mod Attachment
pub mod Devices
pub mod Pairing
pub mod PromptAction
pub mod Protocol
pub mod RateLimit
pub mod Relay
pub mod Server
