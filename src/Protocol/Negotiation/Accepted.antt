-- ===== src/Protocol/Negotiation/Accepted.antt =====
-- internal/protocol/negotiation.go, AcceptClientHello: what an accepted Hello is.
use vibe_bridge.Base.{
  ◌≤◌, ◌<◌, ◌≡◌, refl, Bool, true, false, ◌||◌, List, [], ◌∷◌, Option, none, some, Bytes, arith,
  length, ltb, if◌then◌else◌, ok, inl, inr, Option-cases,
}
use vibe_bridge.Protocol.Envelope.{
  Envelope, Payload, Hello, ProtocolVersion, ProtocolVersionRange, client_role, max_envelope_bytes,
}
use vibe_bridge.Protocol.Names.{
  capability_terminal_sequenced_io, capability_control_error, capability_attachment_transfer,
  capability_attachment_prompt_action,
}
use vibe_bridge.Protocol.Negotiation.{
  NegotiatedHello, Error, too_many_capabilities, dependency_missing, has, invalid_name, check_names,
  lacks, any_lacks, dependents, dependency_missing_in, version_range_check, bounds_check,
  range_check, capabilities_check, hello_check, accept_hello, accept_payload, accept_envelope,
  accept_client_hello, max_capabilities,
}

-- No name stands twice.
abbrev pub Unique : List Bytes → Type 0
Unique [] = Unit {0}
Unique (c ∷ cs) = (has cs c ≡ false) × Unique cs

-- What the advertised names must be.
pub record Consistent (caps : List Bytes) : Type 0 where
  pub few : length caps ≤ max_capabilities
  pub valid : (c : Bytes) → has caps c ≡ true → invalid_name c ≡ false
  pub unique : Unique caps
  pub sequenced :
      (c : Bytes)
      → has dependents c ≡ true
      → has caps c ≡ true
      → has caps capability_terminal_sequenced_io ≡ true
  pub transfer_errors :
      has caps capability_attachment_transfer ≡ true → has caps capability_control_error ≡ true
  pub prompt_transfers :
      has caps capability_attachment_prompt_action ≡ true
      → has caps capability_attachment_transfer ≡ true

check_names-valid :
    (seen caps : List Bytes) (c : Bytes)
    → check_names seen caps ≡ none
    → has caps c ≡ true
    → invalid_name c ≡ false
unfolding check_names has
check_names-valid seen [] c h e = ground arith
check_names-valid seen (d ∷ caps) c h e = ground (arith, check_names-valid (d ∷ seen) caps c)

check_names-fresh :
    (seen caps : List Bytes) (c : Bytes)
    → check_names seen caps ≡ none
    → has seen c ≡ true
    → has caps c ≡ false
unfolding check_names has
check_names-fresh seen [] c h e = refl
check_names-fresh seen (d ∷ caps) c h e = ground (arith, check_names-fresh (d ∷ seen) caps c)

check_names-Unique : (seen caps : List Bytes) → check_names seen caps ≡ none → Unique caps
unfolding check_names has
check_names-Unique seen [] h = tt
check_names-Unique seen (d ∷ caps) h = (
  check_names-fresh (d ∷ seen) caps d (ground arith) (ground arith),
  check_names-Unique (d ∷ seen) caps (ground arith),
)

any_lacks-none :
    (caps : List Bytes) (base : Bytes) (ds : List Bytes) (c : Bytes)
    → any_lacks caps base ds ≡ false
    → has ds c ≡ true
    → has caps c ≡ true
    → has caps base ≡ true
unfolding has
any_lacks-none caps base [] c h e u = ground arith
any_lacks-none caps base (d ∷ ds) c h e u = ground (arith, any_lacks-none caps base ds c)

lacks-none :
    (caps : List Bytes) (dependent base : Bytes)
    → lacks caps dependent base ≡ false
    → has caps dependent ≡ true
    → has caps base ≡ true
lacks-none caps dependent base h e = ground (arith, h, e)

leb_of_few :
    (caps : List Bytes)
    → ltb max_capabilities (length caps) ≡ false
    → length caps ≤ max_capabilities
leb_of_few caps h = ground arith

-- The three parts of the check of the names.
names_parts :
    (many dependent : Bool) (named : Option Error)
    → (if many then some too_many_capabilities else elim named [
      | some x ↦ some x
      | none ↦ if dependent then some dependency_missing else none
    ])
      ≡ none
    → (many ≡ false) × (dependent ≡ false) × (named ≡ none)
names_parts many dependent named h = ground arith

none_of_four :
    (a b c d : Bool)
    → (a || b || c || d) ≡ false
    → (a ≡ false) × (b ≡ false) × (c ≡ false) × (d ≡ false)
none_of_four a b c d h = ground arith

capabilities_check-Consistent :
    (caps : List Bytes) → capabilities_check caps ≡ none → Consistent caps
unfolding capabilities_check dependency_missing_in
capabilities_check-Consistent caps h =
    let (few, dependent, named) = names_parts _ _ _ h in
    let (sequenced, transfer, prompt, _) = none_of_four _ _ _ _ dependent in
    record {
      few = leb_of_few caps few;
      valid = λ c e. check_names-valid [] caps c named e;
      unique = check_names-Unique [] caps named;
      sequenced =
          λ c e u. any_lacks-none caps capability_terminal_sequenced_io dependents c sequenced e u;
      transfer_errors =
          lacks-none caps capability_attachment_transfer capability_control_error transfer;
      prompt_transfers =
          lacks-none caps capability_attachment_prompt_action capability_attachment_transfer prompt;
    }

-- A range of versions from 1.0 on.
abbrev pub CurrentIn : Option ProtocolVersionRange → Type 0
CurrentIn o =
    (r : ProtocolVersionRange) × (low high : ProtocolVersion) × (o ≡ some r)
    × (r.minimum ≡ some low)
    × (r.maximum ≡ some high)
    × (low.major ≡ 1)
    × (high.major ≡ 1)
    × (low.minor ≡ 0)

-- What the envelope and the Hello in it must be.
pub record Acceptable (e : Envelope) (h : Hello) (n : NegotiatedHello) : Type 0 where
  pub version : (e.protocol_major ≡ 1) × (e.protocol_minor ≡ 0)
  pub connection_sized : length e.connection_id ≡ 16
  pub sessionless : (e.session_id ≡ []) × (e.session_generation ≡ 0)
  pub first : (e.sequence ≡ 1) × (e.acknowledge ≡ 0)
  pub carried : e.payload ≡ Payload.hello (some h)
  pub from_client : h.peer_role ≡ client_role
  pub receives : 0 < h.max_envelope_bytes
  pub speaks_current : CurrentIn h.supported_versions
  pub consistent : Consistent h.capabilities
  pub kept : n ≡ record {
    major = 1;
    minor = 0;
    peer_max_envelope_bytes = h.max_envelope_bytes;
    connection_id = e.connection_id;
    capabilities = h.capabilities;
  }

bounds_check-current :
    (l h : Option ProtocolVersion)
    → bounds_check l h ≡ none
    → (low high : ProtocolVersion) × (l ≡ some low)
      × (h ≡ some high)
      × (low.major ≡ 1)
      × (high.major ≡ 1)
      × (low.minor ≡ 0)
unfolding bounds_check version_range_check
bounds_check-current none h e = absurd (ground arith)
bounds_check-current (some low) none e = absurd (ground arith)
bounds_check-current (some low) (some high) e =
    (low, high, refl, refl, ground arith, ground arith, ground arith)

range_check-current : (o : Option ProtocolVersionRange) → range_check o ≡ none → CurrentIn o
unfolding range_check
range_check-current none h = absurd (ground arith)
range_check-current (some r) h =
    let (low, high, least, most, a, b, c) = bounds_check-current r.minimum r.maximum h in
    (r, low, high, refl, least, most, a, b, c)

payload_hello :
    (e : Envelope) (p : Payload) (n : NegotiatedHello)
    → accept_payload e p ≡ ok n
    → (h : Hello) × (p ≡ Payload.hello (some h)) × (accept_hello e h ≡ ok n)
unfolding accept_payload
payload_hello e (Payload.hello (some h)) n a = (h, refl, a)
payload_hello e (Payload.hello none) n a = absurd (ground arith)
payload_hello e _ n a = absurd (ground arith)

-- A Hello that is accepted stood in an envelope of at most 64 KiB: of version 1.0, with a connection
-- ID of 16 bytes, no session and the first sequence number; it came from a client that can receive
-- envelopes and supports version 1.0; it advertises at most 64 well-formed names, none twice, each
-- with the names that it depends on; and all of this is what is negotiated.
pub accept-Acceptable :
    (unmarshal : Bytes → Option Envelope) (encoded : Bytes) (n : NegotiatedHello)
    → accept_client_hello unmarshal encoded ≡ ok n
    → (e : Envelope) × (h : Hello) × (unmarshal encoded ≡ some e)
      × (length encoded ≤ max_envelope_bytes)
      × Acceptable e h n
unfolding accept_client_hello accept_envelope accept_hello hello_check
accept-Acceptable unmarshal encoded n a = elim (Option-cases (unmarshal encoded)) [
  | inl absent ↦ absurd (ground arith)
  | inr (e, found) ↦
      let payload : accept_payload e e.payload ≡ ok n = ground arith in
      let (h, carried, accepted) = payload_hello e e.payload n payload in
      (
        e,
        h,
        found,
        ground arith,
        record {
          version = ground arith;
          connection_sized = ground arith;
          sessionless = ground arith;
          first = ground arith;
          carried = carried;
          from_client = ground arith;
          receives = ground arith;
          speaks_current = range_check-current h.supported_versions (ground arith);
          consistent = capabilities_check-Consistent h.capabilities (ground arith);
          kept = ground arith;
        },
      )
]
