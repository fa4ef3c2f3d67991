-- ===== src/Pairing/Invitation.antt =====
-- internal/pairing/manager.go: an invitation, its connection hints and its verification code. What
-- the code calls outside the package is a record of parameters: the Agent's descriptor and its
-- verification, the random source, the Protobuf encoder, SHA-256, and `net/url.Parse`.
use vibe_bridge.Base.Trim.{is_trimmed}
use vibe_bridge.Base.{
  ℕ, ◌+◌, ◌*◌, ◌/◌, ◌%◌, Bool, true, false, not, ◌&&◌, ◌||◌, List, [], ◌∷◌, ◌++◌, Option, none,
  some, Bytes, dec_bytes, ite, ltb, if◌then◌else◌, length, is_empty,
}

pub data DeviceClass : Type 0 where
  class_unspecified agent client : DeviceClass

pub record SignedDescriptor : Type 0 where
  pub device_class : DeviceClass
  pub encoded : Bytes

pub record PairingInvitation : Type 0 where
  pub version : ℕ
  pub invitation_id : Bytes
  pub agent : SignedDescriptor
  pub bootstrap_secret : Bytes
  pub created_at : ℕ
  pub expires_at : ℕ
  pub connection_hints : List Bytes
  pub verification_code : Bytes

pub record Url : Type 0 where
  pub scheme : Bytes
  pub host : Bytes
  pub has_user : Bool
  pub fragment : Bytes

-- One call's view of the code outside; `none` is an error.
pub record Surroundings : Type 0 where
  pub descriptor : Option SignedDescriptor
  pub verifies : SignedDescriptor → Bool
  pub random_id : Option Bytes
  pub random_secret : Option Bytes
  pub marshal : PairingInvitation → Option Bytes
  pub sha256 : Bytes → Bytes
  pub parse_url : Bytes → Option Url

abbrev pub current_invitation_version : ℕ
current_invitation_version = 1

abbrev pub invitation_id_bytes : ℕ
invitation_id_bytes = 16

abbrev pub bootstrap_secret_bytes : ℕ
bootstrap_secret_bytes = 32

abbrev pub max_connection_hints : ℕ
max_connection_hints = 8

abbrev pub max_connection_hint_bytes : ℕ
max_connection_hint_bytes = 512

abbrev pub equal_bytes : Bytes → Bytes → Bool
equal_bytes a b = ite (dec_bytes a b) true false

abbrev member : Bytes → List Bytes → Bool
member k [] = false
member k (j ∷ js) = ite (dec_bytes j k) true (member k js)

-- "http", "https", "ws" and "wss".
abbrev schemes : List Bytes
schemes =
    (104 ∷ 116 ∷ 116 ∷ 112 ∷ [])
    ∷ (104 ∷ 116 ∷ 116 ∷ 112 ∷ 115 ∷ [])
    ∷ (119 ∷ 115 ∷ [])
    ∷ (119 ∷ 115 ∷ 115 ∷ [])
    ∷ []

pub valid_url : Option Url → Bool
valid_url none = false
valid_url (some u) =
    not (is_empty u.host) && not u.has_user && is_empty u.fragment && member u.scheme schemes

-- The loop over the hints, with those seen before.
pub check_hints : Surroundings → List Bytes → List Bytes → Bool
unfolding valid_url
check_hints w seen [] = true
check_hints w seen (h ∷ hs) =
    let rest = check_hints w (h ∷ seen) hs in
    if is_empty h || ltb max_connection_hint_bytes (length h) || not (is_trimmed h)
    then false
    else if not (valid_url (w.parse_url h))
    then false
    else if member h seen
    then false
    else rest

unfoldable pub validate_connection_hints : Surroundings → List Bytes → Bool
unfolding check_hints
validate_connection_hints w hints =
    if ltb max_connection_hints (length hints) then false else check_hints w [] hints

-- "VibeBridge pairing invitation v1" and a zero byte.
abbrev code_label : Bytes
code_label =
    86 ∷ 105 ∷ 98 ∷ 101 ∷ 66 ∷ 114 ∷ 105 ∷ 100 ∷ 103 ∷ 101 ∷ 32 ∷ 112 ∷ 97 ∷ 105 ∷ 114 ∷ 105 ∷ 110
    ∷ 103 ∷ 32 ∷ 105 ∷ 110 ∷ 118 ∷ 105 ∷ 116 ∷ 97 ∷ 116 ∷ 105 ∷ 111 ∷ 110 ∷ 32 ∷ 118 ∷ 49 ∷ 0 ∷ []

-- The first three bytes of the digest as a number below 1,000,000.
pub code_value : Bytes → ℕ
code_value (a ∷ b ∷ c ∷ rest) = (a * 65536 + b * 256 + c) % 1000000
code_value _ = 0

-- `%03d` of a number below 1,000, before the rest of the text.
abbrev three_digits : ℕ → Bytes → Bytes
three_digits n rest = (48 + n / 100 % 10) ∷ (48 + n / 10 % 10) ∷ (48 + n % 10) ∷ rest

-- `%03d-%03d`; 45 is the dash.
pub format_code : ℕ → Bytes
format_code value = three_digits (value / 1000) (45 ∷ three_digits (value % 1000) [])

unfoldable pub code_of : Surroundings → PairingInvitation → Option Bytes
unfolding code_value format_code
code_of w invitation = elim (w.marshal (record invitation { verification_code = [] })) [
  | none ↦ none
  | some encoded ↦ some (format_code (code_value (w.sha256 (code_label ++ encoded))))
]
