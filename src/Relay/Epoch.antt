-- ===== src/Relay/Epoch.antt =====
-- internal/relay/epoch.go and Authorizer of internal/relay/ticket.go: the revocation gate. The
-- source of the epoch is its live reading, `none` where the source is nil.
use vibe_bridge.Base.{
  ℕ, Option, none, some, Bytes, ltb, ◌==◌, if◌then◌else◌, Result, ok, err, ◌≤◌, ◌<◌, ◌≡◌, ◌↔◌,
  arith,
}

pub data AuthorizerError : Type 0 where
  nil_source epoch_unstamped : AuthorizerError
  device_revoked : Bytes → AuthorizerError

-- Takes the device's ID and the issuer's epoch.
abbrev pub Authorizer : Type 0
Authorizer = Bytes → ℕ → Result AuthorizerError (Unit {0})

unfoldable pub store_authorizer : Option ℕ → Authorizer
store_authorizer none device_id issuer_epoch = err nil_source
store_authorizer (some epoch) device_id issuer_epoch =
    if issuer_epoch == 0
    then err epoch_unstamped
    else if ltb issuer_epoch epoch
    then err (device_revoked device_id)
    else ok tt

-- The gate lets through what was stamped with an epoch, and with one that is not behind.
pub store_authorizer-open :
    (epoch issuer_epoch : ℕ) (device_id : Bytes)
    → store_authorizer (some epoch) device_id issuer_epoch ≡ ok tt
      ↔ (0 < issuer_epoch) × (epoch ≤ issuer_epoch)
unfolding store_authorizer
store_authorizer-open epoch issuer_epoch device_id = (λ h. ground arith, λ h. ground arith)
