-- ===== src/RateLimit/Examples.antt =====
-- cmd/vibebridge/ratelimit.go on concrete inputs.
use Prim.Native.Nat.{max}
use vibe_bridge.Base.{ℕ, ◌+◌, ◌≤◌, ◌≡◌, refl, true, List, [], ◌∷◌, Bytes, arith, dec_bytes}
use vibe_bridge.RateLimit.{
  RateLimiter, new_rate_limiter, allow, open_window, count_request, clean_up, sweep_expired,
}
use vibe_bridge.RateLimit.Window.{Request, allowed, window_cap}

abbrev ip : Bytes
ip = 10 ∷ 0 ∷ 0 ∷ 1 ∷ []

abbrev limiter : RateLimiter
limiter = record { window = 100; max_reqs = 2; entries = [] }

limiter_new : new_rate_limiter 2 100 ≡ limiter
unfolding new_rate_limiter
limiter_new = refl

abbrev at : ℕ → Request
at now = record { ip = ip; at = now }

abbrev requests : List Request
requests = at 11 ∷ record { ip = 7 ∷ []; at = 12 } ∷ at 13 ∷ at 110 ∷ []

-- Two windows that touch let four requests through within a third of a window.
abbrev burst : List Request
burst = at 0 ∷ at 99 ∷ at 101 ∷ at 102 ∷ []

two_windows : allowed ip limiter burst ≡ 4
unfolding allowed allow open_window count_request clean_up sweep_expired dec_bytes
two_windows = refl

window_cap_example :
    ((allow limiter ip 10).1 ≡ true) × (1 + allowed ip (allow limiter ip 10).0 requests ≤ max 1 2)
window_cap_example = window_cap limiter ip 10 requests refl (omega arith)
