-- ===== src/RateLimit.antt =====
-- cmd/vibebridge/ratelimit.go: the requests of each address. Times are nanoseconds, and `allow`
-- takes the clock's reading. The counter is an `int` of 64 bits that no run brings to its end.
pub mod Window
pub mod Examples
use vibe_bridge.Base.{
  ℕ, ◌+◌, Bool, true, false, List, [], ◌∷◌, Option, none, some, Bytes, ltb, leb, if◌then◌else◌,
  length,
}
use vibe_bridge.Base.Map.{lookup, insert}

pub record RateEntry : Type 0 where
  pub count : ℕ
  pub window_end : ℕ

pub record RateLimiter : Type 0 where
  pub window : ℕ
  pub max_reqs : ℕ
  pub entries : List (Bytes × RateEntry)

pub new_rate_limiter : ℕ → ℕ → RateLimiter
new_rate_limiter max_reqs window = record { window = window; max_reqs = max_reqs; entries = [] }

-- `now.After(entry.windowEnd)`.
abbrev pub past : RateEntry → ℕ → Bool
past e now = ltb e.window_end now

-- The loop of the cleanup.
pub sweep_expired : ℕ → List (Bytes × RateEntry) → List (Bytes × RateEntry)
sweep_expired now [] = []
sweep_expired now ((ip, e) ∷ m) =
    let rest = sweep_expired now m in if past e now then rest else (ip, e) ∷ rest

pub clean_up : ℕ → List (Bytes × RateEntry) → List (Bytes × RateEntry)
clean_up now m = if ltb 1000 (length m) then sweep_expired now m else m

-- A request that opens a window.
pub open_window : RateLimiter → Bytes → ℕ → RateLimiter
open_window rl ip now = record rl {
  entries =
      clean_up now (insert ip (record { count = 1; window_end = now + rl.window }) rl.entries);
}

-- A request inside the window of its entry.
pub count_request : RateLimiter → Bytes → RateEntry → RateLimiter × Bool
count_request rl ip e = (
  record rl { entries = insert ip (record e { count = e.count + 1 }) rl.entries },
  leb (e.count + 1) rl.max_reqs,
)

pub allow : RateLimiter → Bytes → ℕ → RateLimiter × Bool
allow rl ip now = elim (lookup ip rl.entries) [
  | none ↦ (open_window rl ip now, true)
  | some e ↦ if past e now then (open_window rl ip now, true) else count_request rl ip e
]
