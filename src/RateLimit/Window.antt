-- ===== src/RateLimit/Window.antt =====
-- cmd/vibebridge/ratelimit.go: how many requests pass within a window.
use Prim.Native.Nat.{max}
use vibe_bridge.Base.{
  ℕ, ◌+◌, ◌≤◌, ◌≡◌, ◌≢◌, refl, true, List, [], ◌∷◌, Option, none, some, Bytes, arith, dec_bytes,
  ite, leb, if◌then◌else◌, inl, inr, Option-cases,
}
use vibe_bridge.Base.Map.{lookup, insert, lookup-insert}
use vibe_bridge.RateLimit.{
  RateEntry, RateLimiter, past, sweep_expired, clean_up, open_window, count_request, allow,
}

-- What a lookup tells of an entry whose window is still open.
abbrev pub open_at : ℕ → Option RateEntry → Option RateEntry
open_at now none = none
open_at now (some e) = if past e now then none else some e

sweep_keeps :
    (now : ℕ) (ip : Bytes) (e : RateEntry) (m : List (Bytes × RateEntry))
    → lookup ip m ≡ some e
    → now ≤ e.window_end
    → lookup ip (sweep_expired now m) ≡ some e
unfolding sweep_expired
sweep_keeps now ip e [] found current = ground arith
sweep_keeps now ip e ((j, d) ∷ m) found current = ground (arith, sweep_keeps now ip e m)

clean_up_keeps :
    (now : ℕ) (ip : Bytes) (e : RateEntry) (m : List (Bytes × RateEntry))
    → lookup ip m ≡ some e
    → now ≤ e.window_end
    → lookup ip (clean_up now m) ≡ some e
unfolding clean_up
clean_up_keeps now ip e m found current = ground (arith, sweep_keeps now ip e m found current)

-- A request of an address, at a time.
pub record Request : Type 0 where
  pub ip : Bytes
  pub at : ℕ

-- How many requests of one address are let through.
unfoldable pub allowed : Bytes → RateLimiter → List Request → ℕ
allowed ip rl [] = 0
allowed ip rl (q ∷ qs) =
    (if (allow rl q.ip q.at).1 then ite (dec_bytes q.ip ip) 1 0 else 0)
    + allowed ip (allow rl q.ip q.at).0 qs

abbrev pub latest : List Request → ℕ
latest [] = 0
latest (q ∷ qs) = max q.at (latest qs)

-- The entry of the address after a request within its window.
abbrev counted : Bytes → Request → RateEntry → RateEntry
counted ip q e = ite (dec_bytes q.ip ip) (record e { count = e.count + 1 }) e

open_window_limit :
    (rl : RateLimiter) (q : Request) → (open_window rl q.ip q.at).max_reqs ≡ rl.max_reqs
unfolding open_window
open_window_limit rl q = refl

open_window-entry :
    (rl : RateLimiter) (ip : Bytes) (e : RateEntry) (q : Request)
    → lookup ip rl.entries ≡ some e
    → q.at ≤ e.window_end
    → q.ip ≢ ip
    → lookup ip (open_window rl q.ip q.at).entries ≡ some e
unfolding open_window
open_window-entry rl ip e q found current other =
    let opened : RateEntry = record { count = 1; window_end = q.at + rl.window } in
    clean_up_keeps q.at ip e (insert q.ip opened rl.entries)
      (ground (arith, lookup-insert q.ip ip opened rl.entries)) current

-- The limiter after a request keeps the address's open entry, counted on for its own requests, and
-- lets a request of its own through by the count.
allow-entry :
    (rl : RateLimiter) (ip : Bytes) (e : RateEntry) (q : Request)
    → lookup ip rl.entries ≡ some e
    → q.at ≤ e.window_end
    → (lookup ip (allow rl q.ip q.at).0.entries ≡ some (counted ip q e))
      × ((allow rl q.ip q.at).0.max_reqs ≡ rl.max_reqs)
      × (q.ip ≡ ip → (allow rl q.ip q.at).1 ≡ leb (e.count + 1) rl.max_reqs)
unfolding allow count_request
allow-entry rl ip e q found current = elim (Option-cases (lookup q.ip rl.entries)) [
  | inl absent ↦ ground (arith, open_window-entry rl ip e q found current, open_window_limit rl q)
  | inr (d, known) ↦ ground (
    arith,
    open_window-entry rl ip e q found current,
    open_window_limit rl q,
    lookup-insert q.ip ip (record d { count = d.count + 1 }) rl.entries,
  )
]

-- While its window is open, an address has no more requests let through than the limit leaves.
allowed-open :
    (ip : Bytes) (rl : RateLimiter) (e : RateEntry) (qs : List Request)
    → lookup ip rl.entries ≡ some e
    → latest qs ≤ e.window_end
    → e.count + allowed ip rl qs ≤ max e.count rl.max_reqs
unfolding allowed
allowed-open ip rl e [] found current = omega arith
allowed-open ip rl e (q ∷ qs) found current =
    let (entry, limit, answer) = allow-entry rl ip e q found (omega arith) in
    let same_end : (counted ip q e).window_end ≡ e.window_end = ground arith in
    let later =
      allowed-open ip (allow rl q.ip q.at).0 (counted ip q e) qs entry (omega (arith, same_end)) in
    ground (arith, later, limit, answer)

open_window-own :
    (rl : RateLimiter) (ip : Bytes) (now : ℕ)
    → lookup ip (open_window rl ip now).entries
      ≡ some (record { count = 1; window_end = now + rl.window })
unfolding open_window
open_window-own rl ip now =
    let opened : RateEntry = record { count = 1; window_end = now + rl.window } in
    clean_up_keeps now ip opened (insert ip opened rl.entries)
      (ground (arith, lookup-insert ip ip opened rl.entries)) (omega arith)

allow-opens :
    (rl : RateLimiter) (ip : Bytes) (now : ℕ)
    → open_at now (lookup ip rl.entries) ≡ none
    → allow rl ip now ≡ (open_window rl ip now, true)
unfolding allow
allow-opens rl ip now new = ground arith

-- A request of an address without an open window is let through, and of all the requests up to the
-- end of the window that it opens, whoever makes them, at most as many of the address as the limit
-- are let through, the opening one included; where the limit is 0 the opening one still is.
pub window_cap :
    (rl : RateLimiter) (ip : Bytes) (now : ℕ) (qs : List Request)
    → open_at now (lookup ip rl.entries) ≡ none
    → latest qs ≤ now + rl.window
    → ((allow rl ip now).1 ≡ true) × (1 + allowed ip (allow rl ip now).0 qs ≤ max 1 rl.max_reqs)
unfolding open_window
window_cap rl ip now qs new inside = rw (allow-opens rl ip now new) (
  refl,
  allowed-open ip (open_window rl ip now) (record { count = 1; window_end = now + rl.window }) qs
      (open_window-own rl ip now) inside,
)
