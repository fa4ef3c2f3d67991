-- ===== src/PromptAction/Digest.antt =====
-- internal/promptaction/registry.go, actionDigest: what the hash is taken of.
use vibe_bridge.Base.{ℕ, ◌^◌, ◌<◌, ◌≡◌, ◌++◌, arith, length, append_inj, Bytes}
use vibe_bridge.PromptAction.{Action, put_uint64, digest_input}

-- A number below 2 ^ 64 can be read back from its eight bytes.
pub put_uint64-injective :
    (m n : ℕ) (s t : Bytes)
    → m < 2 ^ 64
    → n < 2 ^ 64
    → put_uint64 m ++ s ≡ put_uint64 n ++ t
    → (m ≡ n) × (s ≡ t)
unfolding put_uint64
put_uint64-injective m n s t hm hn e = ground arith

-- Two actions of fewer than 2 ^ 64 bytes each that give the hash the same input are the same
-- action: the length prefixes keep the preview and the terminal input apart.
pub digest_input-injective :
    (a b : Action)
    → length a.preview < 2 ^ 64
    → length b.preview < 2 ^ 64
    → length a.terminal_input < 2 ^ 64
    → length b.terminal_input < 2 ^ 64
    → digest_input a ≡ digest_input b
    → a ≡ b
unfolding digest_input
digest_input-injective a b ha hb ka kb e =
    let (p, r) = put_uint64-injective (length a.preview) (length b.preview) _ _ ha hb e in
    let (previews, q) = append_inj a.preview b.preview _ _ p r in
    let (_, inputs) =
      put_uint64-injective (length a.terminal_input) (length b.terminal_input) _ _ ka kb q in
    ground arith
