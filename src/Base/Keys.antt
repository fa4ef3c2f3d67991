-- ===== src/Base/Keys.antt =====
-- Byte slices and strings: both are lists of bytes, and both serve as map keys.
use Prim.Native.Nat.{ℕ}
use mathlib.Core.List.{List}
use native.Mathlib.Decide.{ℕ_discrete}

abbrev pub Bytes : Type 0
Bytes = List ℕ

unfoldable pub dec_bytes : Discrete Bytes
unfolding ℕ_discrete
dec_bytes = hlevel ℕ_discrete
