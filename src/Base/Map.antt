-- ===== src/Base/Map.antt =====
-- Go's maps with byte-string keys, as association lists in which an insertion replaces in place.
use Prim.Native.Nat.{ℕ, ◌+◌, ◌≤◌}
use mathlib.Core.Path.{◌≡◌, refl, subst₂}
use mathlib.Core.Logic.{ite, if_pos, if_neg}
use mathlib.Core.Option.{Option, none, some, none-ne-some}
use mathlib.Core.List.{List, [], ◌∷◌}
use native.Mathlib.Omega.{arith}
use vibe_bridge.Base.Lists.{length}
use vibe_bridge.Base.Keys.{Bytes, dec_bytes}

module _ {ℓ} {V : Type ℓ} where
  abbrev pub lookup : Bytes → List (Bytes × V) → Option V
  lookup k [] = none
  lookup k ((j, v) ∷ m) = ite (dec_bytes j k) (some v) (lookup k m)

  abbrev pub insert : Bytes → V → List (Bytes × V) → List (Bytes × V)
  insert k v [] = (k, v) ∷ []
  insert k v ((j, w) ∷ m) = ite (dec_bytes j k) ((k, v) ∷ m) ((j, w) ∷ insert k v m)

  -- `delete(m, k)`.
  abbrev pub delete : Bytes → List (Bytes × V) → List (Bytes × V)
  delete k [] = []
  delete k ((j, w) ∷ m) = ite (dec_bytes j k) (delete k m) ((j, w) ∷ delete k m)

  -- The sum of a measure over the values; with the measure 1 it is `len`.
  abbrev pub total : (V → ℕ) → List (Bytes × V) → ℕ
  total f [] = 0
  total f ((j, w) ∷ m) = f w + total f m

  -- The same measure of what a lookup found.
  abbrev pub measure : (V → ℕ) → Option V → ℕ
  measure f none = 0
  measure f (some v) = f v

  -- No key stands twice.
  abbrev pub Distinct : List (Bytes × V) → Type ℓ
  Distinct [] = Unit {ℓ}
  Distinct ((j, w) ∷ m) = (lookup j m ≡ none) × Distinct m

module _ {ℓ} {V : Type ℓ} where
  pub lookup-insert :
      (k j : Bytes) (v : V) (m : List (Bytes × V))
      → lookup j (insert k v m) ≡ ite (dec_bytes k j) (some v) (lookup j m)
  lookup-insert k j v [] = refl
  lookup-insert k j v ((i, w) ∷ m) = ground (arith, lookup-insert k j v m)

  pub lookup-delete :
      (k j : Bytes) (m : List (Bytes × V))
      → lookup j (delete k m) ≡ ite (dec_bytes k j) none (lookup j m)
  lookup-delete k j [] = ground arith
  lookup-delete k j ((i, w) ∷ m) = ground (arith, lookup-delete k j m)

  pub total-insert :
      (f : V → ℕ) (k : Bytes) (v : V) (m : List (Bytes × V))
      → total f (insert k v m) + measure f (lookup k m) ≡ total f m + f v
  total-insert f k v [] = omega arith
  total-insert f k v ((i, w) ∷ m) = ground (arith, total-insert f k v m)

  pub delete_absent : (k : Bytes) (m : List (Bytes × V)) → lookup k m ≡ none → delete k m ≡ m
  delete_absent k [] h = refl
  delete_absent k ((i, w) ∷ m) h = ground (arith, delete_absent k m)

  pub delete-insert :
      (k : Bytes) (v : V) (m : List (Bytes × V)) → lookup k m ≡ none → delete k (insert k v m) ≡ m
  delete-insert k v [] h = ground arith
  delete-insert k v ((i, w) ∷ m) h = ground (arith, delete-insert k v m)

  pub total-delete :
      (f : V → ℕ) (k : Bytes) (m : List (Bytes × V))
      → Distinct m
      → total f (delete k m) + measure f (lookup k m) ≡ total f m
  total-delete f k [] d = omega arith
  total-delete f k ((i, w) ∷ m) d = ground (arith, total-delete f k m d.1, delete_absent k m)

  pub insert-Distinct :
      (k : Bytes) (v : V) (m : List (Bytes × V)) → Distinct m → Distinct (insert k v m)
  insert-Distinct k v [] d = (refl, tt)
  insert-Distinct k v ((i, w) ∷ m) d =
      ground (arith, insert-Distinct k v m d.1, lookup-insert k i v m)

  pub delete-Distinct : (k : Bytes) (m : List (Bytes × V)) → Distinct m → Distinct (delete k m)
  delete-Distinct k [] d = tt
  delete-Distinct k ((i, w) ∷ m) d = ground (arith, delete-Distinct k m d.1, lookup-delete k i m)

  pub length-insert :
      (k : Bytes) (v : V) (m : List (Bytes × V))
      → length (insert k v m) + measure (λ _. 1) (lookup k m) ≡ length m + 1
  length-insert k v [] = omega arith
  length-insert k v ((i, w) ∷ m) = ground (arith, length-insert k v m)

  pub length-delete : (k : Bytes) (m : List (Bytes × V)) → length (delete k m) ≤ length m
  length-delete k [] = omega arith
  length-delete k ((i, w) ∷ m) = ground (arith, length-delete k m)

  pub measure-le-total :
      (f : V → ℕ) (k : Bytes) (m : List (Bytes × V)) → measure f (lookup k m) ≤ total f m
  measure-le-total f k [] = omega arith
  measure-le-total f k ((i, w) ∷ m) = ground (arith, measure-le-total f k m)

-- A property of every entry.
module _ {ℓ κ} {V : Type ℓ} (P : Bytes → V → Type κ) where
  abbrev pub AllEntries : List (Bytes × V) → Type κ
  AllEntries [] = Unit {κ}
  AllEntries ((k, v) ∷ m) = P k v × AllEntries m

  pub lookup-AllEntries :
      (k : Bytes) (v : V) (m : List (Bytes × V)) → AllEntries m → lookup k m ≡ some v → P k v
  lookup-AllEntries k v [] a h = absurd (none-ne-some v h)
  lookup-AllEntries k v ((j, w) ∷ m) a h = elim (dec_bytes j k) [
    | yes same ↦ let e : w ≡ v = ground arith in subst₂ P same e a.0
    | no other ↦ lookup-AllEntries k v m a.1 (rw (if_neg _ other) at h)
  ]

  pub insert-AllEntries :
      (k : Bytes) (v : V) (m : List (Bytes × V)) → P k v → AllEntries m → AllEntries (insert k v m)
  insert-AllEntries k v [] p a = (p, tt)
  insert-AllEntries k v ((j, w) ∷ m) p a = elim (dec_bytes j k) [
    | yes same ↦ rw (if_pos _ same) (p, a.1)
    | no other ↦ rw (if_neg _ other) (a.0, insert-AllEntries k v m p a.1)
  ]

  pub delete-AllEntries :
      (k : Bytes) (m : List (Bytes × V)) → AllEntries m → AllEntries (delete k m)
  delete-AllEntries k [] a = tt
  delete-AllEntries k ((j, w) ∷ m) a = elim (dec_bytes j k) [
    | yes same ↦ rw (if_pos _ same) (delete-AllEntries k m a.1)
    | no other ↦ rw (if_neg _ other) (a.0, delete-AllEntries k m a.1)
  ]
