-- ===== src/Attachment/Transfer/Cancelled.antt =====
-- internal/attachment/transfer.go: the list of the cancelled IDs and its bound.
use vibe_bridge.Base.{
  ◌+◌, ◌≡◌, ◌≤◌, refl, sym, ◌∙◌, true, false, ◌||◌, List, [], ◌∷◌, ◌++◌, Bytes, if_cases, arith,
  dec_bytes, ite, is_some, Bool, leb, length, length-append,
}
use vibe_bridge.Base.Map.{lookup, insert, lookup-insert, lookup-delete}
use vibe_bridge.Attachment.Upload.{max_cancelled_outcomes, Manager}
use vibe_bridge.Attachment.Staging.{remove_first, trim_cancelled, record_cancelled_locked}

abbrev pub listed : Bytes → List Bytes → Bool
listed key [] = false
listed key (k ∷ ks) = ite (dec_bytes k key) true (listed key ks)

abbrev pub AllOnce : List Bytes → Type 0
AllOnce [] = Unit {0}
AllOnce (k ∷ ks) = (listed k ks ≡ false) × AllOnce ks

-- The list and the set of the cancelled IDs agree, and both are bounded.
pub record Remembered (m : Manager) : Type 0 where
  pub bounded : length m.cancelled_order ≤ max_cancelled_outcomes
  pub once : AllOnce m.cancelled_order
  pub agree : (key : Bytes) → is_some (lookup key m.cancelled) ≡ listed key m.cancelled_order

pub listed-last :
    (key j : Bytes) (order : List Bytes)
    → listed j (order ++ key ∷ []) ≡ (listed j order || ite (dec_bytes key j) true false)
listed-last key j [] = ground arith
listed-last key j (k ∷ order) = ground (arith, listed-last key j order)

AllOnce-last :
    (key : Bytes) (order : List Bytes)
    → listed key order ≡ false
    → AllOnce order
    → AllOnce (order ++ key ∷ [])
AllOnce-last key [] new once = (refl, tt)
AllOnce-last key (k ∷ order) new once =
    (ground (arith, listed-last key k order), AllOnce-last key order (ground arith) once.1)

listed-remove_first :
    (key j : Bytes) (order : List Bytes)
    → AllOnce order
    → listed j (remove_first key order) ≡ ite (dec_bytes key j) false (listed j order)
unfolding remove_first
listed-remove_first key j [] once = ground arith
listed-remove_first key j (k ∷ order) once = ground (arith, listed-remove_first key j order once.1)

AllOnce-remove_first :
    (key : Bytes) (order : List Bytes) → AllOnce order → AllOnce (remove_first key order)
unfolding remove_first
AllOnce-remove_first key [] once = tt
AllOnce-remove_first key (k ∷ order) once =
    ground (arith, listed-remove_first key k order once.1, AllOnce-remove_first key order once.1)

length-remove_first :
    (key : Bytes) (order : List Bytes)
    → listed key order ≡ true
    → length (remove_first key order) + 1 ≡ length order
unfolding remove_first
length-remove_first key [] known = absurd (ground arith)
length-remove_first key (k ∷ order) known = ground (arith, length-remove_first key order)

trim_cancelled-Remembered :
    (m : Manager) (c : List (Bytes × Unit {0})) (order : List Bytes)
    → length order ≤ max_cancelled_outcomes + 1
    → AllOnce order
    → ((key : Bytes) → is_some (lookup key c) ≡ listed key order)
    → Remembered (trim_cancelled (record m { cancelled = c }) order)
unfolding trim_cancelled
trim_cancelled-Remembered m c [] short once agree = record {
  bounded = omega arith;
  once = tt;
  agree = agree;
}
trim_cancelled-Remembered m c (oldest ∷ order) short once agree =
    if_cases Remembered (leb (length (oldest ∷ order)) max_cancelled_outcomes) _ _
      (λ few. record { bounded = ground arith; once = once; agree = agree })
      (λ many. record {
        bounded = omega arith;
        once = once.1;
        agree = λ key. ground (arith, agree key, lookup-delete oldest key c, once.0);
      })

pub record_cancelled_locked-Remembered :
    (m : Manager) (key : Bytes) → Remembered m → Remembered (record_cancelled_locked m key)
unfolding record_cancelled_locked
record_cancelled_locked-Remembered m key q =
    let order = m.cancelled_order in
    if_cases Remembered (is_some (lookup key m.cancelled)) _ _
      (λ known.
        let known' : listed key order ≡ true = sym (q.agree key) ∙ known in
        trim_cancelled-Remembered m m.cancelled (remove_first key order ++ key ∷ [])
          (omega (
            arith,
            length-append (remove_first key order) (key ∷ []),
            length-remove_first key order known',
            q.bounded,
          ))
          (AllOnce-last key (remove_first key order)
            (ground (arith, listed-remove_first key key order q.once))
            (AllOnce-remove_first key order q.once))
          (λ j. ground (
            arith,
            q.agree j,
            known',
            listed-last key j (remove_first key order),
            listed-remove_first key j order q.once,
          )))
      (λ unknown.
        let new : listed key order ≡ false = sym (q.agree key) ∙ unknown in
        trim_cancelled-Remembered m (insert key tt m.cancelled) (order ++ key ∷ [])
          (omega (arith, length-append order (key ∷ []), q.bounded))
          (AllOnce-last key order new q.once)
          (λ j.
            ground (arith, q.agree j, lookup-insert key j tt m.cancelled, listed-last key j order)))
