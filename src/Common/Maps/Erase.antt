-- ===== src/Common/Maps/Erase.antt =====
-- What a map holds after an erasure, or with an entry put behind the others.
use drachma_block_chain.Common.{
  ◌+◌, ◌≡◌, refl, ◌∙◌, arith, [], ◌∷◌, ◌++◌, length, All, true, false, Bool-cases, inl, inr,
  if◌then◌else◌,
}
use drachma_block_chain.Common.Maps.{KeyEq, Map, has, erase, same-false_flip}
use drachma_block_chain.Common.Maps.Distinct.{IsDistinct}

module _ {K V : Type 0} (eq : KeyEq K) where
  pub has-append :
      (l k : K) (v : V) (m : Map K V)
      → has eq l (m ++ (k, v) ∷ []) ≡ (if has eq l m then true else eq.same k l)
  unfolding has
  has-append l k v [] = elim (Bool-cases (eq.same k l)) [ inl e ↦ rw e refl | inr e ↦ rw e refl ]
  has-append l k v ((i, w) ∷ m) = elim (Bool-cases (eq.same i l)) [
    | inl e ↦ rw e refl
    | inr e ↦ rw e (has-append l k v m)
  ]

  pub append-IsDistinct :
      (k : K) (v : V) (m : Map K V)
      → has eq k m ≡ false
      → IsDistinct eq m
      → IsDistinct eq (m ++ (k, v) ∷ [])
  append-IsDistinct k v [] h d = (unfold has in refl, tt)
  append-IsDistinct k v ((i, w) ∷ m) h d = elim (Bool-cases (eq.same i k)) [
    | inl e ↦ absurd (hit e h)
    | inr e ↦ (
      has-append i k v m ∙ rw d.0 (same-false_flip eq i k e),
      append-IsDistinct k v m (miss e h) d.1,
    )
  ]
    where
      hit : eq.same i k ≡ true → has eq k ((i, w) ∷ m) ≡ false → ⊥
      hit e h = unfold has in cc (rw e at h)

      miss : eq.same i k ≡ false → has eq k ((i, w) ∷ m) ≡ false → has eq k m ≡ false
      miss e h = unfold has in (rw e at h)

  pub has-erase :
      (k l : K) (m : Map K V)
      → has eq l (erase eq k m) ≡ (if eq.same k l then false else has eq l m)
  unfolding has erase
  has-erase k l [] = ground arith
  has-erase k l ((i, w) ∷ m) =
      ground (arith, has-erase k l m, eq.same_iff i k, eq.same_iff i l, eq.same_iff k l)

  pub erase_absent : (k : K) (m : Map K V) → has eq k m ≡ false → erase eq k m ≡ m
  unfolding has erase
  erase_absent k [] h = refl
  erase_absent k ((i, w) ∷ m) h = ground (arith, erase_absent k m)

  pub length-erase :
      (k : K) (m : Map K V)
      → IsDistinct eq m
      → has eq k m ≡ true
      → length (erase eq k m) + 1 ≡ length m
  unfolding has erase
  length-erase k [] d h = cc
  length-erase k ((i, w) ∷ m) d h =
      ground (arith, eq.same_iff i k, erase_absent k m, length-erase k m d.1)

  pub erase-IsDistinct : (k : K) (m : Map K V) → IsDistinct eq m → IsDistinct eq (erase eq k m)
  unfolding erase
  erase-IsDistinct k [] d = tt
  erase-IsDistinct k ((i, w) ∷ m) d = elim (Bool-cases (eq.same i k)) [
    | inl e ↦ rw e (erase-IsDistinct k m d.1)
    | inr e ↦ rw e (has-erase k i m ∙ ground (arith, d.0), erase-IsDistinct k m d.1)
  ]

  pub All-erase : (P : K × V → Type 0) (k : K) (m : Map K V) → All P m → All P (erase eq k m)
  unfolding erase
  All-erase P k [] a = tt
  All-erase P k ((i, w) ∷ m) a = elim (Bool-cases (eq.same i k)) [
    | inl e ↦ rw e (All-erase P k m a.1)
    | inr e ↦ rw e (a.0, All-erase P k m a.1)
  ]
