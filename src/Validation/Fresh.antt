-- ===== src/Validation/Fresh.antt =====
-- What it means that the previous outputs of a block, as layer1-core/validation/validation.cpp goes
-- through them, are never found in `seenPrevouts`: no two of them are equal.
use drachma_block_chain.Common.{
  ℕ, zero, suc, ◌≡◌, refl, sym, ap, arith, List, [], ◌∷◌, true, false, get_elem?, some, bytes_eq,
  bytes_eq_iff, bytes_eq_refl, ==_refl, ==_iff, ◌==◌, &&_iff, Bool-cases, inl, inr, ◌↔◌,
}
use mathlib.Core.Path.{subst}
use mathlib.Core.Option.{some-injective}
use drachma_block_chain.Tx.{OutPoint}
use drachma_block_chain.Validation.{outpoint_eq, seen_before}
use drachma_block_chain.Validation.Inputs.{Fresh}

outpoint_eq_refl : (p : OutPoint) → outpoint_eq p p ≡ true
unfolding outpoint_eq
outpoint_eq_refl p = rw (==_refl p.index, bytes_eq_refl p.hash)

seen_tail :
    (p q : OutPoint) (seen : List OutPoint)
    → seen_before p (q ∷ seen) ≡ false
    → (outpoint_eq p q ≡ false) × (seen_before p seen ≡ false)
unfolding seen_before
seen_tail p q seen h = ground arith

pub Fresh-not_seen :
    (seen ps : List OutPoint) (n : ℕ) (p : OutPoint)
    → Fresh seen ps
    → get_elem? ps n ≡ some p
    → seen_before p seen ≡ false
Fresh-not_seen seen [] n p f e = absurd (cc)
Fresh-not_seen seen (q ∷ ps) zero p f e =
    subst (λ r. seen_before r seen ≡ false) (some-injective q p e) f.0
Fresh-not_seen seen (q ∷ ps) (suc n) p f e =
    (seen_tail p q seen (Fresh-not_seen (q ∷ seen) ps n p f.1 e)).1

-- The first outpoint does not come back.
Fresh-head :
    (seen ps : List OutPoint) (j : ℕ) (q p : OutPoint)
    → Fresh seen (q ∷ ps)
    → some q ≡ some p
    → get_elem? ps j ≡ some p
    → ⊥
Fresh-head seen ps j q p f e g =
    let h = (seen_tail p q seen (Fresh-not_seen (q ∷ seen) ps j p f.1 g)).0 in
    let same : outpoint_eq p q ≡ true =
      subst (λ r. outpoint_eq p r ≡ true) (some-injective p q (sym e)) (outpoint_eq_refl p) in
    cc

pub Fresh-distinct :
    (seen ps : List OutPoint) (i j : ℕ) (p : OutPoint)
    → Fresh seen ps
    → get_elem? ps i ≡ some p
    → get_elem? ps j ≡ some p
    → i ≡ j
Fresh-distinct seen [] i j p f e g = absurd (cc)
Fresh-distinct seen (q ∷ ps) zero zero p f e g = refl
Fresh-distinct seen (q ∷ ps) zero (suc j) p f e g = absurd (Fresh-head seen ps j q p f e g)
Fresh-distinct seen (q ∷ ps) (suc i) zero p f e g = absurd (Fresh-head seen ps i q p f g e)
Fresh-distinct seen (q ∷ ps) (suc i) (suc j) p f e g =
    ap suc (Fresh-distinct (q ∷ seen) ps i j p f.1 e g)

-- No outpoint stands at two places.
abbrev pub Distinct : List OutPoint → Type 0
Distinct ps = (i j : ℕ) (p : OutPoint) → get_elem? ps i ≡ some p → get_elem? ps j ≡ some p → i ≡ j

OutPoint-ext : (p q : OutPoint) → p.hash ≡ q.hash → p.index ≡ q.index → p ≡ q
OutPoint-ext p q h n i = record { hash = h i; index = n i }

outpoint_eq_sound : (p q : OutPoint) → outpoint_eq p q ≡ true → p ≡ q
unfolding outpoint_eq
outpoint_eq_sound p q h =
    let (index, hash) = (&&_iff (p.index == q.index) (bytes_eq p.hash q.hash)).0 h in
    OutPoint-ext p q ((bytes_eq_iff p.hash q.hash).0 hash) ((==_iff p.index q.index).0 index)

behind_front : (q : OutPoint) (ps : List OutPoint) → Distinct (q ∷ ps) → Distinct ps
behind_front q ps d i j p e g = omega (arith, d (suc i) (suc j) p e g)

front_differs :
    (q : OutPoint) (ps : List OutPoint) (i : ℕ) (p : OutPoint)
    → Distinct (q ∷ ps)
    → get_elem? ps i ≡ some p
    → outpoint_eq p q ≡ false
front_differs q ps i p d e = elim (Bool-cases (outpoint_eq p q)) [
  | inr differ ↦ differ
  | inl same ↦
      absurd (omega (arith, d zero (suc i) p (ap some (sym (outpoint_eq_sound p q same))) e))
]

unseen :
    (p q : OutPoint) (seen : List OutPoint)
    → outpoint_eq p q ≡ false
    → seen_before p seen ≡ false
    → seen_before p (q ∷ seen) ≡ false
unfolding seen_before
unseen p q seen h k = ground arith

unseen_apart :
    (seen ps : List OutPoint)
    → ((i : ℕ) (p : OutPoint) → get_elem? ps i ≡ some p → seen_before p seen ≡ false)
    → Distinct ps
    → Fresh seen ps
unseen_apart seen [] apart d = tt
unseen_apart seen (q ∷ ps) apart d = (
  apart zero q refl,
  unseen_apart (q ∷ seen) ps
      (λ i p e. unseen p q seen (front_differs q ps i p d e) (apart (suc i) p e))
      (behind_front q ps d),
)

pub Fresh-Distinct : (ps : List OutPoint) → Fresh [] ps ↔ Distinct ps
unfolding seen_before
Fresh-Distinct ps =
    (λ f i j p e g. Fresh-distinct [] ps i j p f e g, λ d. unseen_apart [] ps (λ i p e. refl) d)
