-- ===== src/Pow/Size.antt =====
-- The byte size that `TargetToCompact` of layer1-core/pow/difficulty.cpp counts, and its leading bytes.
use drachma_block_chain.Common.{
  ℕ, zero, suc, ◌+◌, ◌-◌, ◌*◌, ◌/◌, ◌^◌, ◌≤◌, ◌<◌, ◌≡◌, refl, sym, ap, ◌∙◌, arith, ltb, ltb→lt,
  ltb→le, Bool-cases, inl, inr,
}
use mathlib.Core.Path.{subst}
use drachma_block_chain.Common.Bytes.{shift_eight}
use drachma_block_chain.Pow.{size_loop, size_of, leading}
use native.Mathlib.Nat.{
  pow-suc, div-lt_iff_lt-mul, one-le-pow, div-mul-le_self, lt-div-mul-add, zero-add, div-one,
  pow-le-pow_right,
}

pub pow_256 : (n : ℕ) → 2 ^ (8 * n) ≡ 256 ^ n
pow_256 zero = refl
pow_256 (suc n) = omega (arith, shift_eight n, pow_256 n, pow-suc 256 n)

-- `k` rounds bring `tmp` to 0, and no fewer.
record IsSize (tmp k : ℕ) : Type 0 where
  below : tmp < 256 ^ k
  none : tmp ≡ 0 → k ≡ 0
  above : 0 < tmp → 256 ^ k ≤ tmp * 256

IsSize-step : (tmp k : ℕ) → 0 < tmp → IsSize (tmp / 2 ^ 8) k → IsSize tmp (suc k)
IsSize-step tmp k h s = record {
  below = omega (arith, pow-suc 256 k, s.below);
  none = λ e. absurd (omega arith);
  above = λ _. above;
}
  where
    above : 256 ^ suc k ≤ tmp * 256
    above = elim (Bool-cases (ltb 0 (tmp / 2 ^ 8))) [
      | inl more ↦ omega (arith, pow-suc 256 k, s.above (ltb→lt _ _ more))
      | inr last ↦
          omega (arith, ap (λ (n : ℕ). 256 ^ suc n) (s.none (omega (arith, ltb→le _ _ last))))
    ]

size_loop-IsSize :
    (fuel tmp size : ℕ) → tmp ≤ fuel → (k : ℕ) × (size_loop fuel tmp size ≡ size + k) × IsSize tmp k
unfolding size_loop
size_loop-IsSize zero tmp size h = (
  0,
  omega arith,
  record { below = omega arith; none = λ _. refl; above = λ p. absurd (omega arith) },
)
size_loop-IsSize (suc fuel) tmp size h = elim (Bool-cases (ltb 0 tmp)) [
  | inl more ↦
      let p = ltb→lt 0 tmp more in
      let (k, e, s) = size_loop-IsSize fuel (tmp / 2 ^ 8) (size + 1) (omega arith) in
      (suc k, rw more (omega (arith, e)), IsSize-step tmp k p s)
  | inr done ↦
      let p = ltb→le 0 tmp done in
      (
        0,
        rw done (omega arith),
        record { below = omega arith; none = λ _. refl; above = λ q. absurd (omega arith) },
      )
]

size_of-IsSize : (target : ℕ) → IsSize target (size_of target)
unfolding size_of
size_of-IsSize target =
    let (k, e, s) = size_loop-IsSize target target 0 (omega arith) in
    subst (IsSize target) (sym (e ∙ zero-add k)) s

size_pos : (target k : ℕ) → 0 < target → target < 256 ^ k → 0 < k
size_pos target zero h b = absurd (omega arith)
size_pos target (suc k) h b = omega arith

-- The size of a positive target is the number of its bytes: the loop does not run out of fuel.
pub size_of_lem :
    (target : ℕ)
    → 0 < target
    → (0 < size_of target) × (target < 256 ^ size_of target) × (256 ^ size_of target ≤ target * 256)
size_of_lem target h =
    let s = size_of-IsSize target in (size_pos target _ h s.below, s.below, s.above h)

-- A 256-bit target has at most 32 bytes.
pub size_of-le : (target : ℕ) → target < 2 ^ 256 → size_of target ≤ 32
size_of-le target h = elim (Bool-cases (ltb 32 (size_of target))) [
  | inl more ↦
      let p : 33 ≤ size_of target = ltb→lt _ _ more in
      absurd (impossible (pow-le-pow_right {n = 256} (omega arith) p))
  | inr fits ↦ ltb→le _ _ fits
]
  where
    impossible : 256 ^ 33 ≤ 256 ^ size_of target → ⊥
    impossible p = elim (Bool-cases (ltb 0 target)) [
      | inl more ↦ omega (arith, (size_of-IsSize target).above (ltb→lt _ _ more))
      | inr done ↦ omega (
        arith,
        ap (λ (n : ℕ). 256 ^ n) ((size_of-IsSize target).none (omega (arith, ltb→le _ _ done))),
      )
    ]

pow_three : (d : ℕ) → 256 ^ suc (suc (suc d)) ≡ 2 ^ 24 * 256 ^ d
pow_three d = omega (arith, pow-suc 256 d, pow-suc 256 (suc d), pow-suc 256 (suc (suc d)))

-- What `leading` divides by.
unfoldable pub unit_of : ℕ → ℕ
unit_of size = 256 ^ (size - 3)

leading-unit : (target size : ℕ) → leading target size ≡ target / unit_of size
unfolding leading unit_of
leading-unit target size = elim (Bool-cases (ltb 3 size)) [
  | inl long ↦ rw long (ap (λ (n : ℕ). target / n) (pow_256 (size - 3)))
  | inr short ↦
      let e : size - 3 ≡ 0 = omega (arith, ltb→le _ _ short) in rw (short, e) (sym (div-one target))
]

pub unit-pos : (size : ℕ) → 0 < unit_of size
unfolding unit_of
unit-pos size = one-le-pow (size - 3) 256 (omega arith)

size-le-unit : (size : ℕ) → 256 ^ size ≤ 2 ^ 24 * unit_of size
unfolding unit_of
size-le-unit zero = omega arith
size-le-unit (suc zero) = omega arith
size-le-unit (suc (suc zero)) = omega arith
size-le-unit (suc (suc (suc d))) =
    omega (arith, pow_three d, ap (λ (n : ℕ). 2 ^ 24 * 256 ^ n) (drop_three d))
  where
    drop_three : (d : ℕ) → suc (suc (suc d)) - 3 ≡ d
    drop_three d = omega arith

-- The leading bytes are at most three. Scaled back they are the target without its lower bytes.
pub leading_lem :
    (target : ℕ)
    → 0 < target
    → (leading target (size_of target) < 2 ^ 24)
      × (leading target (size_of target) * unit_of (size_of target) ≤ target)
      × (target < (leading target (size_of target) + 1) * unit_of (size_of target))
leading_lem target h =
    let size = size_of target in
    rw (leading-unit target size) (
      (div-lt_iff_lt-mul (unit-pos size)).1
          (omega (arith, size-le-unit size, (size_of_lem target h).1)),
      div-mul-le_self target (unit_of size),
      omega (arith, lt-div-mul-add {a = target} (unit-pos size)),
    )
