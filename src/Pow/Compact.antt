-- ===== src/Pow/Compact.antt =====
-- `TargetToCompact` followed by `CompactToTarget` of layer1-core/pow/difficulty.cpp.
use drachma_block_chain.Common.{
  ℕ, zero, suc, ◌+◌, ◌-◌, ◌*◌, ◌/◌, ◌%◌, ◌^◌, ◌≤◌, ◌<◌, ◌≡◌, refl, sym, ap, ◌∙◌, arith, bit_and,
  leb, leb→le, le→leb, ◌≢◌, ◌==◌, false, ==_iff, Bool-cases, inl, inr, ok,
}
use drachma_block_chain.Common.Bits.{bit_and-mask, bit_and-bit, bit_or-shift}
use drachma_block_chain.Pow.{
  scale, compact_to_target, leading, normalise, assemble, target_to_compact, size_of, size_loop,
}
use drachma_block_chain.Pow.Size.{pow_256, unit_of, unit-pos, leading_lem, size_of-le}
use native.Mathlib.Numerals.{add-one}
use native.Mathlib.Nat.{
  mod-le, mul-lt-mul_of_pos_right, div-mul-le_self, mod-eq_of_lt, mul-le-mul_right, mul-le-mul_left,
  div-le_self, pow-suc,
}

-- A result word is its mantissa and its exponent.
assemble_lem : (c s : ℕ) → s < 256 → assemble c s ≡ c % 2 ^ 23 + s * 2 ^ 24
unfolding assemble
assemble_lem c s h =
    rw (mod-eq_of_lt {n = s * 2 ^ 24} {m = 2 ^ 32} (omega arith), bit_and-mask 23 (c % 2 ^ 32))
      (bit_or-shift 24 (c % 2 ^ 32 % 2 ^ 23) s (omega arith) ∙ omega arith)

compact_parts : (m s : ℕ) → m < 2 ^ 23 → compact_to_target (m + s * 2 ^ 24) ≡ ok (scale m s)
unfolding compact_to_target
compact_parts m s h =
    let x = m + s * 2 ^ 24 in
    let sign : bit_and x (2 ^ 23) ≡ 0 = bit_and-bit 23 x ∙ omega arith in
    let mantissa : bit_and x (2 ^ 23 - 1) ≡ m = bit_and-mask 23 x ∙ omega arith in
    let exponent : x / 2 ^ 24 ≡ s = omega arith in rw (sign, mantissa, exponent)

positive : (n : ℕ) → 0 < n → (n == 0) ≡ false
positive n h = ground arith

nonzero : (n : ℕ) → n ≢ 0 → (n == 0) ≡ false
nonzero n h = ground arith

-- Scaling by the exponent multiplies by the unit, or drops low bytes of a short number.
scale_long : (m s : ℕ) → 3 ≤ s → scale m s ≡ m * unit_of s
unfolding scale unit_of
scale_long m s h = elim (Bool-cases (leb s 3)) [
  | inl short ↦ let e : s ≡ 3 = omega (arith, leb→le s 3 short) in rw e (omega arith)
  | inr long ↦ rw long (ap (λ (n : ℕ). m * n) (pow_256 (s - 3)))
]

scale_short : (m s : ℕ) → s ≤ 3 → scale m s ≤ m
unfolding scale
scale_short m s h = rw (le→leb s 3 h) (div-le_self m (2 ^ (8 * (3 - s))))

unit_short : (s : ℕ) → s ≤ 3 → unit_of s ≡ 1
unfolding unit_of
unit_short s h = ap (λ (n : ℕ). 256 ^ n) (none s h)
  where
    none : (s : ℕ) → s ≤ 3 → s - 3 ≡ 0
    none s h = omega arith

pub scale-le-unit : (m s : ℕ) → scale m s ≤ m * unit_of s
scale-le-unit m s = elim (Bool-cases (leb s 3)) [
  | inl short ↦
      let h = leb→le s 3 short in
      omega (arith, scale_short m s h, ap (λ (n : ℕ). m * n) (unit_short s h))
  | inr long ↦ omega (arith, scale_long m s (ground arith))
]

unit_of-suc : (s : ℕ) → 3 ≤ s → unit_of (suc s) ≡ unit_of s * 256
unfolding unit_of
unit_of-suc zero h = absurd (omega arith)
unit_of-suc (suc zero) h = absurd (omega arith)
unit_of-suc (suc (suc zero)) h = absurd (omega arith)
unit_of-suc (suc (suc (suc d))) h =
    ap (λ (n : ℕ). 256 ^ n) (drop_three (suc d))
    ∙ pow-suc 256 d
    ∙ ap (λ (n : ℕ). 256 ^ n * 256) (sym (drop_three d))
  where
    drop_three : (d : ℕ) → suc (suc (suc d)) - 3 ≡ d
    drop_three d = omega arith

unit_of-suc_le : (s : ℕ) → unit_of (suc s) ≤ unit_of s * 256
unit_of-suc_le s = elim (Bool-cases (leb 3 s)) [
  | inl long ↦ omega (arith, unit_of-suc s (leb→le 3 s long))
  | inr short ↦
      let h : s < 3 = ground arith in
      omega (arith, unit_short s (omega arith), unit_short (suc s) (omega arith))
]

-- The two ways that `TargetToCompact` ends for a positive 256-bit target, and what is read back: by
-- bit 15 of the leading bytes.
abbrev pub leading_of : ℕ → ℕ
leading_of target = leading target (size_of target)

compact_clear :
    (target : ℕ)
    → 0 < target
    → target < 2 ^ 256
    → bit_and (leading_of target) 0x008000 ≡ 0
    → compact_to_target (target_to_compact target)
      ≡ ok (scale (leading_of target % 2 ^ 23) (size_of target))
unfolding target_to_compact normalise
compact_clear target h b e =
    rw (positive target h, e)
      (ap compact_to_target
          (assemble_lem (leading_of target) (size_of target) (omega (arith, size_of-le target b)))
        ∙ compact_parts _ (size_of target) (omega arith))

compact_set :
    (target : ℕ)
    → 0 < target
    → target < 2 ^ 256
    → bit_and (leading_of target) 0x008000 ≢ 0
    → compact_to_target (target_to_compact target)
      ≡ ok (scale (leading_of target / 2 ^ 8) (size_of target + 1))
unfolding target_to_compact normalise
compact_set target h b e =
    rw (positive target h, nonzero _ e)
      (ap compact_to_target (
          assemble_lem (leading_of target / 2 ^ 8) (size_of target + 1)
            (omega (arith, size_of-le target b)))
        ∙ compact_parts _ (size_of target + 1) (omega arith)
        ∙ ap (λ (m : ℕ). ok (scale m (size_of target + 1)))
            (mod-eq_of_lt (omega (arith, (leading_lem target h).0))))

-- Encoding rounds down: what is read back of a 256-bit target is defined and no larger, so a block's
-- bits never stand for an easier target than the one computed.
pub compact_rounds_down :
    (target : ℕ)
    → target < 2 ^ 256
    → (back : ℕ) × (compact_to_target (target_to_compact target) ≡ ok back) × (back ≤ target)
compact_rounds_down zero b =
    (0, unfold target_to_compact compact_to_target scale in refl, omega arith)
compact_rounds_down (suc n) b =
    let target = suc n in
    let (top, low, high) = leading_lem target (omega arith) in
    let u = unit_of (size_of target) in
    elim (Bool-cases (bit_and (leading_of target) 0x008000 == 0)) [
      | inl clear ↦ (
        scale (leading_of target % 2 ^ 23) (size_of target),
        compact_clear target (omega arith) b ((==_iff _ 0).0 clear),
        omega (
          arith,
          low,
          scale-le-unit (leading_of target % 2 ^ 23) (size_of target),
          mul-le-mul_right u (mod-le (leading_of target) (2 ^ 23)),
        ),
      )
      | inr set ↦ (
        scale (leading_of target / 2 ^ 8) (size_of target + 1),
        compact_set target (omega arith) b (λ e. ground arith),
        omega (
          arith,
          low,
          scale-le-unit (leading_of target / 2 ^ 8) (size_of target + 1),
          ap (λ (s : ℕ). leading_of target / 2 ^ 8 * unit_of s) (add-one (size_of target)),
          mul-le-mul_left (leading_of target / 2 ^ 8) (unit_of-suc_le (size_of target)),
          mul-le-mul_right u (div-mul-le_self (leading_of target) (2 ^ 8)),
        ),
      )
    ]

long_pos : (target : ℕ) → 3 ≤ size_of target → 0 < target
long_pos zero h = absurd (omega (arith, none))
  where
    none : size_of 0 ≡ 0
    none = unfold size_of size_loop in refl
long_pos (suc n) h = omega arith

-- A target of three bytes or more whose leading three bytes have bits 15 and 23 clear keeps those
-- bytes exactly: less than one unit in the last of them is lost.
pub compact_keeps_leading :
    (target : ℕ)
    → target < 2 ^ 256
    → 3 ≤ size_of target
    → bit_and (leading_of target) 0x008000 ≡ 0
    → leading_of target < 2 ^ 23
    → (back : ℕ) × (compact_to_target (target_to_compact target) ≡ ok back)
      × (back ≡ leading_of target * unit_of (size_of target))
      × (target < back + unit_of (size_of target))
compact_keeps_leading target b long clear small =
    let h = long_pos target long in
    let (top, low, high) = leading_lem target h in
    (
      leading_of target * unit_of (size_of target),
      compact_clear target h b clear
          ∙ ap ok (
              scale_long _ (size_of target) long
              ∙ ap (λ (n : ℕ). n * unit_of (size_of target)) (mod-eq_of_lt small)),
      refl,
      omega (arith, high),
    )

-- Where bit 23 of the leading three bytes is set and bit 15 is clear, the mask that follows drops bit
-- 23: what is read back is less than half of the target.
pub compact_loses_top_bit :
    (target : ℕ)
    → target < 2 ^ 256
    → 3 ≤ size_of target
    → bit_and (leading_of target) 0x008000 ≡ 0
    → 2 ^ 23 ≤ leading_of target
    → (back : ℕ) × (compact_to_target (target_to_compact target) ≡ ok back)
      × (back + 2 ^ 23 * unit_of (size_of target) ≤ target)
      × (2 * back < target)
compact_loses_top_bit target b long clear big =
    let h = long_pos target long in
    let (top, low, high) = leading_lem target h in
    let u = unit_of (size_of target) in
    let m = leading_of target % 2 ^ 23 in
    let split : leading_of target ≡ m + 2 ^ 23 = omega arith in
    let whole : (m + 2 ^ 23) * u ≤ target = rw (← split) low in
    let less : m * u < 2 ^ 23 * u =
      mul-lt-mul_of_pos_right (omega arith) (unit-pos (size_of target)) in
    (
      m * u,
      compact_clear target h b clear ∙ ap ok (scale_long m (size_of target) long),
      omega (arith, whole),
      omega (arith, whole, less),
    )
