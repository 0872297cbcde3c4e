-- ===== src/Consensus/VersionBits/Version.antt =====
-- `ComputeBlockVersion` of layer1-core/consensus/versioning/versionbits.cpp: the bits of its answer.
use drachma_block_chain.Common.{
  ℕ, ◌%◌, ◌^◌, bit_or, ◌≡◌, refl, sym, ap, ◌∙◌, ◌↔◌, ◌⊎◌, inl, inr, arith, List, [], ◌∷◌, Bool,
  true, false, not, ◌&&◌, ◌||◌, if◌then◌else◌, Result, ok, err, throw_if, bit_out_of_range,
  >>=-eq-ok, ok-injective, ◌>>=◌, ◌>>◌,
}
use drachma_block_chain.Common.Bits.{bit, bit-bit_or, bit-pow_iff, bit_and-bit}
use drachma_block_chain.Common.Int.{ℤ, pos, negsuc, ltb_ℤ, leb_ℤ, eq_ℤ}
use drachma_block_chain.Consensus.Params.{VbDeployment, Params}
use drachma_block_chain.Consensus.VersionBits.{
  version_bits_mask, shifted_one, version_bits_signal, to_u32, add_deployment, add_deployments,
  compute_block_version,
}

-- The deployment may signal at this time: it is not disabled, it has started, it has not timed out.
abbrev pub permitted : ℤ → VbDeployment → Bool
permitted mtp d =
    not (ltb_ℤ d.bit (pos 0))
    && not (eq_ℤ d.start_time (negsuc 0))
    && not (ltb_ℤ mtp d.start_time)
    && not (not (eq_ℤ d.timeout (negsuc 0)) && leb_ℤ d.timeout mtp)

-- A permitted deployment of the list stands for this bit.
abbrev pub IsAsked : ℤ → ℕ → List VbDeployment → Type 0
IsAsked mtp n [] = ⊥
IsAsked mtp n (d ∷ ds) = ((permitted mtp d ≡ true) × (d.bit ≡ pos n)) ⊎ IsAsked mtp n ds

or_one : (n a b : ℕ) → (bit n (bit_or a b) ≡ 1) ↔ ((bit n a ≡ 1) ⊎ (bit n b ≡ 1))
or_one n a b = (there, back)
  where
    there : bit n (bit_or a b) ≡ 1 → (bit n a ≡ 1) ⊎ (bit n b ≡ 1)
    there h = grind (arith, bit-bit_or n a b)

    back : (bit n a ≡ 1) ⊎ (bit n b ≡ 1) → bit n (bit_or a b) ≡ 1
    back (inl h) = omega (arith, h, bit-bit_or n a b)
    back (inr h) = omega (arith, h, bit-bit_or n a b)

mask_ok :
    (d : VbDeployment) (mask : ℕ)
    → version_bits_mask d ≡ ok mask
    → (m : ℕ) × (d.bit ≡ pos m) × (mask ≡ 2 ^ m)
unfolding version_bits_mask
mask_ok d mask e = by_bit d.bit mask e
  where
    by_bit :
        (b : ℤ) (mask : ℕ)
        → (throw_if (ltb_ℤ b (pos 0) || ltb_ℤ (pos 28) b) bit_out_of_range >> ok (shifted_one b))
          ≡ ok mask
        → (m : ℕ) × (b ≡ pos m) × (mask ≡ 2 ^ m)
    by_bit (pos m) mask e = (m, refl, shifted m mask e)
      where
        shifted :
            (m mask : ℕ)
            → (throw_if (ltb_ℤ (pos m) (pos 0) || ltb_ℤ (pos 28) (pos m)) bit_out_of_range
                >> ok (2 ^ m))
              ≡ ok mask
            → mask ≡ 2 ^ m
        shifted m mask e = ground arith
    by_bit (negsuc m) mask e = absurd (ground arith)

-- The tests of a round, and what they leave.
choose :
    (a b c t : Bool) (mask : Result ℕ) (version v : ℕ)
    → (if a
        then ok version
        else if b
        then ok version
        else if c
        then ok version
        else if t
        then ok version
        else mask >>= λ m. ok (bit_or version m))
      ≡ ok v
    → (((not a && not b && not c && not t) ≡ false) × (v ≡ version))
      ⊎ (((not a && not b && not c && not t) ≡ true)
          × ((m : ℕ) × (mask ≡ ok m) × (v ≡ bit_or version m)))
choose true b c t mask version v e = inl (refl, sym (ok-injective e))
choose false true c t mask version v e = inl (refl, sym (ok-injective e))
choose false false true t mask version v e = inl (refl, sym (ok-injective e))
choose false false false true mask version v e = inl (refl, sym (ok-injective e))
choose false false false false (err x) version v e = cc
choose false false false false (ok m) version v e = inr (refl, (m, refl, sym (ok-injective e)))

add_deployment_cases :
    (mtp : ℤ) (version : ℕ) (d : VbDeployment) (v : ℕ)
    → add_deployment mtp version d ≡ ok v
    → ((permitted mtp d ≡ false) × (v ≡ version))
      ⊎ ((permitted mtp d ≡ true) × ((m : ℕ) × (d.bit ≡ pos m) × (v ≡ bit_or version (2 ^ m))))
unfolding add_deployment
add_deployment_cases mtp version d v e =
    elim (choose (ltb_ℤ d.bit (pos 0)) (eq_ℤ d.start_time (negsuc 0)) (ltb_ℤ mtp d.start_time)
      (not (eq_ℤ d.timeout (negsuc 0)) && leb_ℤ d.timeout mtp) (version_bits_mask d) version v e) [
        | inl h ↦ inl h
        | inr (y, (mask, m, same)) ↦
            let (b, at, pow) = mask_ok d mask m in inr (y, (b, at, same ∙ ap (bit_or version) pow))
      ]

-- A round sets the bit of a permitted deployment, and leaves the others.
bit-add_deployment :
    (mtp : ℤ) (n version : ℕ) (d : VbDeployment) (v : ℕ)
    → add_deployment mtp version d ≡ ok v
    → (bit n v ≡ 1) ↔ ((bit n version ≡ 1) ⊎ ((permitted mtp d ≡ true) × (d.bit ≡ pos n)))
bit-add_deployment mtp n version d v e = elim (add_deployment_cases mtp version d v e) [
  | inl (n₀, same) ↦ (
    (λ h. inl (sym (ap (bit n) same) ∙ h)),
    λ g. elim g [ inl h ↦ ap (bit n) same ∙ h | inr (y, k) ↦ cc (n₀, y) ],
  )
  | inr (y, (m, at, same)) ↦
      let (set, kept) = or_one n version (2 ^ m) in
      let (pow, pow') = bit-pow_iff n m in
      (
        (λ h. elim (set (sym (ap (bit n) same) ∙ h)) [
          | inl k ↦ inl k
          | inr k ↦ inr (y, at ∙ ap pos (sym (pow k)))
        ]),
        λ g. elim g [
          | inl h ↦ ap (bit n) same ∙ kept (inl h)
          | inr (y', k) ↦ ap (bit n) same ∙ kept (inr (pow' (pos-injective n m (sym k ∙ at))))
        ],
      )
]
  where
    pos-injective : (a b : ℕ) → pos a ≡ pos b → a ≡ b
    pos-injective a b h = cc

bit-add_deployments :
    (mtp : ℤ) (n version : ℕ) (ds : List VbDeployment) (v : ℕ)
    → add_deployments mtp version ds ≡ ok v
    → (bit n v ≡ 1) ↔ ((bit n version ≡ 1) ⊎ IsAsked mtp n ds)
unfolding add_deployments
bit-add_deployments mtp n version [] v e =
    let same = ap (bit n) (ok-injective e) in
    ((λ h. inl (same ∙ h)), λ g. elim g [ inl h ↦ sym same ∙ h | inr x ↦ absurd x ])
bit-add_deployments mtp n version (d ∷ ds) v e =
    let (next, first, rest) =
      >>=-eq-ok (add_deployment mtp version d) (λ w. add_deployments mtp w ds) e in
    let (there, back) = bit-add_deployment mtp n version d next first in
    let (there', back') = bit-add_deployments mtp n next ds v rest in
    (
      (λ h. elim (there' h) [
        | inl k ↦ elim (there k) [ inl u ↦ inl u | inr u ↦ inr (inl u) ]
        | inr k ↦ inr (inr k)
      ]),
      λ g. elim g [
        | inl u ↦ back' (inl (back (inl u)))
        | inr (inl u) ↦ back' (inl (back (inr u)))
        | inr (inr k) ↦ back' (inr k)
      ],
    )

-- The bits of the version that `ComputeBlockVersion` answers: bits 28 and 29 are always set, any other
-- bit exactly for a deployment that is permitted at the time.
pub compute_block_version_bits :
    (params : Params) (ds : List VbDeployment) (mtp : ℤ) (n v : ℕ)
    → compute_block_version params ds mtp ≡ ok v
    → (bit n v ≡ 1) ↔ (((n ≡ 28) ⊎ (n ≡ 29)) ⊎ IsAsked mtp n ds)
unfolding compute_block_version
compute_block_version_bits params ds mtp n v e =
    let (w, loop, last) =
      >>=-eq-ok (add_deployments mtp 0x20000000 ds) (λ w. ok (bit_or w 0x10000000)) e in
    let same = ap (bit n) (ok-injective last) in
    let (there, back) = bit-add_deployments mtp n 0x20000000 ds w loop in
    let (set, kept) = or_one n w 0x10000000 in
    let (pow, pow') = bit-pow_iff n 28 in
    let (top, top') = bit-pow_iff n 29 in
    (
      (λ h. elim (set (same ∙ h)) [
        | inl k ↦ elim (there k) [ inl u ↦ inl (inr (top u)) | inr u ↦ inr u ]
        | inr k ↦ inl (inl (pow k))
      ]),
      λ g. elim g [
        | inl (inl u) ↦ sym same ∙ kept (inr (pow' u))
        | inl (inr u) ↦ sym same ∙ kept (inl (back (inl (top' u))))
        | inr u ↦ sym same ∙ kept (inl (back (inr u)))
      ],
    )

-- Whatever the deployments, the answer signals for a deployment at bit 28, disabled or not.
pub bit_28_always_signals :
    (params : Params) (ds : List VbDeployment) (mtp : ℤ) (v : ℕ) (d : VbDeployment)
    → compute_block_version params ds mtp ≡ ok v
    → d.bit ≡ pos 28
    → version_bits_signal (pos v) d ≡ ok true
unfolding version_bits_signal version_bits_mask to_u32
bit_28_always_signals params ds mtp v d e at =
    let on : bit 28 v ≡ 1 = (compute_block_version_bits params ds mtp 28 v e).1 (inl (inl refl)) in
    rw at (rw (bit_and-bit 28 (v % 2 ^ 32)) (ground (arith, on)))
