-- ===== src/Genesis/Mining.antt =====
-- `MineGenesis` and `CreateGenesisBlock` of layer1-core/consensus/genesis.cpp, and what
-- layer1-core/validation makes of the block.
use drachma_block_chain.Common.{
  ◌≢◌, ℕ, zero, suc, ◌+◌, ◌-◌, ◌/◌, ◌^◌, ◌≤◌, ◌<◌, ◌≡◌, refl, sym, ◌∙◌, arith, [], Result, ok, err,
  ok-injective, Bool, true, false, ◌==◌, le→ltb, leb, if◌then◌else◌, bit_and, ◌*◌, no_genesis_nonce,
  ◌⊎◌, inl, inr, Bool-cases, ==_iff,
}
use mathlib.Core.Path.{subst}
use drachma_block_chain.Crypto.{OpenSsl}
use drachma_block_chain.Block.{BlockHeader, block_hash}
use drachma_block_chain.Genesis.{
  to_integer, target_bytes, shifted, target_from_compact, check_genesis_work, mine, mine_genesis,
}

abbrev pub at_nonce : BlockHeader → ℕ → BlockHeader
at_nonce header n = record header { nonce = n }

-- A property of `n` and of what follows it.
pub from_next :
    (P : ℕ → Type 0) (n m : ℕ)
    → P n
    → ((k : ℕ) → n + 1 ≤ k → k < m → P k)
    → (k : ℕ) → n ≤ k
    → k < m
    → P k
from_next P n m here after k lo hi = elim (Bool-cases (n == k)) [
  | inl e ↦ subst P ((==_iff n k).0 e) here
  | inr e ↦ after k (ground arith) hi
]

module _ (shift_negative : ℕ → ℕ → Result ℕ) (ssl : OpenSsl) where
  -- What the proof-of-work test says of a header with another nonce.
  abbrev pub Says : BlockHeader → Bool → ℕ → Type 0
  Says header answer n = check_genesis_work shift_negative ssl (at_nonce header n) ≡ ok answer

  work_answers :
      (header : BlockHeader)
      → 3 ≤ header.bits / 2 ^ 24
      → (good : Bool) × (check_genesis_work shift_negative ssl header ≡ ok good)
  unfolding check_genesis_work target_from_compact shifted
  work_answers header h =
      let e = header.bits / 2 ^ 24 in
      let shifted_mantissa = bit_and header.bits 0x007fffff * 2 ^ (8 * (e - 3)) in
      let target = to_integer 0 (target_bytes 32 shifted_mantissa []) in
      (
        if target == 0 then false else leb (to_integer 0 (block_hash ssl header)) target,
        rw (le→ltb e 3 h),
      )

  -- How the search ends: at the least nonce that passes, or without one.
  abbrev pub Found : ℕ → ℕ → BlockHeader → Type 0
  Found left n header =
      (m : ℕ) × (n ≤ m)
      × (m < n + left)
      × Says header true m
      × ((k : ℕ) → n ≤ k → k < m → Says header false k)
      × (mine shift_negative ssl left n header ≡ ok (at_nonce header m))

  abbrev pub Exhausted : ℕ → ℕ → BlockHeader → Type 0
  Exhausted left n header =
      ((k : ℕ) → n ≤ k → k < n + left → Says header false k)
      × (mine shift_negative ssl left n header ≡ err no_genesis_nonce)

  mine_here :
      (left n : ℕ) (header : BlockHeader)
      → Says header true n
      → mine shift_negative ssl (suc left) n header ≡ ok (at_nonce header n)
  unfolding mine
  mine_here left n header e = rw e

  mine_on :
      (left n : ℕ) (header : BlockHeader)
      → Says header false n
      → mine shift_negative ssl (suc left) n header
        ≡ mine shift_negative ssl left (n + 1) (at_nonce header n)
  unfolding mine
  mine_on left n header e = rw e

  -- The search over `left` nonces from `n` on, for an exponent of at least 3: it answers the header with
  -- the least nonce that passes, or throws when none of them does.
  mine_lem :
      (left n : ℕ) (header : BlockHeader)
      → 3 ≤ header.bits / 2 ^ 24
      → Found left n header ⊎ Exhausted left n header
  mine_lem zero n header h = inr ((λ k lo hi. absurd (omega arith)), none_left)
    where
      none_left : mine shift_negative ssl zero n header ≡ err no_genesis_nonce
      none_left = unfold mine in refl
  mine_lem (suc left) n header h =
      elim (work_answers (at_nonce header n) h).0
          as (λ good.
            Says header good n → Found (suc left) n header ⊎ Exhausted (suc left) n header) [
              | true ↦ λ e. inl (
                n,
                omega arith,
                omega arith,
                e,
                (λ k lo hi. absurd (omega arith)),
                mine_here left n header e,
              )
              | false ↦ λ e. elim (mine_lem left (n + 1) (at_nonce header n) h) [
                | inl (m, lo, hi, good, before, found) ↦ inl (
                  m,
                  omega arith,
                  omega arith,
                  good,
                  from_next (Says header false) n m e before,
                  mine_on left n header e ∙ found,
                )
                | inr (before, none_left) ↦ inr (
                  (λ k lo hi.
                      from_next (Says header false) n (n + suc left) e
                        (λ j lo' hi'. before j lo' (omega arith)) k lo hi),
                  mine_on left n header e ∙ none_left,
                )
              ]
            ]
        (work_answers (at_nonce header n) h).1

  -- MineGenesis on a header whose bits have an exponent of at least 3: it answers the header with the
  -- least nonce that passes the test, or throws when no nonce below 2^32 − 1 passes it.
  pub mine_genesis_finds_least :
      (header : BlockHeader)
      → 3 ≤ header.bits / 2 ^ 24
      → ((m : ℕ) × (m < 2 ^ 32 - 1)
          × Says header true m
          × ((k : ℕ) → k < m → Says header false k)
          × (mine_genesis shift_negative ssl header ≡ ok (at_nonce header m)))
        ⊎ (((k : ℕ) → k < 2 ^ 32 - 1 → Says header false k)
            × (mine_genesis shift_negative ssl header ≡ err no_genesis_nonce))
  unfolding mine_genesis
  mine_genesis_finds_least header h = elim (mine_lem (2 ^ 32 - 1) 0 header h) [
    | inl (m, lo, hi, good, before, found) ↦
        inl (m, omega arith, good, (λ k below. before k (omega arith) below), found)
    | inr (before, none_left) ↦ inr ((λ k below. before k (omega arith) (omega arith)), none_left)
  ]

  pub mined :
      (header found : BlockHeader)
      → 3 ≤ header.bits / 2 ^ 24
      → mine_genesis shift_negative ssl header ≡ ok found
      → (n : ℕ) × (found ≡ at_nonce header n) × Says header true n
  mined header found h e = elim (mine_genesis_finds_least header h) [
    | inl (m, lt, good, before, answer) ↦ (m, ok-injective (sym e ∙ answer), good)
    | inr (before, thrown) ↦ absurd (err-ne-ok (sym thrown ∙ e))
  ]
    where
      err-ne-ok : err no_genesis_nonce ≢ ok found
      err-ne-ok same = cc
