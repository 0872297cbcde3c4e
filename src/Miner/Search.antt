-- ===== src/Miner/Search.antt =====
-- The loop of miners/cpu/main.cpp over the nonces.
use drachma_block_chain.Common.{
  ℕ, zero, suc, ◌+◌, ◌*◌, ◌%◌, ◌^◌, ◌≤◌, ◌<◌, ◌≡◌, refl, ap, ◌∙◌, arith, Bool, true, false, ltb,
  ◌==◌, ◌||◌, leb, if◌then◌else◌, Result, ok, ◌⊎◌, inl, inr, Bool-cases, ==_iff,
}
use native.Mathlib.Nat.{mod-eq_of_lt}
use drachma_block_chain.Crypto.{OpenSsl}
use drachma_block_chain.Block.{BlockHeader, block_hash}
use drachma_block_chain.Consensus.Params.{main_params}
use drachma_block_chain.Pow.{compact_to_target, scale, hash_value, check_proof_of_work}
use drachma_block_chain.Genesis.Mining.{at_nonce, from_next}
use drachma_block_chain.Miner.{Outcome, found, exhausted, try_nonces, search_nonce}

module _ (ssl : OpenSsl) where
  -- What the proof-of-work test of the main network says of a header with another nonce.
  abbrev pub Answers : BlockHeader → Bool → ℕ → Type 0
  Answers header answer n =
      check_proof_of_work (block_hash ssl (at_nonce header n)) header.bits main_params ≡ ok answer

  limit_known : (limit : ℕ) × (compact_to_target main_params.genesis_bits ≡ ok limit)
  limit_known = unfold compact_to_target scale in (0x0fffff * 2 ^ 216, refl)

  answered :
      (header : BlockHeader) (target n : ℕ)
      → compact_to_target header.bits ≡ ok target
      → (good : Bool) × Answers header good n
  unfolding check_proof_of_work
  answered header target n e =
      let (limit, known) = limit_known in
      (
        if target == 0 || ltb limit target
            then false
            else leb (hash_value 0 (block_hash ssl (at_nonce header n))) target,
        rw (e, known),
      )

  stops :
      (fuel n : ℕ) (header : BlockHeader)
      → Answers header true n
      → try_nonces ssl (suc fuel) (at_nonce header n) ≡ ok (found (at_nonce header n))
  unfolding try_nonces
  stops fuel n header e = rw e

  -- The round after a failed test, by the next nonce.
  abbrev next_round : ℕ → BlockHeader → ℕ → Result Outcome
  next_round fuel header m = elim (m == 0) [
    | true ↦ ok exhausted
    | false ↦ try_nonces ssl fuel (at_nonce header m)
  ]

  missed :
      (fuel n : ℕ) (header : BlockHeader)
      → Answers header false n
      → try_nonces ssl (suc fuel) (at_nonce header n) ≡ next_round fuel header ((n + 1) % 2 ^ 32)
  unfolding try_nonces
  missed fuel n header e = rw e

  not_zero : (n : ℕ) → (n + 1 == 0) ≡ false
  not_zero n = ground arith

  goes_on :
      (fuel n : ℕ) (header : BlockHeader)
      → Answers header false n
      → n + 1 < 2 ^ 32
      → try_nonces ssl (suc fuel) (at_nonce header n)
        ≡ try_nonces ssl fuel (at_nonce header (n + 1))
  goes_on fuel n header e lt =
      missed fuel n header e
      ∙ ap (next_round fuel header) (mod-eq_of_lt lt)
      ∙ rw (next_round, not_zero n)

  gives_up :
      (fuel n : ℕ) (header : BlockHeader)
      → Answers header false n
      → n + 1 ≡ 2 ^ 32
      → try_nonces ssl (suc fuel) (at_nonce header n) ≡ ok exhausted
  gives_up fuel n header e last =
      missed fuel n header e ∙ ap (λ (m : ℕ). next_round fuel header (m % 2 ^ 32)) last

  -- How the search from `n` on ends: at the least nonce that passes, or without one.
  abbrev Ends : ℕ → ℕ → BlockHeader → Type 0
  Ends fuel n header =
      ((m : ℕ) × (n ≤ m)
        × (m < 2 ^ 32)
        × Answers header true m
        × ((k : ℕ) → n ≤ k → k < m → Answers header false k)
        × (try_nonces ssl fuel (at_nonce header n) ≡ ok (found (at_nonce header m))))
      ⊎ (((k : ℕ) → n ≤ k → k < 2 ^ 32 → Answers header false k)
          × (try_nonces ssl fuel (at_nonce header n) ≡ ok exhausted))

  try_nonces_lem :
      (fuel n : ℕ) (header : BlockHeader) (target : ℕ)
      → compact_to_target header.bits ≡ ok target
      → n < 2 ^ 32
      → fuel + n ≡ 2 ^ 32
      → Ends fuel n header
  try_nonces_lem zero n header target e lt enough = absurd (omega arith)
  try_nonces_lem (suc fuel) n header target e lt enough =
      elim (answered header target n e).0
          as (λ good. Answers header good n → Ends (suc fuel) n header) [
            | true ↦ λ a.
                inl
                  (n, omega arith, lt, a, (λ k lo hi. absurd (omega arith)), stops fuel n header a)
            | false ↦ λ a. elim (Bool-cases (n + 1 == 2 ^ 32)) [
              | inl full ↦ inr (
                from_next (Answers header false) n (2 ^ 32) a
                    (λ k lo hi. absurd (omega (arith, (==_iff (n + 1) (2 ^ 32)).0 full))),
                gives_up fuel n header a ((==_iff (n + 1) (2 ^ 32)).0 full),
              )
              | inr more ↦
                  let below : n + 1 < 2 ^ 32 = within n lt more in
                  elim (try_nonces_lem fuel (n + 1) header target e below (omega arith)) [
                    | inl (m, lo, hi, good, before, back) ↦ inl (
                      m,
                      omega arith,
                      hi,
                      good,
                      from_next (Answers header false) n m a before,
                      goes_on fuel n header a below ∙ back,
                    )
                    | inr (before, back) ↦ inr (
                      from_next (Answers header false) n (2 ^ 32) a before,
                      goes_on fuel n header a below ∙ back,
                    )
                  ]
            ]
          ]
        (answered header target n e).1
    where
      within : (n : ℕ) → n < 2 ^ 32 → (n + 1 == 2 ^ 32) ≡ false → n + 1 < 2 ^ 32
      within n lt more = ground arith

  -- The loop of the miner, from nonce 0 on, for a header whose bits do not have the sign bit set: it ends within
  -- 2^32 rounds, with the least nonce whose hash passes the test of the main network, or, when none of
  -- the 2^32 nonces passes, with the exit for the exhausted nonce space.
  pub search_nonce_finds_least :
      (header : BlockHeader) (target : ℕ)
      → compact_to_target header.bits ≡ ok target
      → ((m : ℕ) × (m < 2 ^ 32)
          × Answers header true m
          × ((k : ℕ) → k < m → Answers header false k)
          × (search_nonce ssl (at_nonce header 0) ≡ ok (found (at_nonce header m))))
        ⊎ (((k : ℕ) → k < 2 ^ 32 → Answers header false k)
            × (search_nonce ssl (at_nonce header 0) ≡ ok exhausted))
  unfolding search_nonce
  search_nonce_finds_least header target e =
      elim (try_nonces_lem (2 ^ 32) 0 header target e (omega arith) (omega arith)) [
        | inl (m, lo, hi, good, before, back) ↦
            inl (m, hi, good, (λ k below. before k (omega arith) below), back)
        | inr (before, back) ↦ inr ((λ k below. before k (omega arith) below), back)
      ]
