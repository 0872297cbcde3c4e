-- ===== src/Consensus/Supply.antt =====
-- What `GetBlockSubsidy` of layer1-core/consensus/params.cpp issues in all.
use drachma_block_chain.Common.{
  ℕ, zero, suc, ◌+◌, ◌-◌, ◌*◌, ◌/◌, ◌%◌, ◌^◌, ◌≤◌, ◌<◌, ◌≡◌, refl, ap, ◌∙◌, arith, true,
}
use drachma_block_chain.Common.Int.{pos}
use drachma_block_chain.Consensus.Params.{
  Params, coin, main_params, get_block_subsidy, money_range, get_max_money,
}
use native.Mathlib.Nat.{
  div-eq_of_lt, mul-add-div_right, div-div-eq-div-mul, pow-suc, mul-le-mul_left, div-add-mod',
  mod-lt, zero-div,
}

-- The subsidies of the first `n` blocks, as tests/consensus/supply_test.cpp adds them up.
unfoldable pub total_subsidy : ℕ → Params → ℕ
total_subsidy zero params = 0
total_subsidy (suc n) params = total_subsidy n params + get_block_subsidy (pos n) params

none_yet : (params : Params) → total_subsidy zero params ≡ 0
unfolding total_subsidy
none_yet params = refl

one_more :
    (n : ℕ) (params : Params)
    → total_subsidy (suc n) params ≡ total_subsidy n params + get_block_subsidy (pos n) params
unfolding total_subsidy
one_more n params = refl

-- The subsidy of an era, before the cut at 64 halvings.
abbrev era_subsidy : ℕ → ℕ
era_subsidy q = 50 * coin / 2 ^ q

era_subsidy_halves : (q : ℕ) → 2 * era_subsidy (suc q) ≤ era_subsidy q
era_subsidy_halves q =
    omega
      (arith, ap (λ (t : ℕ). 50 * coin / t) (pow-suc 2 q), div-div-eq-div-mul (50 * coin) (2 ^ q) 2)

next_era :
    (t t' i x y : ℕ) {b : ℕ}
    → t' ≡ t
    → 2 * y ≤ x
    → t + (2 * i - i) * x ≤ b
    → t' + (2 * i - 0) * y ≤ b
next_era t t' i x y e h k = omega (
  arith,
  mul-le-mul_left i h,
  ap (λ (n : ℕ). n * x) (twice_less_one i),
  ap (λ (n : ℕ). n * y) (twice_less_none i),
)
  where
    twice_less_none : (i : ℕ) → 2 * i - 0 ≡ 2 * i
    twice_less_none i = omega arith

    twice_less_one : (i : ℕ) → 2 * i - i ≡ i
    twice_less_one i = omega arith

next_block :
    (t t' s i r x : ℕ) {b : ℕ}
    → t' ≡ t + s
    → s ≤ x
    → r < i
    → t + (2 * i - r) * x ≤ b
    → t' + (2 * i - suc r) * x ≤ b
next_block t t' s i r x e h k p = grind arith

module _ (params : Params) (interval_pos : 0 < params.subsidy_halving_interval) where
  abbrev interval : ℕ
  interval = params.subsidy_halving_interval

  subsidy-le-era :
      (q r : ℕ) → r < interval → get_block_subsidy (pos (q * interval + r)) params ≤ era_subsidy q
  unfolding get_block_subsidy
  subsidy-le-era q r h =
      let e : (q * interval + r) / interval ≡ q =
        mul-add-div_right interval_pos q r ∙ omega (arith, div-eq_of_lt h) in
      rw e (ground arith)

  grown :
      (q r : ℕ)
      → total_subsidy (q * interval + suc r) params
        ≡ total_subsidy (q * interval + r) params
          + get_block_subsidy (pos (q * interval + r)) params
  grown q r = ap (λ (t : ℕ). total_subsidy t params) next ∙ one_more (q * interval + r) params
    where
      next : q * interval + suc r ≡ suc (q * interval + r)
      next = omega arith

  -- After `r` blocks of era `q` there is room for the rest of this era and for one more like it.
  era_bound :
      (q r : ℕ)
      → r ≤ interval
      → total_subsidy (q * interval + r) params + (2 * interval - r) * era_subsidy q
        ≤ 2 * interval * era_subsidy 0
  era_bound zero zero h = omega (arith, zero-total)
    where
      zero-total : total_subsidy (0 * interval + 0) params ≡ 0
      zero-total = ap (λ (t : ℕ). total_subsidy t params) (omega arith) ∙ none_yet params
  era_bound (suc q) zero h =
      next_era _ _ interval _ _ (ap (λ (t : ℕ). total_subsidy t params) same) (era_subsidy_halves q)
        (era_bound q interval (omega arith))
    where
      same : suc q * interval + 0 ≡ q * interval + interval
      same = omega arith
  era_bound q (suc r) h =
      next_block _ _ _ interval r _ (grown q r) (subsidy-le-era q r h) h
        (era_bound q r (omega arith))

  -- However many blocks are mined, the subsidies come to at most two eras' worth of the first subsidy.
  pub total_subsidy_bound :
      (n : ℕ) → total_subsidy n params ≤ 2 * interval * get_block_subsidy (pos 0) params
  unfolding get_block_subsidy
  total_subsidy_bound n = omega (
    arith,
    ap (λ (t : ℕ). total_subsidy t params) (div-add-mod' n interval),
    era_bound (n / interval) (n % interval) (omega (arith, mod-lt n interval_pos)),
    ap (λ (t : ℕ). 2 * interval * t) first_subsidy,
  )
    where
      first_subsidy : get_block_subsidy (pos 0) params ≡ 50 * coin
      first_subsidy = rw (zero-div interval)

-- On the main network the subsidies of any number of blocks come to at most 21 million coins. So the
-- sum is money, and it never reaches the 42 million coins of `nMaxMoneyOut`.
pub main_supply :
    (n : ℕ)
    → (total_subsidy n main_params ≤ 21000000 * coin)
      × (money_range (total_subsidy n main_params) main_params ≡ true)
      × (total_subsidy n main_params + 21000000 * coin ≤ get_max_money main_params)
unfolding money_range get_max_money get_block_subsidy
main_supply n =
    let h = total_subsidy_bound main_params (omega arith) n in
    (omega (arith, h), ground (arith, h), omega (arith, h))
