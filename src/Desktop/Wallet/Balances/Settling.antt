-- ===== src/Desktop/Wallet/Balances/Settling.antt =====
-- The balances of the wallet of layer3-app/qt/main.cpp when `advanceConfirmations` confirms a row.
use drachma_block_chain.Common.{ℕ, ◌+◌, ◌≡◌, refl, arith, true, false, Bool-cases, inl, inr}
use drachma_block_chain.Common.Int.{
  ℤ, pos, pos_part, ◌+ℤ◌, ◌-ℤ◌, leb_ℤ, ltb_ℤ, ℤ-ext, +ℤ-parts, -ℤ-parts, wrap64, wrap64_small,
}
use drachma_block_chain.Desktop.Wallet.Balances.Sums.{held_back, Fits}
use drachma_block_chain.Desktop.Wallet.{
  Direction, send, receive, pending, confirmed_status, settle_amount,
}

-- The sums of two integers, in the order that the balances need.
move_into : (c u a : ℤ) → (c +ℤ a) +ℤ (u -ℤ a) ≡ c +ℤ u
move_into c u a =
    ℤ-ext _ _ (omega (arith, +ℤ-parts c a, -ℤ-parts u a, +ℤ-parts (c +ℤ a) (u -ℤ a), +ℤ-parts c u))

not_positive : (a : ℤ) → leb_ℤ a (pos 0) ≡ true → ltb_ℤ (pos 0) a ≡ false
not_positive a h = ground arith

-- No balance wraps when an amount that fits is moved.
exact_confirmed :
    (a c u : ℤ) → ltb_ℤ (pos 0) a ≡ true → Fits (pos_part a) (c, u) → wrap64 (c +ℤ a) ≡ c +ℤ a
exact_confirmed a c u gain (h, high, low, top) =
    wrap64_small (c +ℤ a) (ground (arith, +ℤ-parts c a)) (ground (arith, +ℤ-parts c a))

exact_unconfirmed :
    (a c u : ℤ) → ltb_ℤ (pos 0) a ≡ true → Fits (pos_part a) (c, u) → wrap64 (u -ℤ a) ≡ u -ℤ a
exact_unconfirmed a c u gain (h, high, low, top) =
    wrap64_small (u -ℤ a) (ground (arith, -ℤ-parts u a)) (ground (arith, -ℤ-parts u a))

moved-Fits :
    (a c u : ℤ) (ripe : ℕ)
    → ltb_ℤ (pos 0) a ≡ true
    → Fits (pos_part a + ripe) (c, u)
    → Fits ripe (c +ℤ a, u -ℤ a)
moved-Fits a c u ripe gain (h, high, low, top) = (
  ground (arith, +ℤ-parts c a),
  ground (arith, +ℤ-parts c a),
  ground (arith, -ℤ-parts u a),
  ground (arith, -ℤ-parts u a),
)

-- Balances that have room for a row and for those behind it have room for each.
pub less-Fits : (more ripe : ℕ) (b : ℤ × ℤ) → Fits (more + ripe) b → Fits ripe b
less-Fits more ripe b (h, high, low, top) = (h, omega arith, omega arith, top)

pub first-Fits : (more ripe : ℕ) (b : ℤ × ℤ) → Fits (more + ripe) b → Fits more b
first-Fits more ripe b (h, high, low, top) = (h, omega arith, omega arith, top)

pub settle_held :
    (d : Direction) (a c u : ℤ)
    → Fits (pos_part a) (c, u)
    → (d ≡ send → leb_ℤ a (pos 0) ≡ true)
    → (settle_amount a (c, u)).1 +ℤ held_back d pending a ≡ u +ℤ held_back d confirmed_status a
unfolding settle_amount held_back
settle_held send a c u f own = rw (not_positive a (own refl))
settle_held receive a c u f own = elim (Bool-cases (ltb_ℤ (pos 0) a)) [
  | inl gain ↦
      rw (gain, exact_unconfirmed a c u gain f)
        (ℤ-ext _ _ (omega (arith, -ℤ-parts u a, +ℤ-parts (u -ℤ a) a, +ℤ-parts u (pos 0))))
  | inr none_gained ↦ rw none_gained
]

pub settle_sum :
    (a c u : ℤ)
    → Fits (pos_part a) (c, u)
    → (settle_amount a (c, u)).0 +ℤ (settle_amount a (c, u)).1 ≡ c +ℤ u
unfolding settle_amount
settle_sum a c u f = elim (Bool-cases (ltb_ℤ (pos 0) a)) [
  | inl gain ↦
      rw (gain, exact_confirmed a c u gain f, exact_unconfirmed a c u gain f) (move_into c u a)
  | inr none_gained ↦ rw none_gained
]

pub settle-Fits :
    (a c u : ℤ) (ripe : ℕ)
    → Fits (pos_part a + ripe) (c, u)
    → Fits (pos_part a) (c, u)
    → Fits ripe (settle_amount a (c, u))
unfolding settle_amount
settle-Fits a c u ripe f f₀ = elim (Bool-cases (ltb_ℤ (pos 0) a)) [
  | inl gain ↦
      rw (gain, exact_confirmed a c u gain f₀, exact_unconfirmed a c u gain f₀)
        (moved-Fits a c u ripe gain f)
  | inr none_gained ↦ rw none_gained (less-Fits (pos_part a) ripe (c, u) f)
]
