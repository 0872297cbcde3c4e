-- ===== src/Desktop/Wallet/Balances/Steps.antt =====
-- The balances of the wallet of layer3-app/qt/main.cpp against its rows: a round of confirmations, a credit
-- and a spend behind its tests, none of which wraps a balance.
use drachma_block_chain.Common.{
  ◌^◌, ◌<◌, ◌≤◌, ℕ, ◌+◌, ◌≡◌, sym, ap, ◌∙◌, arith, List, true, false, Bool-cases, inl, inr, All,
}
use mathlib.Core.Path.{subst}
use drachma_block_chain.Common.Int.{
  ℤ, pos, negsuc, wrap64, wrap64_small, pos_part, neg_part, ◌+ℤ◌, ◌-ℤ◌, negate, leb_ℤ, ltb_ℤ, ◌≤ℤ◌,
  ℤ-ext, +ℤ-parts, -ℤ-parts, negate-parts,
}
use drachma_block_chain.Desktop.Wallet.{
  receive, TransactionRow, Wallet, credit_simulated, queue_spend, advance_rows,
  advance_confirmations,
}
use drachma_block_chain.Desktop.Wallet.Balances.Sums.{
  total_amount, held_back, held_amount, credited, credit_size, ripening, Fits, IsOwnRow,
  held_within, balances-Fits,
}
use drachma_block_chain.Desktop.Wallet.Balances.Rows.{AreKept, advance_rows-AreKept, unchanged_rows}

-- Between two calls: the balances together are the sum of all amounts, the unconfirmed one is what rows
-- hold back, and the confirmed one is not negative.
pub record IsBalanced (w : Wallet) : Type 0 where
  pub total : w.confirmed +ℤ w.unconfirmed ≡ total_amount w.txs
  pub held : w.unconfirmed ≡ held_amount w.txs
  pub own : All IsOwnRow w.txs
  pub solvent : pos 0 ≤ℤ w.confirmed

-- The same for rows that credit less than the source's integers hold.
abbrev pub IsBalancedAt : ℕ → Wallet → Type 0
IsBalancedAt size w = IsBalanced w × (credited w.txs ≡ size)

cancel : (x y h k : ℤ) → x +ℤ h ≡ y +ℤ k → y ≡ h → x ≡ k
cancel x y h k p q = ℤ-ext x k (
    omega (
      arith,
      +ℤ-parts x h,
      +ℤ-parts y k,
      ap pos_part p,
      ap neg_part p,
      ap pos_part q,
      ap neg_part q,
    ))

loop-IsBalanced :
    (w : Wallet) (size : ℕ) (rows : List TransactionRow) (after : ℤ × ℤ)
    → AreKept w.txs rows (w.confirmed, w.unconfirmed) after
    → IsBalancedAt size w
    → IsBalancedAt size (record w { txs = rows; confirmed = after.0; unconfirmed = after.1 })
loop-IsBalanced w size rows after k (b, sized) = (
  record {
    total = k.sum ∙ b.total ∙ sym k.total;
    held = cancel after.1 w.unconfirmed (held_amount w.txs) (held_amount rows) k.held b.held;
    own = k.own;
    solvent = k.solvent;
  },
  k.sizes ∙ sized,
)

wallet-Fits :
    (w : Wallet)
    → IsBalanced w
    → credited w.txs < 2 ^ 63
    → Fits (ripening w.txs) (w.confirmed, w.unconfirmed)
wallet-Fits w b small =
    balances-Fits w.txs w.confirmed w.unconfirmed b.own b.total b.held b.solvent small

pub advance-IsBalanced :
    (w : Wallet) (size : ℕ)
    → size < 2 ^ 63
    → IsBalancedAt size w
    → IsBalancedAt size (advance_confirmations w).0
unfolding advance_confirmations
advance-IsBalanced w size small b =
    let before : ℤ × ℤ = (w.confirmed, w.unconfirmed) in
    let out = advance_rows w.txs before false in
    let fits = wallet-Fits w b.0 (omega (arith, b.1, small)) in
    let k = advance_rows-AreKept w.txs before false b.0.own fits in
    let done = loop-IsBalanced w size out.0 out.1 k b in
    elim (Bool-cases out.2) [
      | inl changed ↦ rw changed done
      | inr same ↦ rw same (
          subst
            (λ rows.
              IsBalancedAt size
                (record w { txs = rows; confirmed = out.1.0; unconfirmed = out.1.1 }))
            (unchanged_rows w.txs before false same).0 done)
    ]

add_last : (c u a : ℤ) → c +ℤ (u +ℤ a) ≡ a +ℤ (c +ℤ u)
add_last c u a =
    ℤ-ext _ _ (omega (arith, +ℤ-parts u a, +ℤ-parts c (u +ℤ a), +ℤ-parts c u, +ℤ-parts a (c +ℤ u)))

+ℤ_comm : (a b : ℤ) → a +ℤ b ≡ b +ℤ a
+ℤ_comm a b = ℤ-ext _ _ (omega (arith, +ℤ-parts a b, +ℤ-parts b a))

take_out : (c u t : ℤ) → (c -ℤ t) +ℤ u ≡ negate t +ℤ (c +ℤ u)
take_out c u t = ℤ-ext _ _ (
    omega (
      arith,
      -ℤ-parts c t,
      negate-parts t,
      +ℤ-parts (c -ℤ t) u,
      +ℤ-parts c u,
      +ℤ-parts (negate t) (c +ℤ u),
    ))

zero-+ℤ : (a : ℤ) → pos 0 +ℤ a ≡ a
zero-+ℤ a = ℤ-ext _ _ (omega (arith, +ℤ-parts (pos 0) a))

parts_within :
    (z : ℤ) (n : ℕ)
    → pos_part z ≤ n + neg_part z
    → neg_part z ≤ n + pos_part z
    → (pos_part z ≤ n) × (neg_part z ≤ n)
parts_within (pos z) n above below = (omega arith, omega arith)
parts_within (negsuc z) n above below = (omega arith, omega arith)

credit_exact :
    (u a : ℤ) (size : ℕ)
    → (pos_part u ≤ size + neg_part u) × (neg_part u ≤ size + pos_part u)
    → size + credit_size receive a < 2 ^ 63
    → wrap64 (u +ℤ a) ≡ u +ℤ a
unfolding credit_size
credit_exact u a size (high, low) small =
    let p = +ℤ-parts u a in
    let (above, below) =
      parts_within (u +ℤ a) (size + (pos_part a + neg_part a)) (omega arith) (omega arith) in
    wrap64_small (u +ℤ a) (omega arith) (omega arith)

unconfirmed_within :
    (w : Wallet) (size : ℕ)
    → IsBalancedAt size w
    → (pos_part w.unconfirmed ≤ size + neg_part w.unconfirmed)
      × (neg_part w.unconfirmed ≤ size + pos_part w.unconfirmed)
unconfirmed_within w size (b, sized) =
    let h = held_within w.txs b.own in
    let p = ap pos_part b.held in
    let n = ap neg_part b.held in (omega (arith, sized, p, n, h.0), omega (arith, sized, p, n, h.1))

pub credit-IsBalanced :
    (now : ℕ) (amount : ℤ) (memo : List ℕ) (w : Wallet) (size : ℕ)
    → size + credit_size receive amount < 2 ^ 63
    → IsBalancedAt size w
    → IsBalancedAt (size + credit_size receive amount) (credit_simulated now amount memo w).0
unfolding credit_simulated total_amount held_amount held_back credited credit_size
credit-IsBalanced now amount memo w size small (b, sized) =
    rw (credit_exact w.unconfirmed amount size (unconfirmed_within w size (b, sized)) small) (
      record {
        total = add_last w.confirmed w.unconfirmed amount ∙ ap (λ t. amount +ℤ t) b.total;
        held = +ℤ_comm w.unconfirmed amount ∙ ap (λ t. amount +ℤ t) b.held;
        own = ((λ e. absurd (cc)), b.own);
        solvent = b.solvent;
      },
      omega (arith, sized),
    )

negate_not_positive : (t : ℤ) → leb_ℤ t (pos 0) ≡ false → leb_ℤ (negate t) (pos 0) ≡ true
negate_not_positive t h = ground (arith, negate-parts t)

enough_left : (c t : ℤ) → ltb_ℤ c t ≡ false → pos 0 ≤ℤ (c -ℤ t)
enough_left c t h = ground (arith, -ℤ-parts c t)

spend_exact :
    (c t : ℤ)
    → pos_part c < 2 ^ 63
    → leb_ℤ t (pos 0) ≡ false
    → ltb_ℤ c t ≡ false
    → wrap64 (c -ℤ t) ≡ c -ℤ t
spend_exact c t small gain enough =
    wrap64_small (c -ℤ t) (ground (arith, -ℤ-parts c t)) (ground (arith, -ℤ-parts c t))

pub queue-IsBalanced :
    (now : ℕ) (total : ℤ) (w : Wallet) (size : ℕ)
    → size < 2 ^ 63
    → leb_ℤ total (pos 0) ≡ false
    → ltb_ℤ w.confirmed total ≡ false
    → IsBalancedAt size w
    → IsBalancedAt size (queue_spend now total w).0
unfolding queue_spend total_amount held_amount held_back credited credit_size
queue-IsBalanced now total w size small gain enough (b, sized) =
    let (_, high, _, _) = wallet-Fits w b (omega (arith, sized, small)) in
    rw (spend_exact w.confirmed total (omega (arith, high)) gain enough) (
      record {
        total = take_out w.confirmed w.unconfirmed total ∙ ap (λ t. negate total +ℤ t) b.total;
        held = b.held ∙ sym (zero-+ℤ (held_amount w.txs));
        own = ((λ e. negate_not_positive total gain), b.own);
        solvent = enough_left w.confirmed total enough;
      },
      omega (arith, sized),
    )
