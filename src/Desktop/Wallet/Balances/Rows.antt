-- ===== src/Desktop/Wallet/Balances/Rows.antt =====
-- The loop of `advanceConfirmations` of layer3-app/qt/main.cpp: what it keeps of the rows and the balances.
use drachma_block_chain.Common.{
  ℕ, ◌+◌, ◌≡◌, refl, sym, ap, ◌∙◌, arith, List, [], ◌∷◌, Bool, true, false, ltb, leb, ◌&&◌,
  Bool-cases, inl, inr, All, &&_iff,
}
use mathlib.Core.Path.{subst}
use drachma_block_chain.Common.Int.{ℤ, pos, pos_part, neg_part, ◌+ℤ◌, leb_ℤ, ◌≤ℤ◌, ℤ-ext, +ℤ-parts}
use drachma_block_chain.Desktop.Wallet.Balances.Sums.{
  total_amount, held_back, held_amount, ripens, ripening, credit_size, credited, Fits, IsOwnRow,
}
use drachma_block_chain.Desktop.Wallet.{
  Status, pending, confirmed_status, TransactionRow, settle_amount, is_pending, advance_row,
  advance_rows,
}
use drachma_block_chain.Desktop.Wallet.Balances.Settling.{
  settle_held, settle_sum, settle-Fits, less-Fits, first-Fits,
}

-- What a round of the loop keeps, for a row and the balances before and after it; `ripe` is what the rows
-- behind it add.
record IsKept (row row' : TransactionRow) (before after : ℤ × ℤ) (ripe : ℕ) : Type 0 where
  amount : row'.amount ≡ row.amount
  direction : row'.direction ≡ row.direction
  sum : after.0 +ℤ after.1 ≡ before.0 +ℤ before.1
  held :
      after.1 +ℤ held_back row.direction row.status row.amount
      ≡ before.1 +ℤ held_back row'.direction row'.status row'.amount
  fits : Fits ripe after

is_pending_eq : (s : Status) → is_pending s ≡ true → s ≡ pending
unfolding is_pending
is_pending_eq pending h = refl
is_pending_eq confirmed_status h = absurd (cc)

ripened-IsKept :
    (row : TransactionRow) (confirmations : ℕ) (c u : ℤ) (ripe : ℕ)
    → row.status ≡ pending
    → IsOwnRow row
    → Fits (ripens row.status row.amount + ripe) (c, u)
    → IsKept row
        (record row { confirmations = confirmations; status = confirmed_status })
        (c, u)
        (settle_amount row.amount (c, u))
        ripe
unfolding ripens
ripened-IsKept row confirmations c u ripe waits own f =
    let f : Fits (pos_part row.amount + ripe) (c, u) =
      subst (λ s. Fits (ripens s row.amount + ripe) (c, u)) waits f in
    let f₀ = first-Fits (pos_part row.amount) ripe (c, u) f in
    record {
      amount = refl;
      direction = refl;
      sum = settle_sum row.amount c u f₀;
      held =
          ap (λ s. (settle_amount row.amount (c, u)).1 +ℤ held_back row.direction s row.amount)
            waits
          ∙ settle_held row.direction row.amount c u f₀ own;
      fits = settle-Fits row.amount c u ripe f f₀;
    }

advance_row-IsKept :
    (row : TransactionRow) (balances : ℤ × ℤ) (changed : Bool) (ripe : ℕ)
    → IsOwnRow row
    → Fits (ripens row.status row.amount + ripe) balances
    → IsKept row
        (advance_row row balances changed).0
        balances
        (advance_row row balances changed).1
        ripe
unfolding advance_row
advance_row-IsKept row (c, u) changed ripe own f =
    let left = less-Fits (ripens row.status row.amount) ripe (c, u) f in
    elim (Bool-cases (ltb row.confirmations 6)) [
      | inr old ↦
          rw old (record { amount = refl; direction = refl; sum = refl; held = refl; fits = left })
      | inl young ↦
          rw young (elim (Bool-cases (leb 2 (row.confirmations + 1) && is_pending row.status)) [
            | inr later ↦
                rw later
                  (record { amount = refl; direction = refl; sum = refl; held = refl; fits = left })
            | inl ripe_now ↦ rw ripe_now (
                ripened-IsKept row (row.confirmations + 1) c u ripe
                  (is_pending_eq row.status
                    ((&&_iff (leb 2 (row.confirmations + 1)) (is_pending row.status)).0 ripe_now).1)
                  own f)
          ])
    ]

-- The same for all rows.
pub record AreKept (rows rows' : List TransactionRow) (before after : ℤ × ℤ) : Type 0 where
  pub total : total_amount rows' ≡ total_amount rows
  pub own : All IsOwnRow rows'
  pub sum : after.0 +ℤ after.1 ≡ before.0 +ℤ before.1
  pub held : after.1 +ℤ held_amount rows ≡ before.1 +ℤ held_amount rows'
  pub sizes : credited rows' ≡ credited rows
  pub solvent : pos 0 ≤ℤ after.0

-- Two steps of the unconfirmed balance, for a row and for those behind it.
chain :
    (x y z h h' k k' : ℤ) → y +ℤ h ≡ x +ℤ h' → z +ℤ k ≡ y +ℤ k' → z +ℤ (h +ℤ k) ≡ x +ℤ (h' +ℤ k')
chain x y z h h' k k' p q = ℤ-ext _ _ (
    omega (
      arith,
      +ℤ-parts y h,
      +ℤ-parts x h',
      +ℤ-parts z k,
      +ℤ-parts y k',
      +ℤ-parts h k,
      +ℤ-parts h' k',
      +ℤ-parts z (h +ℤ k),
      +ℤ-parts x (h' +ℤ k'),
      ap pos_part p,
      ap neg_part p,
      ap pos_part q,
      ap neg_part q,
    ))

pub advance_rows-AreKept :
    (rows : List TransactionRow) (balances : ℤ × ℤ) (changed : Bool)
    → All IsOwnRow rows
    → Fits (ripening rows) balances
    → AreKept rows
        (advance_rows rows balances changed).0
        balances
        (advance_rows rows balances changed).1
unfolding advance_rows total_amount held_amount ripening credited
advance_rows-AreKept [] balances changed own f = record {
  total = refl;
  own = tt;
  sum = refl;
  held = refl;
  sizes = refl;
  solvent = f.0;
}
advance_rows-AreKept (row ∷ rows) balances changed own f =
    let one = advance_row row balances changed in
    let k = advance_row-IsKept row balances changed (ripening rows) own.0 f in
    let rest = advance_rows-AreKept rows one.1 one.2 own.1 k.fits in
    record {
      total =
          ap (λ a. a +ℤ total_amount (advance_rows rows one.1 one.2).0) k.amount
          ∙ ap (λ t. row.amount +ℤ t) rest.total;
      own = ((λ e. ap (λ a. leb_ℤ a (pos 0)) k.amount ∙ own.0 (sym k.direction ∙ e)), rest.own);
      sum = rest.sum ∙ k.sum;
      held = chain _ _ _ _ _ _ _ k.held rest.held;
      sizes =
          ap (λ n. n + credited (advance_rows rows one.1 one.2).0)
            (ap (λ d. credit_size d one.0.amount) k.direction
              ∙ ap (λ a. credit_size row.direction a) k.amount)
          ∙ ap (λ n. credit_size row.direction row.amount + n) rest.sizes;
      solvent = rest.solvent;
    }

unchanged_row :
    (row : TransactionRow) (balances : ℤ × ℤ) (changed : Bool)
    → (advance_row row balances changed).2 ≡ false
    → ((advance_row row balances changed).0 ≡ row) × (changed ≡ false)
unfolding advance_row
unchanged_row row balances changed h = elim (Bool-cases (ltb row.confirmations 6)) [
  | inr old ↦ rw old (refl, rw old at h)
  | inl young ↦ elim (Bool-cases (leb 2 (row.confirmations + 1) && is_pending row.status)) [
    | inl ripe ↦ absurd (cc (rw (young, ripe) at h))
    | inr later ↦ absurd (cc (rw (young, later) at h))
  ]
]

-- A loop that does not set `changed` left the rows as they were.
pub unchanged_rows :
    (rows : List TransactionRow) (balances : ℤ × ℤ) (changed : Bool)
    → (advance_rows rows balances changed).2 ≡ false
    → ((advance_rows rows balances changed).0 ≡ rows) × (changed ≡ false)
unfolding advance_rows
unchanged_rows [] balances changed h = (refl, h)
unchanged_rows (row ∷ rows) balances changed h =
    let one = advance_row row balances changed in
    let (same, before) = unchanged_rows rows one.1 one.2 h in
    let (kept, still) = unchanged_row row balances changed before in
    (ap (λ r. r ∷ (advance_rows rows one.1 one.2).0) kept ∙ ap (λ rs. row ∷ rs) same, still)
