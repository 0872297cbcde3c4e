-- ===== src/Desktop/Wallet/Balances/Sums.antt =====
-- What rows of the wallet of layer3-app/qt/main.cpp add up to.
use drachma_block_chain.Common.{
  ℕ, ◌^◌, ◌≤◌, ◌<◌, ◌+◌, ◌≡◌, refl, sym, ap, ◌∙◌, arith, List, [], ◌∷◌, true, if◌then◌else◌, All,
}
use drachma_block_chain.Common.Int.{
  ℤ, pos, negsuc, pos_part, neg_part, ◌+ℤ◌, leb_ℤ, ltb_ℤ, ◌≤ℤ◌, +ℤ-parts,
}
use drachma_block_chain.Desktop.Wallet.{
  Direction, send, receive, Status, pending, confirmed_status, TransactionRow,
}

-- The sum of the amounts of rows, and of those that are still to be confirmed.
unfoldable pub total_amount : List TransactionRow → ℤ
total_amount [] = pos 0
total_amount (row ∷ rows) = row.amount +ℤ total_amount rows

-- What a row holds back from the confirmed balance: a credit until it is confirmed.
unfoldable pub held_back : Direction → Status → ℤ → ℤ
held_back send status amount = pos 0
held_back receive pending amount = amount
held_back receive confirmed_status amount = if ltb_ℤ (pos 0) amount then pos 0 else amount

unfoldable pub held_amount : List TransactionRow → ℤ
held_amount [] = pos 0
held_amount (row ∷ rows) = held_back row.direction row.status row.amount +ℤ held_amount rows

-- What rows add to the confirmed balance once all of them are confirmed.
unfoldable pub ripens : Status → ℤ → ℕ
ripens pending amount = pos_part amount
ripens confirmed_status amount = 0

unfoldable pub ripening : List TransactionRow → ℕ
ripening [] = 0
ripening (row ∷ rows) = ripens row.status row.amount + ripening rows

-- The size of the amounts that rows have credited.
unfoldable pub credit_size : Direction → ℤ → ℕ
credit_size send amount = 0
credit_size receive amount = pos_part amount + neg_part amount

unfoldable pub credited : List TransactionRow → ℕ
credited [] = 0
credited (row ∷ rows) = credit_size row.direction row.amount + credited rows

-- The balances stay in the range of the source's integers while the rows are confirmed.
abbrev pub Fits : ℕ → ℤ × ℤ → Type 0
Fits ripe (c, u) =
    (pos 0 ≤ℤ c)
    × (pos_part c + ripe < 2 ^ 63)
    × (neg_part u + ripe ≤ 2 ^ 63 + pos_part u)
    × (pos_part u < 2 ^ 63)

-- Rows as the wallet makes them: a spend has an amount that is not positive.
abbrev pub IsOwnRow : TransactionRow → Type 0
IsOwnRow row = row.direction ≡ send → leb_ℤ row.amount (pos 0) ≡ true

-- For a row: what it adds to the amounts, what it holds back and what it ripens, against its credit.
record RowBounds (amount held : ℤ) (ripe size : ℕ) : Type 0 where
  waits : pos_part held ≤ ripe + neg_part held
  lost : ripe + neg_part held ≤ size + pos_part held
  gained : pos_part amount + neg_part held + ripe ≤ size + neg_part amount + pos_part held
  within : ripe ≤ size

row_bounds :
    (d : Direction) (s : Status) (a : ℤ)
    → (d ≡ send → leb_ℤ a (pos 0) ≡ true)
    → RowBounds a (held_back d s a) (ripens s a) (credit_size d a)
unfolding held_back ripens credit_size
row_bounds send pending a own =
    let h = own refl in
    record {
      waits = omega arith;
      lost = ground arith;
      gained = ground arith;
      within = ground arith;
    }
row_bounds send confirmed_status a own =
    let h = own refl in
    record { waits = omega arith; lost = omega arith; gained = ground arith; within = omega arith }
row_bounds receive pending a own = record {
  waits = omega arith;
  lost = omega arith;
  gained = omega arith;
  within = omega arith;
}
row_bounds receive confirmed_status a own = record {
  waits = ground arith;
  lost = ground arith;
  gained = ground arith;
  within = omega arith;
}

sum_bounds :
    (rows : List TransactionRow)
    → All IsOwnRow rows
    → RowBounds (total_amount rows) (held_amount rows) (ripening rows) (credited rows)
unfolding total_amount held_amount ripening credited
sum_bounds [] own = record {
  waits = omega arith;
  lost = omega arith;
  gained = omega arith;
  within = omega arith;
}
sum_bounds (row ∷ rows) own =
    let h = held_back row.direction row.status row.amount in
    let one = row_bounds row.direction row.status row.amount own.0 in
    let rest = sum_bounds rows own.1 in
    let p = +ℤ-parts h (held_amount rows) in
    let q = +ℤ-parts row.amount (total_amount rows) in
    record {
      waits = omega (arith, p, one.waits, rest.waits);
      lost = omega (arith, p, one.lost, rest.lost);
      gained = omega (arith, p, q, one.gained, rest.gained);
      within = omega (arith, one.within, rest.within);
    }

alone : (z : ℤ) (n m : ℕ) → pos_part z + m ≤ n + neg_part z → m ≤ n → pos_part z + m ≤ n
alone (pos z) n m h small = omega arith
alone (negsuc z) n m h small = omega arith

-- What rows hold back is at most what they credit, with either sign.
pub held_within :
    (rows : List TransactionRow)
    → All IsOwnRow rows
    → (pos_part (held_amount rows) ≤ credited rows + neg_part (held_amount rows))
      × (neg_part (held_amount rows) ≤ credited rows + pos_part (held_amount rows))
held_within rows own =
    let b = sum_bounds rows own in (omega (arith, b.waits, b.within), omega (arith, b.lost))

-- Balances of rows that credit less than 2^63 have room for all of them.
pub balances-Fits :
    (rows : List TransactionRow) (c u : ℤ)
    → All IsOwnRow rows
    → c +ℤ u ≡ total_amount rows
    → u ≡ held_amount rows
    → pos 0 ≤ℤ c
    → credited rows < 2 ^ 63
    → Fits (ripening rows) (c, u)
balances-Fits rows c u own total held solvent small =
    let b = sum_bounds rows own in
    let p = +ℤ-parts c u in
    let t : pos_part (c +ℤ u) + neg_part (total_amount rows)
        ≡ pos_part (total_amount rows) + neg_part (c +ℤ u) =
      ap (λ z. pos_part z + neg_part (total_amount rows)) total
      ∙ ap (λ z. pos_part (total_amount rows) + neg_part z) (sym total) in
    let hp = ap pos_part held in
    let hn = ap neg_part held in
    let room =
      alone c (credited rows) (ripening rows) (omega (arith, p, t, hp, hn, b.gained)) b.within in
    let waits = alone u (ripening rows) 0 (omega (arith, hp, hn, b.waits)) (omega arith) in
    (
      solvent,
      omega (arith, room, small),
      omega (arith, hp, hn, b.lost, small),
      omega (arith, waits, b.within, small),
    )
