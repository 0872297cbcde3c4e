-- ===== src/Desktop/Wallet/Balances.antt =====
-- The balances of the wallet of layer3-app/qt/main.cpp against its rows.
pub mod Rows
pub mod Settling
pub mod Steps
pub mod Sums
use drachma_block_chain.Common.{
  ◌^◌, ◌<◌, ◌≤◌, ℕ, ◌+◌, ◌≡◌, refl, sym, ap, length, bytes_eq, ◌∙◌, arith, List, [], ◌∷◌, Bool,
  true, false, ltb, if◌then◌else◌, none, some, Bool-cases, inl, inr, All,
}
use mathlib.Core.Path.{subst}
use drachma_block_chain.Common.Int.{ℤ, pos, pos_part, neg_part, ◌+ℤ◌, leb_ℤ, ltb_ℤ, ◌≤ℤ◌}
use drachma_block_chain.Desktop.Wallet.{
  Answer, wallet_is_locked, amount_not_positive, insufficient_balance, Wallet, new_wallet,
  queue_spend, create_spend, encrypt_wallet, unlock_wallet, request_new_address, WalletCall,
  requests, credits, spends, encrypts, unlocks, advances, run_call, run_calls,
}
use drachma_block_chain.Desktop.Wallet.Balances.Sums.{
  total_amount, held_amount, credited, credit_size, IsOwnRow,
}
use drachma_block_chain.Desktop.Wallet.Balances.Steps.{
  IsBalanced, IsBalancedAt, advance-IsBalanced, credit-IsBalanced, queue-IsBalanced,
}

-- The tests of a spend, with the answer that each leaves.
abbrev answer_of : Bool → Bool → Bool → Wallet → Answer → Answer
answer_of locked none_paid short w queued =
    if locked
    then (some wallet_is_locked, w, [])
    else if none_paid
    then (some amount_not_positive, w, [])
    else if short
    then (some insufficient_balance, w, [])
    else queued

guarded :
    (locked none_paid short : Bool) (w : Wallet) (queued : Answer) (size : ℕ)
    → IsBalancedAt size w
    → (none_paid ≡ false → short ≡ false → IsBalancedAt size queued.1)
    → IsBalancedAt size (answer_of locked none_paid short w queued).1
guarded true _ _ w queued size b h = b
guarded false true _ w queued size b h = b
guarded false false true w queued size b h = b
guarded false false false w queued size b h = h refl refl

spend-IsBalanced :
    (now : ℕ) (dest : List ℕ) (amount fee : ℤ) (w : Wallet) (size : ℕ)
    → size < 2 ^ 63
    → IsBalancedAt size w
    → IsBalancedAt size (create_spend now dest amount fee w).1
unfolding create_spend
spend-IsBalanced now dest amount fee w size small b =
    let total = amount +ℤ fee in
    let queued = queue_spend now total w in
    guarded w.locked (leb_ℤ total (pos 0)) (ltb_ℤ w.confirmed total) w (none, queued.0, queued.1)
      size b (λ gain enough. queue-IsBalanced now total w size small gain enough b)

-- The operations that leave the rows and the balances as they are.
abbrev SameMoney : Wallet → Wallet → Type 0
SameMoney w w' = (w'.txs ≡ w.txs) × (w'.confirmed ≡ w.confirmed) × (w'.unconfirmed ≡ w.unconfirmed)

same-IsBalanced :
    (w w' : Wallet) (size : ℕ) → SameMoney w w' → IsBalancedAt size w → IsBalancedAt size w'
same-IsBalanced w w' size (rows, settled, waiting) (b, sized) = (
  record {
    total =
        ap (λ c. c +ℤ w'.unconfirmed) settled
        ∙ ap (λ u. w.confirmed +ℤ u) waiting
        ∙ b.total
        ∙ ap total_amount (sym rows);
    held = waiting ∙ b.held ∙ ap held_amount (sym rows);
    own = subst (λ r. All IsOwnRow r) (sym rows) b.own;
    solvent = subst (λ c. pos 0 ≤ℤ c) (sym settled) b.solvent;
  },
  ap credited rows ∙ sized,
)

encrypt-SameMoney : (passphrase : List ℕ) (w : Wallet) → SameMoney w (encrypt_wallet passphrase w).1
unfolding encrypt_wallet
encrypt-SameMoney passphrase w = elim (Bool-cases (ltb (length passphrase) 8)) [
  | inl short ↦ rw short (refl, refl, refl)
  | inr long ↦ elim (Bool-cases w.encrypted) [
    | inl done ↦ rw (long, done) (refl, refl, refl)
    | inr fresh ↦ rw (long, fresh) (refl, refl, refl)
  ]
]

unlock-SameMoney : (passphrase : List ℕ) (w : Wallet) → SameMoney w (unlock_wallet passphrase w).1
unfolding unlock_wallet
unlock-SameMoney passphrase w = elim (Bool-cases w.encrypted) [
  | inr plain ↦ rw plain (refl, refl, refl)
  | inl secret ↦ elim (Bool-cases (bytes_eq passphrase w.passphrase)) [
    | inl right ↦ rw (secret, right) (refl, refl, refl)
    | inr wrong ↦ rw (secret, wrong) (refl, refl, refl)
  ]
]

-- The size of the amount that a call credits, and of those that calls credit together.
unfoldable pub credit_of : WalletCall → ℕ
credit_of (requests now label) = 0
credit_of (credits now amount memo) = pos_part amount + neg_part amount
credit_of (spends now dest amount fee) = 0
credit_of (encrypts passphrase) = 0
credit_of (unlocks passphrase) = 0
credit_of advances = 0

unfoldable pub credits_of : List WalletCall → ℕ
credits_of [] = 0
credits_of (call ∷ calls) = credit_of call + credits_of calls

stays : {w : Wallet} {size : ℕ} → IsBalancedAt size w → IsBalancedAt (size + 0) w
stays (b, sized) = (b, omega (arith, sized))

run_call-IsBalanced :
    (call : WalletCall) (w : Wallet) (size : ℕ)
    → size + credit_of call < 2 ^ 63
    → IsBalancedAt size w
    → IsBalancedAt (size + credit_of call) (run_call call w)
unfolding run_call request_new_address credit_of credit_size
run_call-IsBalanced (requests now label) w size small b =
    stays (same-IsBalanced w (request_new_address now label w).1 size (refl, refl, refl) b)
run_call-IsBalanced (credits now amount memo) w size small b =
    credit-IsBalanced now amount memo w size small b
run_call-IsBalanced (spends now dest amount fee) w size small b =
    stays (spend-IsBalanced now dest amount fee w size (omega arith) b)
run_call-IsBalanced (encrypts passphrase) w size small b =
    stays (same-IsBalanced w _ size (encrypt-SameMoney passphrase w) b)
run_call-IsBalanced (unlocks passphrase) w size small b =
    stays (same-IsBalanced w _ size (unlock-SameMoney passphrase w) b)
run_call-IsBalanced advances w size small b = stays (advance-IsBalanced w size (omega arith) b)

run_from :
    (calls : List WalletCall) (w : Wallet) (size : ℕ)
    → size + credits_of calls < 2 ^ 63
    → IsBalancedAt size w
    → IsBalanced (run_calls calls w)
unfolding run_calls credits_of
run_from [] w size small b = b.0
run_from (call ∷ calls) w size small b =
    run_from calls (run_call call w) (size + credit_of call) (omega arith)
      (run_call-IsBalanced call w size (omega arith) b)

-- After any sequence of calls on a new wallet (addresses, credits, spends, encryption, unlocking, rounds of
-- confirmation) whose credited amounts, each counted by its size, sum up to less than 2^63: the confirmed
-- balance is not negative, the two balances together are the sum of the amounts of all transactions, and the
-- unconfirmed balance is the sum of what the transactions hold back: the amount of a credit that is pending
-- or that is not positive.
pub run_calls-IsBalanced :
    (calls : List WalletCall) → credits_of calls < 2 ^ 63 → IsBalanced (run_calls calls new_wallet)
unfolding total_amount held_amount credited ◌+ℤ◌
run_calls-IsBalanced calls small =
    run_from calls new_wallet 0 (omega arith)
      (record { total = ap pos (omega arith); held = refl; own = tt; solvent = omega arith }, refl)
