-- ===== src/Desktop/Wallet/Tests.antt =====
-- Runs of the wallet of layer3-app/qt/main.cpp.
use drachma_block_chain.Common.{
  ℕ, ◌-◌, ◌^◌, arith, ◌≡◌, refl, List, [], ◌∷◌, bytes_eq, false, none, some, codes,
}
use drachma_block_chain.Common.Int.{ℤ, pos, negsuc, wrap64, ◌+ℤ◌, ◌-ℤ◌, negate}
use drachma_block_chain.Common.Digits.{decimal, digits, digit_char}
use drachma_block_chain.Desktop.Wallet.{
  new_wallet, wallet_is_locked, insufficient_balance, create_spend, encrypt_wallet, unlock_wallet,
  request_new_address, credit_simulated, queue_spend, balance_signals, advance_confirmations,
  advance_rows, advance_row, settle_amount, is_pending, show_label, run_call, WalletCall, requests,
  credits, spends, encrypts, unlocks, advances, run_calls,
}
use drachma_block_chain.Desktop.Wallet.Balances.Steps.{IsBalanced}
use drachma_block_chain.Desktop.Wallet.Balances.{credits_of, credit_of, run_calls-IsBalanced}
use drachma_block_chain.Desktop.Wallet.Locking.{locked_until_unlocked}

-- The wallet as the window seeds it, then two rounds of confirmation and a spend.
abbrev first_calls : List WalletCall
first_calls =
    credits 1000 (pos 2500000000) (codes "initial-aid")
    ∷ requests 1000 (codes "default")
    ∷ advances
    ∷ advances
    ∷ spends 2000 (codes "drm_1_0") (pos 100000000) (pos 10000)
    ∷ []

confirmed_test : (run_calls first_calls new_wallet).confirmed ≡ pos 2399990000
unfolding run_calls run_call credit_simulated request_new_address create_spend queue_spend
    balance_signals advance_confirmations advance_rows advance_row settle_amount is_pending wrap64
    ◌+ℤ◌ ◌-ℤ◌ negate
confirmed_test = refl

unconfirmed_test : (run_calls first_calls new_wallet).unconfirmed ≡ pos 0
unfolding run_calls run_call credit_simulated request_new_address create_spend queue_spend
    balance_signals advance_confirmations advance_rows advance_row settle_amount is_pending wrap64
    ◌+ℤ◌ ◌-ℤ◌ negate
unconfirmed_test = refl

too_soon_test :
    (create_spend 1 []
      (pos 1)
      (pos 0)
      (run_calls (credits 0 (pos 5) [] ∷ advances ∷ []) new_wallet)).0
    ≡ some insufficient_balance
unfolding run_calls run_call credit_simulated request_new_address create_spend queue_spend
    balance_signals advance_confirmations advance_rows advance_row settle_amount is_pending wrap64
    ◌+ℤ◌ ◌-ℤ◌ negate
too_soon_test = refl

address_test :
    (request_new_address 120 (codes "x") new_wallet).1.addresses ≡ codes "drm_120_0 (x)" ∷ []
unfolding request_new_address decimal digits digit_char show_label
address_test = refl

run_calls-IsBalanced_example : IsBalanced (run_calls first_calls new_wallet)
unfolding credits_of credit_of
run_calls-IsBalanced_example = run_calls-IsBalanced first_calls (omega arith)

-- Two credits of 2^62 that are confirmed together make the confirmed balance negative.
abbrev large_calls : List WalletCall
large_calls = credits 1 (pos (2 ^ 62)) [] ∷ credits 2 (pos (2 ^ 62)) [] ∷ advances ∷ advances ∷ []

wrapped_test : (run_calls large_calls new_wallet).confirmed ≡ negsuc (2 ^ 63 - 1)
unfolding run_calls run_call credit_simulated advance_confirmations advance_rows advance_row
    settle_amount is_pending wrap64 ◌+ℤ◌ ◌-ℤ◌
wrapped_test = refl

abbrev secret : List ℕ
secret = codes "passw0rd"

encrypt_test : (encrypt_wallet secret new_wallet).0 ≡ none
unfolding encrypt_wallet
encrypt_test = refl

abbrev wrong_keys : List WalletCall
wrong_keys = unlocks (codes "password") ∷ advances ∷ encrypts (codes "password") ∷ []

locked_until_unlocked_example :
    ((now : ℕ) (dest : List ℕ) (amount fee : ℤ)
      → create_spend now dest amount fee (run_calls wrong_keys (encrypt_wallet secret new_wallet).1)
        ≡ (some wallet_is_locked, run_calls wrong_keys (encrypt_wallet secret new_wallet).1, []))
    × ((unlock_wallet secret (run_calls wrong_keys (encrypt_wallet secret new_wallet).1)).0 ≡ none)
    × ((unlock_wallet secret (run_calls wrong_keys (encrypt_wallet secret new_wallet).1)).1.locked
        ≡ false)
unfolding bytes_eq
locked_until_unlocked_example =
    locked_until_unlocked secret new_wallet wrong_keys encrypt_test (search tt)
