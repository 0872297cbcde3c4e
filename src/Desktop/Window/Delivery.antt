-- ===== src/Desktop/Window/Delivery.antt =====
-- How the window of layer3-app/qt/main.cpp receives the signals of the wallet: a connected slot runs where
-- the signal is emitted, in the same thread. `QMutex` is not recursive: to lock it where this thread holds
-- it already does not return, which is `none`.
use drachma_block_chain.Common.{
  ℕ, ◌+◌, ◌≡◌, refl, ap, ◌∙◌, List, [], ◌∷◌, Bool, true, false, ltb, leb, ◌&&◌, ◌||◌, if◌then◌else◌,
  length, not, bytes_eq, if_cases, Option, none, some, Bool-cases, inl, inr,
}
use drachma_block_chain.Common.Int.{ℤ, pos, ◌+ℤ◌, leb_ℤ, ltb_ℤ}
use drachma_block_chain.Desktop.Wallet.{
  Answer, TransactionRow, Wallet, Signal, balances_changed, transactions_changed, address_added,
  encryption_state_changed, request_new_address, credit_simulated, create_spend, encrypt_wallet,
  unlock_wallet, advance_row, advance_rows, advance_confirmations, balance_signals, queue_spend,
  is_pending, WalletCall, requests, credits, spends, encrypts, unlocks, advances, run_call,
}

-- `transactions`, where the thread holds the mutex of the wallet or not.
unfoldable pub transactions : Bool → Wallet → Option (List TransactionRow)
transactions held w = if held then none else some w.txs

-- The slots, for the rows in the table: `refreshTransactions` reads the rows again, the others do not lock.
unfoldable pub deliver :
    Bool → Wallet → List TransactionRow → List Signal → Option (List TransactionRow)
deliver held w table [] = some table
deliver held w table (transactions_changed ∷ signals) = elim (transactions held w) [
  | none ↦ none
  | some rows ↦ deliver held w rows signals
]
deliver held w table (balances_changed c u ∷ signals) = deliver held w table signals
deliver held w table (address_added addr ∷ signals) = deliver held w table signals
deliver held w table (encryption_state_changed ∷ signals) = deliver held w table signals

abbrev emitted : Answer → Wallet × List Signal
emitted a = (a.1, a.2)

-- The wallet after a call, and the signals that it emits.
unfoldable pub perform : WalletCall → Wallet → Wallet × List Signal
perform (requests now label) w =
    let (addr, w', signals) = request_new_address now label w in (w', signals)
perform (credits now amount memo) w = credit_simulated now amount memo w
perform (spends now dest amount fee) w = emitted (create_spend now dest amount fee w)
perform (encrypts passphrase) w = emitted (encrypt_wallet passphrase w)
perform (unlocks passphrase) w = emitted (unlock_wallet passphrase w)
perform advances w = advance_confirmations w

-- Whether the call emits its signals inside the block that holds the mutex.
unfoldable pub emits_locked : WalletCall → Bool
emits_locked advances = true
emits_locked _ = false

unfoldable pub shown : Wallet → Option (List TransactionRow) → Option (Wallet × List TransactionRow)
shown w none = none
shown w (some rows) = some (w, rows)

-- A call on the wallet behind the window: the wallet and the rows in the table.
unfoldable pub window_call :
    WalletCall → Wallet × List TransactionRow → Option (Wallet × List TransactionRow)
window_call call (w, table) =
    let (w', signals) = perform call w in shown w' (deliver (emits_locked call) w' table signals)

-- Some row has fewer than six confirmations.
unfoldable pub has_young : List TransactionRow → Bool
has_young [] = false
has_young (row ∷ rows) = ltb row.confirmations 6 || has_young rows

unfoldable pub never_returns : WalletCall → Wallet → Bool
never_returns advances w = has_young w.txs
never_returns _ w = false

row_changed :
    (row : TransactionRow) (balances : ℤ × ℤ) (changed : Bool)
    → (advance_row row balances changed).2 ≡ (ltb row.confirmations 6 || changed)
unfolding advance_row
row_changed row balances changed = elim (Bool-cases (ltb row.confirmations 6)) [
  | inr old ↦ rw old
  | inl young ↦ elim (Bool-cases (leb 2 (row.confirmations + 1) && is_pending row.status)) [
    | inl ripe ↦ rw (young, ripe)
    | inr later ↦ rw (young, later)
  ]
]

swap : (a b c : Bool) → ((a || b) || c) ≡ (b || (a || c))
swap true true c = refl
swap true false c = refl
swap false b c = refl

rows_changed :
    (rows : List TransactionRow) (balances : ℤ × ℤ) (changed : Bool)
    → (advance_rows rows balances changed).2 ≡ (changed || has_young rows)
unfolding advance_rows has_young
rows_changed [] balances true = refl
rows_changed [] balances false = refl
rows_changed (row ∷ rows) balances changed =
    let one = advance_row row balances changed in
    rows_changed rows one.1 one.2
    ∙ ap (λ c. c || has_young rows) (row_changed row balances changed)
    ∙ swap (ltb row.confirmations 6) changed (has_young rows)

module _ (w : Wallet) where
  -- The call returns, and the table shows the rows of the wallet.
  abbrev Shows : Wallet × List Signal → Type 0
  Shows (w', signals) = shown w' (deliver false w' w.txs signals) ≡ some (w', w'.txs)

  spend-Shows :
      (now : ℕ) (dest : List ℕ) (amount fee : ℤ)
      → Shows (emitted (create_spend now dest amount fee w))
  unfolding create_spend queue_spend balance_signals deliver transactions shown
  spend-Shows now dest amount fee =
      if_cases (λ a. Shows (emitted a)) w.locked _ _ refl
        (if_cases (λ a. Shows (emitted a)) (leb_ℤ (amount +ℤ fee) (pos 0)) _ _ refl
          (if_cases (λ a. Shows (emitted a)) (ltb_ℤ w.confirmed (amount +ℤ fee)) _ _ refl refl))

  encrypt-Shows : (passphrase : List ℕ) → Shows (emitted (encrypt_wallet passphrase w))
  unfolding encrypt_wallet deliver shown
  encrypt-Shows passphrase =
      if_cases (λ a. Shows (emitted a)) (ltb (length passphrase) 8) _ _ refl
        (if_cases (λ a. Shows (emitted a)) w.encrypted _ _ refl refl)

  unlock-Shows : (passphrase : List ℕ) → Shows (emitted (unlock_wallet passphrase w))
  unfolding unlock_wallet deliver shown
  unlock-Shows passphrase =
      if_cases (λ a. Shows (emitted a)) (not w.encrypted) _ _ refl
        (if_cases (λ a. Shows (emitted a)) (not (bytes_eq passphrase w.passphrase)) _ _ refl refl)

  abbrev locked_delivery : Wallet × List Signal → Option (Wallet × List TransactionRow)
  locked_delivery (w', signals) = shown w' (deliver true w' w.txs signals)

  hangs_if :
      (b y : Bool) (p q : Wallet × List Signal)
      → b ≡ y
      → locked_delivery p ≡ none
      → locked_delivery q ≡ some (q.0, q.0.txs)
      → locked_delivery (if b then p else q)
        ≡ (if y then none else some ((if b then p else q).0, (if b then p else q).0.txs))
  hangs_if true true p q e hp hq = hp
  hangs_if false false p q e hp hq = hq
  hangs_if true false p q e hp hq = absurd (cc)
  hangs_if false true p q e hp hq = absurd (cc)

  advance_shown :
      let (w', signals) = advance_confirmations w in
      shown w' (deliver true w' w.txs signals)
      ≡ (if has_young w.txs then none else some (w', w'.txs))
  unfolding advance_confirmations balance_signals deliver transactions shown
  advance_shown =
      let out = advance_rows w.txs (w.confirmed, w.unconfirmed) false in
      let young = rows_changed w.txs (w.confirmed, w.unconfirmed) false in
      hangs_if out.2 (has_young w.txs) _ _ young refl refl

  -- The window behind the wallet, with the rows of the wallet in its table: every call returns and leaves
  -- the rows of the wallet in the table, but for a round of confirmations where some row has fewer than six
  -- confirmations. That one never returns, because `advanceConfirmations` emits `transactionsChanged` while
  -- it holds the mutex that the connected slot locks again.
  pub window_call_returns :
      (call : WalletCall)
      → window_call call (w, w.txs)
        ≡ (if never_returns call w then none else some (run_call call w, (run_call call w).txs))
  unfolding window_call perform emits_locked never_returns run_call request_new_address
      credit_simulated balance_signals deliver transactions shown
  window_call_returns (requests now label) = refl
  window_call_returns (credits now amount memo) = refl
  window_call_returns (spends now dest amount fee) = spend-Shows now dest amount fee
  window_call_returns (encrypts passphrase) = encrypt-Shows passphrase
  window_call_returns (unlocks passphrase) = unlock-Shows passphrase
  window_call_returns advances = advance_shown
