-- ===== src/Desktop/Wallet/Locking.antt =====
-- The encryption of the wallet of layer3-app/qt/main.cpp.
use drachma_block_chain.Common.{
  ℕ, ◌≡◌, refl, sym, ap, not, ◌∙◌, List, [], ◌∷◌, length, true, false, ltb, none, some, Bool-cases,
  if_true, if_false, if_cases, inl, inr, All, bytes_eq, bytes_eq_refl,
}
use mathlib.Core.Path.{subst}
use drachma_block_chain.Common.Int.{ℤ}
use drachma_block_chain.Desktop.Wallet.{
  Answer, Signal, Wallet, wallet_is_locked, create_spend, encrypt_wallet, unlock_wallet,
  request_new_address, credit_simulated, advance_confirmations, advance_rows, WalletCall, requests,
  credits, spends, encrypts, unlocks, advances, run_call, run_calls,
}

-- The wallet is encrypted under the passphrase, and locked.
record IsSealed (passphrase : List ℕ) (w : Wallet) : Type 0 where
  encrypted : w.encrypted ≡ true
  locked : w.locked ≡ true
  key : w.passphrase ≡ passphrase

-- The call does not try to unlock the wallet with the passphrase.
abbrev pub LacksKey : List ℕ → WalletCall → Type 0
LacksKey passphrase (unlocks p) = bytes_eq p passphrase ≡ false
LacksKey passphrase _ = Unit

encrypt_again : (p : List ℕ) (w : Wallet) → w.encrypted ≡ true → (encrypt_wallet p w).1 ≡ w
unfolding encrypt_wallet
encrypt_again p w done = elim (Bool-cases (ltb (length p) 8)) [
  | inl short ↦ ap (λ (a : Answer). a.1) (if_true (ltb (length p) 8) _ _ short)
  | inr long ↦
      ap (λ (a : Answer). a.1) (if_false (ltb (length p) 8) _ _ long ∙ if_true w.encrypted _ _ done)
]

unlock_wrong :
    (p : List ℕ) (w : Wallet)
    → w.encrypted ≡ true
    → bytes_eq p w.passphrase ≡ false
    → (unlock_wallet p w).1 ≡ w
unfolding unlock_wallet
unlock_wrong p w done wrong =
    ap (λ (a : Answer). a.1)
      (if_false (not w.encrypted) _ _ (ap not done)
        ∙ if_true (not (bytes_eq p w.passphrase)) _ _ (ap not wrong))

spend_locked :
    (dest : List ℕ) (now : ℕ) (amount fee : ℤ) (w : Wallet)
    → w.locked ≡ true
    → create_spend now dest amount fee w ≡ (some wallet_is_locked, w, [])
unfolding create_spend
spend_locked dest now amount fee w h = if_true w.locked _ _ h

module _ (passphrase : List ℕ) where
  run_call-IsSealed :
      (call : WalletCall) (w : Wallet)
      → LacksKey passphrase call
      → IsSealed passphrase w
      → IsSealed passphrase (run_call call w)
  unfolding run_call request_new_address credit_simulated advance_confirmations
  run_call-IsSealed (requests now label) w h s = record {
    encrypted = s.encrypted;
    locked = s.locked;
    key = s.key;
  }
  run_call-IsSealed (credits now amount memo) w h s = record {
    encrypted = s.encrypted;
    locked = s.locked;
    key = s.key;
  }
  run_call-IsSealed (spends now dest amount fee) w h s =
      subst (λ (a : Answer). IsSealed passphrase a.1)
        (sym (spend_locked dest now amount fee w s.locked)) s
  run_call-IsSealed (encrypts p) w h s =
      subst (IsSealed passphrase) (sym (encrypt_again p w s.encrypted)) s
  run_call-IsSealed (unlocks p) w h s =
      subst (IsSealed passphrase) (sym (unlock_wrong p w s.encrypted (ap (bytes_eq p) s.key ∙ h))) s
  run_call-IsSealed advances w h s =
      if_cases (λ (r : Wallet × List Signal). IsSealed passphrase r.0)
        (advance_rows w.txs (w.confirmed, w.unconfirmed) false).2 _ _
        (record { encrypted = s.encrypted; locked = s.locked; key = s.key })
        (record { encrypted = s.encrypted; locked = s.locked; key = s.key })

  run_calls-IsSealed :
      (calls : List WalletCall) (w : Wallet)
      → All (LacksKey passphrase) calls
      → IsSealed passphrase w
      → IsSealed passphrase (run_calls calls w)
  unfolding run_calls
  run_calls-IsSealed [] w h s = s
  run_calls-IsSealed (call ∷ calls) w h s =
      run_calls-IsSealed calls (run_call call w) h.1 (run_call-IsSealed call w h.0 s)

encrypted_now :
    (passphrase : List ℕ) (w : Wallet)
    → (encrypt_wallet passphrase w).0 ≡ none
    → IsSealed passphrase (encrypt_wallet passphrase w).1
unfolding encrypt_wallet
encrypted_now passphrase w h = elim (Bool-cases (ltb (length passphrase) 8)) [
  | inl short ↦
      absurd (cc (ap (λ (a : Answer). a.0) (if_true (ltb (length passphrase) 8) _ _ short), h))
  | inr long ↦ elim (Bool-cases w.encrypted) [
    | inl done ↦ absurd (
        cc (
          ap (λ (a : Answer). a.0)
              (if_false (ltb (length passphrase) 8) _ _ long ∙ if_true w.encrypted _ _ done),
          h,
        ))
    | inr fresh ↦
        subst (λ (a : Answer). IsSealed passphrase a.1)
          (sym (if_false (ltb (length passphrase) 8) _ _ long ∙ if_false w.encrypted _ _ fresh))
          (record { encrypted = refl; locked = refl; key = refl })
  ]
]

unlock_right :
    (passphrase : List ℕ) (w : Wallet)
    → IsSealed passphrase w
    → ((unlock_wallet passphrase w).0 ≡ none) × ((unlock_wallet passphrase w).1.locked ≡ false)
unfolding unlock_wallet
unlock_right passphrase w s =
    let right = ap (bytes_eq passphrase) s.key ∙ bytes_eq_refl passphrase in
    let opened =
      if_false (not w.encrypted) _ _ (ap not s.encrypted)
      ∙ if_false (not (bytes_eq passphrase w.passphrase)) _ _ (ap not right) in
    (ap (λ (a : Answer). a.0) opened, ap (λ (a : Answer). a.1.locked) opened)

-- Once the wallet has been encrypted, and as long as no call tries to unlock it with the passphrase, every
-- spend is refused because the wallet is locked and changes nothing; the passphrase then unlocks it.
pub locked_until_unlocked :
    (passphrase : List ℕ) (w : Wallet) (calls : List WalletCall)
    → (encrypt_wallet passphrase w).0 ≡ none
    → All (LacksKey passphrase) calls
    → let w' = run_calls calls (encrypt_wallet passphrase w).1 in
      ((now : ℕ) (dest : List ℕ) (amount fee : ℤ)
        → create_spend now dest amount fee w' ≡ (some wallet_is_locked, w', []))
      × ((unlock_wallet passphrase w').0 ≡ none)
      × ((unlock_wallet passphrase w').1.locked ≡ false)
locked_until_unlocked passphrase w calls h lacks =
    let w' = run_calls calls (encrypt_wallet passphrase w).1 in
    let s =
      run_calls-IsSealed passphrase calls (encrypt_wallet passphrase w).1 lacks
        (encrypted_now passphrase w h) in
    let (unlocked, usable) = unlock_right passphrase w' s in
    (λ now dest amount fee. spend_locked dest now amount fee w' s.locked, unlocked, usable)
