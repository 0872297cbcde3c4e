-- ===== src/Desktop/Wallet.antt =====
-- `WalletServiceClient` of layer3-app/qt/main.cpp. A balance is a 64-bit integer that wraps, as
-- `std::atomic<qint64>` does; an amount is one without bound. The time is an argument.
pub mod Balances
pub mod Locking
mod Tests
use drachma_block_chain.Common.{
  ℕ, ◌+◌, List, [], ◌∷◌, ◌++◌, length, Bool, true, false, ltb, leb, not, ◌&&◌, if◌then◌else◌,
  Option, none, some, bytes_eq, codes,
}
use drachma_block_chain.Common.Int.{ℤ, pos, negsuc, ◌+ℤ◌, ◌-ℤ◌, negate, leb_ℤ, ltb_ℤ, wrap64}
use drachma_block_chain.Common.Digits.{decimal}

pub data Direction : Type 0 where
  send receive : Direction

pub data Status : Type 0 where
  pending confirmed_status : Status

pub record TransactionRow : Type 0 where
  pub txid : List ℕ
  pub direction : Direction
  pub amount : ℤ
  pub confirmations : ℕ
  pub status : Status
  pub timestamp : ℕ

pub record Wallet : Type 0 where
  pub addresses : List (List ℕ)
  pub txs : List TransactionRow
  pub confirmed : ℤ
  pub unconfirmed : ℤ
  pub encrypted : Bool
  pub locked : Bool
  pub passphrase : List ℕ

pub data Signal : Type 0 where
  balances_changed : ℤ → ℤ → Signal
  transactions_changed encryption_state_changed : Signal
  address_added : List ℕ → Signal

pub data WalletError : Type 0 where
  wallet_is_locked amount_not_positive insufficient_balance : WalletError
  passphrase_too_short already_encrypted not_encrypted incorrect_passphrase : WalletError

-- The answer of an operation that may fail: `none` is success.
abbrev pub Answer : Type 0
Answer = Option WalletError × Wallet × List Signal

-- The constructor
abbrev pub new_wallet : Wallet
new_wallet = record {
  addresses = [];
  txs = [];
  confirmed = pos 0;
  unconfirmed = pos 0;
  encrypted = false;
  locked = false;
  passphrase = [];
}

unfoldable pub show_label : List ℕ → List ℕ
show_label [] = []
show_label (c ∷ cs) = codes " (" ++ ((c ∷ cs) ++ codes ")")

-- `requestNewAddress`
unfoldable pub request_new_address : ℕ → List ℕ → Wallet → List ℕ × Wallet × List Signal
request_new_address now label w =
    let addr = codes "drm_" ++ (decimal now ++ (codes "_" ++ decimal (length w.addresses))) in
    (
      addr,
      record w { addresses = w.addresses ++ (addr ++ show_label label) ∷ [] },
      address_added addr ∷ [],
    )

unfoldable pub balance_signals : ℤ → ℤ → List Signal
balance_signals confirmed unconfirmed =
    balances_changed confirmed unconfirmed ∷ transactions_changed ∷ []

-- `creditSimulated`
unfoldable pub credit_simulated : ℕ → ℤ → List ℕ → Wallet → Wallet × List Signal
credit_simulated now amount memo w =
    let row : TransactionRow = record {
      txid = memo;
      direction = receive;
      amount = amount;
      confirmations = 0;
      status = pending;
      timestamp = now;
    } in
    let unconfirmed = wrap64 (w.unconfirmed +ℤ amount) in
    (
      record w { txs = row ∷ w.txs; unconfirmed = unconfirmed },
      balance_signals w.confirmed unconfirmed,
    )

-- `createSpend` behind its tests, for the total.
unfoldable pub queue_spend : ℕ → ℤ → Wallet → Wallet × List Signal
queue_spend now total w =
    let row : TransactionRow = record {
      txid = codes "tx_" ++ decimal now;
      direction = send;
      amount = negate total;
      confirmations = 0;
      status = pending;
      timestamp = now;
    } in
    let confirmed = wrap64 (w.confirmed -ℤ total) in
    (record w { txs = row ∷ w.txs; confirmed = confirmed }, balance_signals confirmed w.unconfirmed)

-- `createSpend`, which makes no use of the destination.
unfoldable pub create_spend : ℕ → List ℕ → ℤ → ℤ → Wallet → Answer
create_spend now dest amount fee w =
    let total = amount +ℤ fee in
    if w.locked
    then (some wallet_is_locked, w, [])
    else if leb_ℤ total (pos 0)
    then (some amount_not_positive, w, [])
    else if ltb_ℤ w.confirmed total
    then (some insufficient_balance, w, [])
    else let (w', signals) = queue_spend now total w in (none, w', signals)

-- `encryptWallet`
unfoldable pub encrypt_wallet : List ℕ → Wallet → Answer
encrypt_wallet passphrase w =
    if ltb (length passphrase) 8
    then (some passphrase_too_short, w, [])
    else if w.encrypted
    then (some already_encrypted, w, [])
    else (
      none,
      record w { encrypted = true; locked = true; passphrase = passphrase },
      encryption_state_changed ∷ [],
    )

-- `unlockWallet`
unfoldable pub unlock_wallet : List ℕ → Wallet → Answer
unlock_wallet passphrase w =
    if not w.encrypted
    then (some not_encrypted, w, [])
    else if not (bytes_eq passphrase w.passphrase)
    then (some incorrect_passphrase, w, [])
    else (none, record w { locked = false }, encryption_state_changed ∷ [])

-- The balances, confirmed and unconfirmed, after a row has become confirmed.
unfoldable pub settle_amount : ℤ → ℤ × ℤ → ℤ × ℤ
settle_amount amount (confirmed, unconfirmed) =
    if ltb_ℤ (pos 0) amount
    then (wrap64 (confirmed +ℤ amount), wrap64 (unconfirmed -ℤ amount))
    else (confirmed, unconfirmed)

unfoldable pub is_pending : Status → Bool
is_pending pending = true
is_pending confirmed_status = false

-- The body of the loop of `advanceConfirmations`: the row, the balances and `changed`.
unfoldable pub advance_row : TransactionRow → ℤ × ℤ → Bool → TransactionRow × (ℤ × ℤ) × Bool
advance_row row balances changed =
    let confirmations = row.confirmations + 1 in
    if ltb row.confirmations 6
    then if leb 2 confirmations && is_pending row.status
      then (
        record row { confirmations = confirmations; status = confirmed_status },
        settle_amount row.amount balances,
        true,
      )
      else (record row { confirmations = confirmations }, balances, true)
    else (row, balances, changed)

unfoldable pub advance_rows :
    List TransactionRow → ℤ × ℤ → Bool → List TransactionRow × (ℤ × ℤ) × Bool
advance_rows [] balances changed = ([], balances, changed)
advance_rows (row ∷ rows) balances changed =
    let (row', balances', changed') = advance_row row balances changed in
    let (rows', balances'', changed'') = advance_rows rows balances' changed' in
    (row' ∷ rows', balances'', changed'')

-- `advanceConfirmations`
unfoldable pub advance_confirmations : Wallet → Wallet × List Signal
advance_confirmations w =
    let (rows, (confirmed, unconfirmed), changed) =
      advance_rows w.txs (w.confirmed, w.unconfirmed) false in
    let settled = record w { confirmed = confirmed; unconfirmed = unconfirmed } in
    if changed
    then (record settled { txs = rows }, balance_signals confirmed unconfirmed)
    else (settled, [])

-- What the rest of the application and the timer do with the wallet.
pub data WalletCall : Type 0 where
  requests : ℕ → List ℕ → WalletCall
  credits : ℕ → ℤ → List ℕ → WalletCall
  spends : ℕ → List ℕ → ℤ → ℤ → WalletCall
  encrypts unlocks : List ℕ → WalletCall
  advances : WalletCall

unfoldable pub run_call : WalletCall → Wallet → Wallet
run_call (requests now label) w = (request_new_address now label w).1
run_call (credits now amount memo) w = (credit_simulated now amount memo w).0
run_call (spends now dest amount fee) w = (create_spend now dest amount fee w).1
run_call (encrypts passphrase) w = (encrypt_wallet passphrase w).1
run_call (unlocks passphrase) w = (unlock_wallet passphrase w).1
run_call advances w = (advance_confirmations w).0

unfoldable pub run_calls : List WalletCall → Wallet → Wallet
run_calls [] w = w
run_calls (call ∷ calls) w = run_calls calls (run_call call w)
