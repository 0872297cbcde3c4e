-- ===== src/Desktop/Window.antt =====
-- The slots of `MainWindow` of layer3-app/qt/main.cpp that do more than draw. The fields of a form and
-- the answers of the dialogs are arguments; the texts that the dialogs show are left out, but for the
-- error of a refused operation. `QSettings` is an interface.
pub mod Saved
pub mod Startup
pub mod Delivery
mod Tests
use drachma_block_chain.Common.{
  ℕ, ◌≡◌, List, [], ◌∷◌, Bool, true, false, ◌&&◌, ◌||◌, not, if◌then◌else◌, Option, none, some,
  bytes_eq, codes,
}
use drachma_block_chain.Common.Int.{ℤ, pos, eq_ℤ}
use drachma_block_chain.Desktop.{Doubles}
use drachma_block_chain.Desktop.Node.{NodeConfig, NodeProcess, start_node, stop_node}
use drachma_block_chain.Desktop.Wallet.{
  Wallet, WalletError, create_spend, encrypt_wallet, unlock_wallet, credit_simulated,
  request_new_address,
}

-- What the window uses of `QSettings`: `value` of a text and of a flag take the default where the key has
-- no value, and a value that has been set is found again.
pub record Settings : Type 1 where
  pub Store : Type 0
  pub value : List ℕ → List ℕ → Store → List ℕ
  pub set_value : List ℕ → List ℕ → Store → Store
  pub flag : List ℕ → Bool → Store → Bool
  pub set_flag : List ℕ → Bool → Store → Store
  pub value-set_value :
      (key text default : List ℕ) (s : Store) → value key default (set_value key text s) ≡ text
  pub value-set_other :
      (key other text default : List ℕ) (s : Store)
      → bytes_eq key other ≡ false
      → value key default (set_value other text s) ≡ value key default s

-- `setCurrentText` of the network box, whose items are the two networks.
unfoldable pub set_current_text : List ℕ → List ℕ → List ℕ
set_current_text text current =
    if bytes_eq text (codes "mainnet") || bytes_eq text (codes "testnet") then text else current

-- The fee for the entry of the fee box.
unfoldable pub fee_of : ℤ → ℤ
fee_of index =
    if eq_ℤ index (pos 0)
    then pos 10000
    else if eq_ℤ index (pos 1)
    then pos 100000
    else if eq_ℤ index (pos 2)
    then pos 1000000
    else pos 0

pub data SendResult : Type 0 where
  destination_required not_confirmed queued : SendResult
  send_refused : WalletError → SendResult

unfoldable pub send_result : Option WalletError → SendResult
send_result none = queued
send_result (some e) = send_refused e

-- `confirmAndSend`, for the trimmed destination, the amount, the entry of the fee box and the answer to
-- the question.
unfoldable pub confirm_and_send :
    (doubles : Doubles) → ℕ → List ℕ → doubles.Double → ℤ → Bool → Wallet → SendResult × Wallet
confirm_and_send doubles now [] amount_d fee_index confirmed wallet = (destination_required, wallet)
confirm_and_send doubles now (c ∷ cs) amount_d fee_index confirmed wallet =
    let amount = doubles.truncate (doubles.times amount_d (doubles.literal 1000000000 1)) in
    let (err, wallet', signals) = create_spend now (c ∷ cs) amount (fee_of fee_index) wallet in
    if not confirmed then (not_confirmed, wallet) else (send_result err, wallet')

-- What a dialog that asks for a passphrase ends with.
pub data PassphraseResult : Type 0 where
  cancelled accepted : PassphraseResult
  passphrase_refused : WalletError → PassphraseResult

unfoldable pub passphrase_result : Option WalletError → PassphraseResult
passphrase_result none = accepted
passphrase_result (some e) = passphrase_refused e

-- The slot `encryptWallet`; `none` is a cancelled dialog.
unfoldable pub ask_encrypt : Option (List ℕ) → Wallet → PassphraseResult × Wallet
ask_encrypt none wallet = (cancelled, wallet)
ask_encrypt (some pass) wallet =
    let (err, wallet', signals) = encrypt_wallet pass wallet in (passphrase_result err, wallet')

-- The slot `unlockWallet`
unfoldable pub ask_unlock : Option (List ℕ) → Wallet → PassphraseResult × Wallet
ask_unlock none wallet = (cancelled, wallet)
ask_unlock (some pass) wallet =
    let (err, wallet', signals) = unlock_wallet pass wallet in (passphrase_result err, wallet')

-- `updateEncryptionState`: whether the buttons for encrypting and for unlocking are enabled.
unfoldable pub update_encryption_state : Wallet → Bool × Bool
update_encryption_state wallet = (not wallet.encrypted, wallet.encrypted)

-- `seedWallet`
unfoldable pub seed_wallet : ℕ → Wallet → Wallet
seed_wallet now wallet =
    let (credited, signals) = credit_simulated now (pos 2500000000) (codes "initial-aid") wallet in
    (request_new_address now (codes "default") credited).1

-- `selectDataDir`: an empty answer is a cancelled dialog.
unfoldable pub select_data_dir : List ℕ → NodeConfig → NodeConfig
select_data_dir [] fields = fields
select_data_dir (c ∷ cs) fields = record fields { data_dir = c ∷ cs }

-- `startNodeFromSettings`, on the fields of the settings tab.
unfoldable pub start_node_from_settings :
    (doubles : Doubles) → NodeConfig → NodeProcess doubles → NodeProcess doubles
start_node_from_settings doubles fields node =
    let stopped = (stop_node doubles node).0 in
    (start_node doubles fields (if node.running then stopped else node)).0

module _ (settings : Settings) where
  -- `enforceEula`, where the dialog was accepted or not and its box checked or not: the settings, and
  -- whether the window closes.
  unfoldable pub enforce_eula : Bool → Bool → settings.Store → settings.Store × Bool
  enforce_eula executed checked store =
      if settings.flag (codes "eulaAccepted") false store
      then (store, false)
      else if executed && checked
      then (settings.set_flag (codes "eulaAccepted") true store, false)
      else (store, true)

  unfoldable pub store_fields : NodeConfig → settings.Store → settings.Store
  store_fields fields store = settings.set_value (codes "rpcPass") fields.rpc_pass (
      settings.set_value (codes "rpcUser") fields.rpc_user (
        settings.set_value (codes "network") fields.network
          (settings.set_value (codes "dataDir") fields.data_dir store)))

  -- `saveSettings`
  unfoldable pub save_settings :
      (doubles : Doubles)
      → NodeConfig
      → settings.Store × NodeProcess doubles
      → settings.Store × NodeProcess doubles
  save_settings doubles fields (store, node) =
      (store_fields fields store, start_node_from_settings doubles fields node)

  -- `loadSettings`, for the default directory, the settings and the fields before it.
  unfoldable pub load_settings : List ℕ → settings.Store → NodeConfig → NodeConfig
  load_settings default_dir store fields = record {
    data_dir = settings.value (codes "dataDir") default_dir store;
    network =
        set_current_text (settings.value (codes "network") (codes "testnet") store) fields.network;
    rpc_user = settings.value (codes "rpcUser") (codes "user") store;
    rpc_pass = settings.value (codes "rpcPass") (codes "pass") store;
  }
