-- ===== src/Desktop/Window/Startup.antt =====
-- The constructor and the destructor of `MainWindow` of layer3-app/qt/main.cpp, below its widgets.
use drachma_block_chain.Common.{
  ℕ, ◌≡◌, refl, ap, ◌∙◌, if_false, List, [], Bool, true, false, ◌&&◌, codes,
}
use drachma_block_chain.Common.Int.{pos, ◌+ℤ◌, wrap64}
use drachma_block_chain.Desktop.{Doubles}
use drachma_block_chain.Desktop.Node.{NodeConfig, NodeProcess, new_node_process, stop_node}
use drachma_block_chain.Desktop.Mining.{Mining, new_mining, stop_mining}
use drachma_block_chain.Desktop.Wallet.{Wallet, new_wallet, credit_simulated, request_new_address}
use drachma_block_chain.Desktop.Window.{
  Settings, enforce_eula, load_settings, start_node_from_settings, seed_wallet,
}
use drachma_block_chain.Desktop.Window.Saved.{restarted}

module _ (settings : Settings) (doubles : Doubles) where
  -- `closing` is set where `close` has been scheduled.
  pub record MainWindow : Type 0 where
    pub store : settings.Store
    pub fields : NodeConfig
    pub wallet : Wallet
    pub node : NodeProcess doubles
    pub miner : Mining doubles
    pub closing : Bool

  -- The constructor, for the default directory, the time and what the dialog of the EULA ends with. The
  -- fields are empty at first, and the box shows its first network.
  unfoldable pub open_window : List ℕ → ℕ → Bool → Bool → settings.Store → MainWindow
  open_window default_dir now executed checked store =
      let blank : NodeConfig = record {
        data_dir = [];
        network = codes "mainnet";
        rpc_user = [];
        rpc_pass = [];
      } in
      let fields = load_settings settings default_dir store blank in
      let (store', closing) = enforce_eula settings executed checked store in
      record {
        store = store';
        fields = fields;
        wallet = seed_wallet now new_wallet;
        node = start_node_from_settings doubles fields (new_node_process doubles);
        miner = new_mining doubles;
        closing = closing;
      }

  -- The destructor
  unfoldable pub close_window : MainWindow → MainWindow
  close_window w = record w {
    miner = (stop_mining doubles w.miner).0;
    node = (stop_node doubles w.node).0;
  }

  closes :
      (executed checked : Bool) (store : settings.Store)
      → settings.flag (codes "eulaAccepted") false store ≡ false
      → (executed && checked) ≡ false
      → (enforce_eula settings executed checked store).1 ≡ true
  unfolding enforce_eula
  closes executed checked store new refused =
      ap (λ (r : settings.Store × Bool). r.1)
        (if_false (settings.flag (codes "eulaAccepted") false store) _ _ new
          ∙ if_false (executed && checked) _ _ refused)

  -- A user who refuses the EULA at the first start still has a running node: the window is scheduled to
  -- close, but the node has been started on the settings that were loaded, and the wallet holds its first
  -- credit of 25 coins.
  pub refused_eula_still_starts :
      (default_dir : List ℕ) (now : ℕ) (executed checked : Bool) (store : settings.Store)
      → settings.flag (codes "eulaAccepted") false store ≡ false
      → (executed && checked) ≡ false
      → let w = open_window default_dir now executed checked store in
        (w.closing ≡ true)
        × (w.node ≡ record (new_node_process doubles) { running = true; config = w.fields })
        × (w.wallet.unconfirmed ≡ pos 2500000000)
  unfolding open_window seed_wallet credit_simulated request_new_address ◌+ℤ◌ wrap64
  refused_eula_still_starts default_dir now executed checked store new refused = (
    closes executed checked store new refused,
    restarted doubles _ (new_node_process doubles),
    refl,
  )
