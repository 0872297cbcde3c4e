-- ===== src/Desktop/Window/Saved.antt =====
-- The settings of layer3-app/qt/main.cpp: what is saved is loaded again, and the node runs on it.
use drachma_block_chain.Common.{
  ℕ, ◌≡◌, refl, sym, ap, ◌∙◌, List, Bool, true, false, not, ◌||◌, if◌then◌else◌, Bool-cases,
  if_true, if_false, ◌&&◌, inl, inr, bytes_eq, codes,
}
use mathlib.Core.Path.{subst}
use drachma_block_chain.Desktop.{Doubles}
use drachma_block_chain.Desktop.Node.{
  NodeConfig, NodeProcess, NodeSignal, new_node_process, RpcResult, refused, start_node, stop_node,
  call, answer_call,
}
use drachma_block_chain.Desktop.Window.{
  Settings, set_current_text, start_node_from_settings, store_fields, save_settings, load_settings,
}

-- A network that the box has among its items.
abbrev pub IsListed : List ℕ → Type 0
IsListed network = (bytes_eq network (codes "mainnet") || bytes_eq network (codes "testnet")) ≡ true

NodeConfig-ext :
    {a b : NodeConfig}
    → a.data_dir ≡ b.data_dir
    → a.network ≡ b.network
    → a.rpc_user ≡ b.rpc_user
    → a.rpc_pass ≡ b.rpc_pass
    → a ≡ b
NodeConfig-ext d n u p i = record { data_dir = d i; network = n i; rpc_user = u i; rpc_pass = p i }

kept : (text current : List ℕ) → IsListed text → set_current_text text current ≡ text
unfolding set_current_text
kept text current listed = rw listed

module _ (settings : Settings) (fields : NodeConfig) (store : settings.Store) where
  stored_dir :
      (default : List ℕ)
      → settings.value (codes "dataDir") default (store_fields settings fields store)
        ≡ fields.data_dir
  unfolding store_fields bytes_eq
  stored_dir default =
      settings.value-set_other _ _ _ default _ refl
      ∙ settings.value-set_other _ _ _ default _ refl
      ∙ settings.value-set_other _ _ _ default _ refl
      ∙ settings.value-set_value _ _ default _

  stored_network :
      (default : List ℕ)
      → settings.value (codes "network") default (store_fields settings fields store)
        ≡ fields.network
  unfolding store_fields bytes_eq
  stored_network default =
      settings.value-set_other _ _ _ default _ refl
      ∙ settings.value-set_other _ _ _ default _ refl
      ∙ settings.value-set_value _ _ default _

  stored_user :
      (default : List ℕ)
      → settings.value (codes "rpcUser") default (store_fields settings fields store)
        ≡ fields.rpc_user
  unfolding store_fields bytes_eq
  stored_user default =
      settings.value-set_other _ _ _ default _ refl ∙ settings.value-set_value _ _ default _

  stored_pass :
      (default : List ℕ)
      → settings.value (codes "rpcPass") default (store_fields settings fields store)
        ≡ fields.rpc_pass
  unfolding store_fields
  stored_pass default = settings.value-set_value _ _ default _

  loaded :
      (default_dir : List ℕ) (shown : NodeConfig)
      → IsListed fields.network
      → load_settings settings default_dir (store_fields settings fields store) shown ≡ fields
  unfolding load_settings
  loaded default_dir shown listed =
      NodeConfig-ext (stored_dir default_dir)
        (ap (λ n. set_current_text n shown.network) (stored_network (codes "testnet"))
          ∙ kept fields.network shown.network listed)
        (stored_user (codes "user")) (stored_pass (codes "pass"))

either_wrong :
    (a b : Bool) (x y : RpcResult) → (if not a || not b then x else y) ≡ (if a && b then y else x)
either_wrong true true x y = refl
either_wrong true false x y = refl
either_wrong false b x y = refl

module _ (doubles : Doubles) where
  stopped_after : (node : NodeProcess doubles) → (stop_node doubles node).0.running ≡ false
  unfolding stop_node
  stopped_after node = elim (Bool-cases node.running) [
    | inl on ↦
        ap (λ (r : NodeProcess doubles × List (NodeSignal doubles)). r.0.running)
          (if_true node.running _ _ on)
    | inr off ↦
        ap (λ (r : NodeProcess doubles × List (NodeSignal doubles)). r.0.running)
          (if_false node.running _ _ off)
        ∙ off
  ]

  fresh_start :
      (fields : NodeConfig) (node : NodeProcess doubles)
      → node.running ≡ false
      → (start_node doubles fields node).0
        ≡ record (new_node_process doubles) { running = true; config = fields }
  unfolding start_node
  fresh_start fields node off =
      ap (λ (r : NodeProcess doubles × List (NodeSignal doubles)). r.0)
        (if_false node.running _ _ off)

  pub restarted :
      (fields : NodeConfig) (node : NodeProcess doubles)
      → start_node_from_settings doubles fields node
        ≡ record (new_node_process doubles) { running = true; config = fields }
  unfolding start_node_from_settings
  restarted fields node = fresh_start fields _ (off_before node.running refl)
    where
      off_before :
          (b : Bool)
          → node.running ≡ b
          → (if b then (stop_node doubles node).0 else node).running ≡ false
      off_before true e = stopped_after node
      off_before false e = e

  authorised :
      (user pass method params : List ℕ) (fields : NodeConfig)
      → let node = record (new_node_process doubles) { running = true; config = fields } in
        call doubles user pass method params node ≡ (
          if bytes_eq user fields.rpc_user && bytes_eq pass fields.rpc_pass
          then answer_call doubles method node
          else refused (codes "Unauthorized"))
  unfolding call
  authorised user pass method params fields =
      either_wrong (bytes_eq user fields.rpc_user) (bytes_eq pass fields.rpc_pass) _ _

  -- After the settings have been saved, whatever ran before: loading them shows the fields that were
  -- saved, the node runs from the start, and it answers the calls that carry the user and the password
  -- of those fields and refuses all others. The network of the fields is one that the box lists.
  pub saved_settings_apply :
      (settings : Settings) (fields shown : NodeConfig) (store : settings.Store)
      (node : NodeProcess doubles) (default_dir : List ℕ)
      → IsListed fields.network
      → let (store', node') = save_settings settings doubles fields (store, node) in
        (load_settings settings default_dir store' shown ≡ fields)
        × (node' ≡ record (new_node_process doubles) { running = true; config = fields })
        × ((user pass method params : List ℕ)
            → call doubles user pass method params node' ≡ (
                if bytes_eq user fields.rpc_user && bytes_eq pass fields.rpc_pass
                then answer_call doubles method node'
                else refused (codes "Unauthorized")))
  unfolding save_settings
  saved_settings_apply settings fields shown store node default_dir listed = (
    loaded settings fields store default_dir shown listed,
    restarted fields node,
    λ user pass method params.
        subst
          (λ n. call doubles user pass method params n ≡ (
            if bytes_eq user fields.rpc_user && bytes_eq pass fields.rpc_pass
            then answer_call doubles method n
            else refused (codes "Unauthorized")))
          (sym (restarted fields node)) (authorised user pass method params fields),
  )
