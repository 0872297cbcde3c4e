-- ===== src/Desktop/Window/Tests.antt =====
-- Runs of the slots of the window of layer3-app/qt/main.cpp.
use drachma_block_chain.Common.{
  ℕ, ◌+◌, ◌*◌, ◌/◌, ◌^◌, ltb, ◌≡◌, refl, ap, List, [], ◌∷◌, Bool, true, ◌&&◌, if◌then◌else◌, Option,
  none, some, bytes_eq, codes,
}
use drachma_block_chain.Common.Int.{ℤ, pos, negsuc, ◌+ℤ◌}
use drachma_block_chain.Common.Maps.{
  Map, bytes_key, find, assign, find-assign, find-assign_other, same-false_flip,
}
use drachma_block_chain.Desktop.{Doubles, decimal_ℤ}
use drachma_block_chain.Common.Digits.{decimal, digits, digit_char}
use drachma_block_chain.Desktop.Node.{
  NodeConfig, NodeProcess, new_node_process, starts, ticks, start_node, tick, run_call, run_calls,
  call, answer_call, answered, refused, next_peers, int_of_bits,
}
use drachma_block_chain.Desktop.Window.{
  Settings, seed_wallet, fee_of, send_result, queued, confirm_and_send, save_settings,
  load_settings,
}
use drachma_block_chain.Desktop.Wallet
use drachma_block_chain.Desktop.Wallet.{
  Wallet, new_wallet, create_spend, queue_spend, advance_confirmations, advance_rows, advance_row,
  balance_signals, credit_simulated, request_new_address, advances, spends,
}
use drachma_block_chain.Desktop.Window.Delivery.{
  window_call, window_call_returns, perform, deliver, transactions, shown, emits_locked,
  never_returns,
}
use drachma_block_chain.Desktop.Window.Saved.{saved_settings_apply}

-- Fixed-point numbers that are not negative, in place of `double`.
abbrev natural : ℤ → ℕ
natural (pos n) = n
natural (negsuc n) = 0

abbrev fixed_point : Doubles
fixed_point = record {
  Double = ℕ;
  literal = λ n digits. n * 10 ^ 8 / 10 ^ digits;
  from_int = λ n. natural n * 10 ^ 8;
  plus = ◌+◌;
  times = λ a b. a * b / 10 ^ 8;
  less = ltb;
  truncate = λ a. pos (a / 10 ^ 8);
}

-- `QSettings` as two maps.
abbrev or_default {ℓ} : {A : Type ℓ} → A → Option A → A
or_default d none = d
or_default d (some a) = a

abbrev map_settings : Settings
map_settings = record {
  Store = Map (List ℕ) (List ℕ) × Map (List ℕ) Bool;
  value = λ key d s. or_default d (find bytes_key key s.0);
  set_value = λ key text s. (assign bytes_key key text s.0, s.1);
  flag = λ key d s. or_default d (find bytes_key key s.1);
  set_flag = λ key b s. (s.0, assign bytes_key key b s.1);
  value-set_value = λ key text d s. ap (or_default d) (find-assign bytes_key key text s.0);
  value-set_other = λ key other text d s differ.
      ap (or_default d) (
        find-assign_other bytes_key other key text s.0
          (same-false_flip bytes_key key other differ));
}

abbrev test_fields : NodeConfig
test_fields = record {
  data_dir = codes "/var";
  network = codes "mainnet";
  rpc_user = codes "alice";
  rpc_pass = codes "secret";
}

abbrev empty_store : Map (List ℕ) (List ℕ) × Map (List ℕ) Bool
empty_store = ([], [])

-- A node that has run on other credentials for two ticks.
abbrev ran_before : NodeProcess fixed_point
ran_before =
    run_calls fixed_point
      (starts (record test_fields { rpc_user = codes "bob" }) ∷ ticks 2 ∷ ticks 5 ∷ [])
      (new_node_process fixed_point)

height_test : ran_before.height ≡ 2
unfolding run_calls run_call start_node tick
height_test = refl

peers_test : ran_before.peer_count ≡ 2
unfolding run_calls run_call start_node tick next_peers
peers_test = refl

info_test :
    call fixed_point (codes "bob") (codes "secret") (codes "getblockchaininfo") [] ran_before
    ≡ answered (codes "height=2 peers=2")
unfolding run_calls run_call start_node tick next_peers call answer_call int_of_bits decimal
    decimal_ℤ digits digit_char bytes_eq
info_test = refl

saved_settings_apply_example :
    let (store', node') =
      save_settings map_settings fixed_point test_fields (empty_store, ran_before) in
    (load_settings map_settings (codes "/home") store' test_fields ≡ test_fields)
    × (node' ≡ record (new_node_process fixed_point) { running = true; config = test_fields })
    × ((user pass method params : List ℕ)
        → call fixed_point user pass method params node' ≡ (
            if bytes_eq user (codes "alice") && bytes_eq pass (codes "secret")
            then answer_call fixed_point method node'
            else refused (codes "Unauthorized")))
unfolding bytes_eq
saved_settings_apply_example =
    saved_settings_apply fixed_point map_settings test_fields test_fields empty_store ran_before
      (codes "/home") refl

-- A middle fee, and an amount that the wallet has.
send_test :
    (confirm_and_send fixed_point 9
      (codes "drm_1_0")
      (3 * 10 ^ 8)
      (pos 1)
      true
      (record new_wallet { confirmed = pos 400000000 })).0
    ≡ queued
unfolding confirm_and_send create_spend queue_spend fee_of ◌+ℤ◌ send_result
send_test = refl

-- The wallet as the window seeds it: its first round of confirmations does not return.
abbrev seeded : Wallet
seeded = seed_wallet 5 new_wallet

first_timer_hangs : window_call advances (seeded, seeded.txs) ≡ none
unfolding window_call perform advance_confirmations advance_rows advance_row balance_signals deliver
    transactions shown emits_locked seed_wallet credit_simulated request_new_address
first_timer_hangs = refl

window_call_returns_example :
    window_call (spends 6 (codes "drm_1_0") (pos 5) (pos 1)) (seeded, seeded.txs)
    ≡ some (
      Wallet.run_call (spends 6 (codes "drm_1_0") (pos 5) (pos 1)) seeded,
      (Wallet.run_call (spends 6 (codes "drm_1_0") (pos 5) (pos 1)) seeded).txs,
    )
unfolding never_returns
window_call_returns_example =
    window_call_returns seeded (spends 6 (codes "drm_1_0") (pos 5) (pos 1))
