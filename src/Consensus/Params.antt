-- ===== src/Consensus/Params.antt =====
-- layer1-core/consensus/params.h and params.cpp.
use drachma_block_chain.Common.{
  ℕ, ◌*◌, ◌/◌, ◌^◌, List, [], ◌∷◌, Bool, true, false, leb, if◌then◌else◌, codes,
}
use drachma_block_chain.Common.Int.{ℤ, pos, negsuc}

pub record VbDeployment : Type 0 where
  pub bit : ℤ
  pub start_time : ℤ
  pub timeout : ℤ

-- The array of deployments, one for each `DeploymentPos`, is a list.
pub record Params : Type 0 where
  pub subsidy_halving_interval : ℕ
  pub pow_target_spacing : ℕ
  pub pow_target_timespan : ℕ
  pub difficulty_adjustment_interval : ℕ
  pub max_money_out : ℕ
  pub pow_allow_min_difficulty_blocks : Bool
  pub genesis_time : ℕ
  pub genesis_bits : ℕ
  pub genesis_nonce : ℕ
  pub genesis_message : List ℕ
  pub rule_change_activation_threshold : ℕ
  pub miner_confirmation_window : ℕ
  pub deployments : List VbDeployment

abbrev pub coin : ℕ
coin = 100000000

abbrev pub default_window : ℕ
default_window = 2016

abbrev pub default_threshold : ℕ
default_threshold = default_window * 95 / 100

abbrev pub main_params : Params
main_params = record {
  subsidy_halving_interval = 210000;
  pow_target_spacing = 60;
  pow_target_timespan = 3600;
  difficulty_adjustment_interval = 60;
  max_money_out = 42000000 * coin;
  pow_allow_min_difficulty_blocks = false;
  genesis_time = 1735689600;
  genesis_bits = 0x1e0fffff;
  genesis_nonce = 0;
  genesis_message = codes "DRACHMA: Proof before trust";
  rule_change_activation_threshold = default_threshold;
  miner_confirmation_window = default_window;
  deployments = record { bit = pos 28; start_time = negsuc 0; timeout = negsuc 0 } ∷ [];
}

abbrev pub test_params : Params
test_params = record {
  subsidy_halving_interval = 210000;
  pow_target_spacing = 60;
  pow_target_timespan = 3600;
  difficulty_adjustment_interval = 60;
  max_money_out = 42000000 * coin;
  pow_allow_min_difficulty_blocks = true;
  genesis_time = 1735689600;
  genesis_bits = 0x1f00ffff;
  genesis_nonce = 0;
  genesis_message = codes "DRACHMA TESTNET";
  rule_change_activation_threshold = default_threshold;
  miner_confirmation_window = default_window;
  deployments = record { bit = pos 28; start_time = negsuc 0; timeout = negsuc 0 } ∷ [];
}

-- `GetBlockSubsidy`. A halving interval that is positive and fits an `int` divides as in ℕ; with any other
-- the source divides by zero or shifts by a negative number, which is undefined, or answers the same.
unfoldable pub get_block_subsidy : ℤ → Params → ℕ
get_block_subsidy (negsuc h) params = 0
get_block_subsidy (pos h) params =
    let halvings = h / params.subsidy_halving_interval in
    if leb 64 halvings then 0 else 50 * coin / 2 ^ halvings

unfoldable pub get_max_money : Params → ℕ
get_max_money params = params.max_money_out

unfoldable pub money_range : ℕ → Params → Bool
money_range amount params = leb amount params.max_money_out
