-- ===== src/Consensus/VersionBits/Tests.antt =====
-- Runs of layer1-core/consensus/versioning/versionbits.cpp, and its theorems at concrete deployments.
use drachma_block_chain.Common.{
  ℕ, arith, division_by_zero, ◌≤◌, ◌≡◌, refl, [], ◌∷◌, false, ok, err, bit_out_of_range,
}
use drachma_block_chain.Common.Int.{pos, negsuc, ◌≤ℤ◌, ◌+ℤ◌, half, to_int32}
use drachma_block_chain.Consensus.Params.{VbDeployment, Params, main_params}
use drachma_block_chain.Consensus.VersionBits.{
  defined, started, locked_in, active, failed, BlockVersionSample, in_period, count_signals,
  last_height, version_bits_state, version_bits_signal, version_bits_mask, to_u32,
  compute_block_version, add_deployments, add_deployment, median_time, middle, sort_times, times,
  insert_time, next_state, run_periods, rounds, times_int,
}
use drachma_block_chain.Consensus.VersionBits.State.{active_needs_signals, minus_one_timeout_fails}

abbrev upgrade : VbDeployment
upgrade = record { bit = pos 3; start_time = pos 100; timeout = pos 1000 }

abbrev disabled : VbDeployment
disabled = record { bit = pos 28; start_time = negsuc 0; timeout = negsuc 0 }

-- A window of two blocks, both of which have to signal.
abbrev two_blocks : Params
two_blocks = record {
  subsidy_halving_interval = 210000;
  pow_target_spacing = 60;
  pow_target_timespan = 3600;
  difficulty_adjustment_interval = 60;
  max_money_out = 4200000000000000;
  pow_allow_min_difficulty_blocks = false;
  genesis_time = 0;
  genesis_bits = 0;
  genesis_nonce = 0;
  genesis_message = [];
  rule_change_activation_threshold = 2;
  miner_confirmation_window = 2;
  deployments = [];
}

abbrev signalled : ℕ → BlockVersionSample
signalled h = record { height = pos h; time = pos 200; version = pos 8 }

runs_to_active :
    version_bits_state two_blocks upgrade
      (signalled 0 ∷ signalled 1 ∷ signalled 2 ∷ signalled 3 ∷ [])
    ≡ ok active
unfolding version_bits_state run_periods next_state in_period count_signals version_bits_signal
    version_bits_mask to_u32 median_time middle sort_times times insert_time last_height rounds
    times_int to_int32 half ◌+ℤ◌
runs_to_active = refl

version_out_of_range :
    compute_block_version main_params
      (record { bit = pos 29; start_time = pos 0; timeout = pos 9 } ∷ [])
      (pos 1)
    ≡ err bit_out_of_range
unfolding compute_block_version add_deployments add_deployment version_bits_mask
version_out_of_range = refl

version_run : compute_block_version main_params (upgrade ∷ disabled ∷ []) (pos 500) ≡ ok 0x30000008
unfolding compute_block_version add_deployments add_deployment version_bits_mask
version_run = refl

active_needs_signals_example :
    (pos 4 ≤ℤ (last_height (signalled 0) (signalled 1 ∷ signalled 2 ∷ signalled 3 ∷ []) +ℤ pos 1))
    × ((p n : ℕ) × (count_signals upgrade
            (in_period (pos 2) p (signalled 0 ∷ signalled 1 ∷ signalled 2 ∷ signalled 3 ∷ []))
          ≡ ok n)
        × (2 ≤ n))
active_needs_signals_example =
    active_needs_signals two_blocks upgrade (signalled 0)
      (signalled 1 ∷ signalled 2 ∷ signalled 3 ∷ []) (omega arith) (omega arith) (omega arith)
      runs_to_active

minus_one_timeout_fails_example :
    version_bits_state main_params disabled (signalled 5 ∷ []) ≡ ok failed
unfolding last_height
minus_one_timeout_fails_example =
    minus_one_timeout_fails main_params disabled (signalled 5) [] (omega arith) (omega arith) refl
      (tt, tt) tt

-- A window that is negative as an `int`, of -5: from height 4 on the loop does not run.
negative_window :
    version_bits_state
      (record main_params { miner_confirmation_window = 0xfffffffb })
      disabled
      (signalled 5 ∷ [])
    ≡ ok defined
unfolding version_bits_state run_periods last_height rounds to_int32 ◌+ℤ◌
negative_window = refl

no_window :
    version_bits_state
      (record main_params { miner_confirmation_window = 0 })
      disabled
      (signalled 5 ∷ [])
    ≡ err division_by_zero
unfolding version_bits_state to_int32
no_window = refl

-- A threshold that is negative as an `int` needs no signals.
negative_threshold : next_state upgrade (to_int32 0x80000000) [] (pos 500) started ≡ ok locked_in
unfolding next_state count_signals to_int32
negative_threshold = refl
