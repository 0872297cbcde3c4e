-- ===== src/Consensus/Tests.antt =====
-- Runs of layer1-core/consensus/params.cpp, and its theorems at a number of blocks.
use drachma_block_chain.Common.{◌+◌, ◌*◌, ◌≤◌, ◌≡◌, refl, true}
use drachma_block_chain.Common.Int.{pos, negsuc}
use drachma_block_chain.Consensus.Params.{
  coin, main_params, get_block_subsidy, get_max_money, money_range,
}
use drachma_block_chain.Consensus.Supply.{total_subsidy, main_supply}

subsidy_halved : get_block_subsidy (pos 420000) main_params ≡ 1250000000
unfolding get_block_subsidy
subsidy_halved = refl

subsidy_before_genesis : get_block_subsidy (negsuc 0) main_params ≡ 0
unfolding get_block_subsidy
subsidy_before_genesis = refl

main_supply_example :
    (total_subsidy 800000 main_params ≤ 21000000 * coin)
    × (money_range (total_subsidy 800000 main_params) main_params ≡ true)
    × (total_subsidy 800000 main_params + 21000000 * coin ≤ get_max_money main_params)
main_supply_example = main_supply 800000
