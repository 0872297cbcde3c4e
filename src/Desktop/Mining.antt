-- ===== src/Desktop/Mining.antt =====
-- `MiningManager` of layer3-app/qt/main.cpp. The node is `none` where the manager has none.
use drachma_block_chain.Common.{
  List, [], ◌∷◌, Bool, true, false, not, if◌then◌else◌, Option, none, some,
}
use drachma_block_chain.Common.Int.{ℤ, pos}
use drachma_block_chain.Desktop.{Doubles}
use drachma_block_chain.Desktop.Node.{NodeProcess}

module _ (doubles : Doubles) where
  pub record Mining : Type 0 where
    pub running : Bool
    pub last_hashrate : doubles.Double
    pub threads : ℤ
    pub gpu_enabled : Bool

  pub data MiningSignal : Type 0 where
    mining_started mining_stopped : MiningSignal
    hashrate_updated : doubles.Double → MiningSignal

  abbrev pub new_mining : Mining
  new_mining = record {
    running = false;
    last_hashrate = doubles.literal 0 1;
    threads = pos 1;
    gpu_enabled = false;
  }

  -- `start`
  unfoldable pub start_mining : ℤ → Bool → Mining → Mining × List MiningSignal
  start_mining threads gpu m =
      if m.running
      then (record m { threads = threads; gpu_enabled = gpu }, [])
      else (record m { running = true; threads = threads; gpu_enabled = gpu }, mining_started ∷ [])

  -- `stop`
  unfoldable pub stop_mining : Mining → Mining × List MiningSignal
  stop_mining m = if m.running then (record m { running = false }, mining_stopped ∷ []) else (m, [])

  unfoldable pub base_rate : Option (NodeProcess doubles) → doubles.Double
  base_rate none = doubles.literal 0 1
  base_rate (some node) = if node.running then doubles.literal 150 1 else doubles.literal 50 1

  -- `updateRate`
  unfoldable pub update_rate : Option (NodeProcess doubles) → Mining → Mining × List MiningSignal
  update_rate node m =
      let simulated =
        doubles.plus
          (doubles.plus (base_rate node)
            (doubles.times (doubles.from_int m.threads) (doubles.literal 125 1)))
          (if m.gpu_enabled then doubles.literal 1500 1 else doubles.literal 0 1) in
      if not m.running
      then (m, [])
      else (record m { last_hashrate = simulated }, hashrate_updated simulated ∷ [])
