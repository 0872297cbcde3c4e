-- ===== src/Desktop/Node.antt =====
-- `NodeProcessController` of layer3-app/qt/main.cpp. The height is kept as the bits of its `int`.
use drachma_block_chain.Common.{
  ℕ, ◌+◌, ◌-◌, ◌%◌, ◌^◌, List, [], ◌∷◌, ◌++◌, Bool, true, false, ltb, not, ◌||◌, if◌then◌else◌,
  bytes_eq, codes,
}
use drachma_block_chain.Common.Int.{ℤ, pos, negsuc, negate, ◌-ℤ◌}
use drachma_block_chain.Desktop.{Doubles, decimal_ℤ}
use drachma_block_chain.Common.Digits.{decimal}

pub record NodeConfig : Type 0 where
  pub data_dir : List ℕ
  pub network : List ℕ
  pub rpc_user : List ℕ
  pub rpc_pass : List ℕ

-- `RpcResult`: the answer, or the error where `ok` is not set.
pub data RpcResult : Type 0 where
  answered refused : List ℕ → RpcResult

-- An `int` from its bits, and the `%` of C++ on it.
unfoldable pub int_of_bits : ℕ → ℤ
int_of_bits n = if ltb n (2 ^ 31) then pos n else pos n -ℤ pos (2 ^ 32)

unfoldable pub remainder : ℤ → ℕ → ℤ
remainder (pos n) m = pos (n % m)
remainder (negsuc n) m = negate (pos ((n + 1) % m))

-- `qBound(0, peers + (random % 3 - 1), 16)`: the subtraction stops at the lower bound.
unfoldable pub next_peers : ℕ → ℕ → ℕ
next_peers random peers = let next = peers + random % 3 - 1 in if ltb 16 next then 16 else next

module _ (doubles : Doubles) where
  pub record NodeProcess : Type 0 where
    pub running : Bool
    pub height : ℕ
    pub sync_progress : doubles.Double
    pub peer_count : ℕ
    pub network_hashrate : doubles.Double
    pub config : NodeConfig

  pub data NodeSignal : Type 0 where
    node_started node_stopped : NodeSignal
    node_status_changed : ℤ → doubles.Double → ℕ → doubles.Double → NodeSignal

  -- The members before the first start
  abbrev pub new_node_process : NodeProcess
  new_node_process = record {
    running = false;
    height = 0;
    sync_progress = doubles.literal 0 1;
    peer_count = 0;
    network_hashrate = doubles.literal 0 1;
    config = record { data_dir = []; network = []; rpc_user = []; rpc_pass = [] };
  }

  -- `startNode`, which sets the configuration whether or not the node is running.
  unfoldable pub start_node : NodeConfig → NodeProcess → NodeProcess × List NodeSignal
  start_node config node = if node.running then (record node { config = config }, []) else (
    record {
      running = true;
      height = 0;
      sync_progress = doubles.literal 0 1;
      peer_count = 0;
      network_hashrate = doubles.literal 0 1;
      config = config;
    },
    node_started ∷ [],
  )

  -- `stopNode`
  unfoldable pub stop_node : NodeProcess → NodeProcess × List NodeSignal
  stop_node node =
      if node.running then (record node { running = false }, node_stopped ∷ []) else (node, [])

  -- The answers of `call` to an authorised caller.
  unfoldable pub answer_call : List ℕ → NodeProcess → RpcResult
  answer_call method node =
      if bytes_eq method (codes "ping")
      then answered (codes "pong")
      else if bytes_eq method (codes "getblockchaininfo")
      then answered (
          codes "height="
          ++ (decimal_ℤ (int_of_bits node.height) ++ (codes " peers=" ++ decimal node.peer_count)))
      else refused (codes "Unknown method " ++ method)

  -- `call`, which makes no use of the parameters.
  unfoldable pub call : List ℕ → List ℕ → List ℕ → List ℕ → NodeProcess → RpcResult
  call user pass method params node =
      if not node.running
      then refused (codes "Node offline")
      else if not (bytes_eq user node.config.rpc_user) || not (bytes_eq pass node.config.rpc_pass)
      then refused (codes "Unauthorized")
      else answer_call method node

  -- `std::min`
  unfoldable pub min_double : doubles.Double → doubles.Double → doubles.Double
  min_double a b = if doubles.less b a then b else a

  -- `tick`, where `rand` gives `random`.
  unfoldable pub tick : ℕ → NodeProcess → NodeProcess × List NodeSignal
  tick random node =
      let height = (node.height + 1) % 2 ^ 32 in
      let progress =
        min_double (doubles.literal 10 1) (doubles.plus node.sync_progress (doubles.literal 1 2)) in
      let peers = next_peers random node.peer_count in
      let hashrate = doubles.plus (doubles.literal 750 1) (
        doubles.times (doubles.from_int (remainder (int_of_bits height) 30))
          (doubles.literal 25 1)) in
      let ticked = record node {
        height = height;
        sync_progress = progress;
        peer_count = peers;
        network_hashrate = hashrate;
      } in
      if not node.running
      then (node, [])
      else (ticked, node_status_changed (int_of_bits height) progress peers hashrate ∷ [])

  -- What the window and the timer do with the node.
  pub data NodeCall : Type 0 where
    starts : NodeConfig → NodeCall
    stops : NodeCall
    ticks : ℕ → NodeCall

  unfoldable pub run_call : NodeCall → NodeProcess → NodeProcess
  run_call (starts config) node = (start_node config node).0
  run_call stops node = (stop_node node).0
  run_call (ticks random) node = (tick random node).0

  unfoldable pub run_calls : List NodeCall → NodeProcess → NodeProcess
  run_calls [] node = node
  run_calls (call ∷ calls) node = run_calls calls (run_call call node)
