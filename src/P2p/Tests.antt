-- ===== src/P2p/Tests.antt =====
-- A run of layer2-services/net/p2p.cpp: a peer, a handler and a message, with a stop behind them. A handler
-- is a number.
use drachma_block_chain.Common.{
  bytes_eq, ℕ, [], ◌∷◌, ◌++◌, true, false, some, ◌≡◌, refl, inl, codes,
}
use drachma_block_chain.Common.Maps.{find, assign}
use drachma_block_chain.P2p.{
  PeerInfo, Message, Node, new_node, waiting, tested, locking, flagged, Reachable, created, after,
  register_handler, add_peer, broadcast, items_for, joinable, start, stop_flag, test_running,
  holds_mutex, notify, registers, adds, broadcasts, take_item, call_handler, starts, flags, tests,
  takes, calling,
}
use drachma_block_chain.P2p.Wakeups.{no_lost_wakeup}
use drachma_block_chain.P2p.Order.{pushed, removed, handled_in_order}
use drachma_block_chain.P2p.Order.Steps.{pushes, items, handled, pending}
use drachma_block_chain.P2p.Stopping.{Finishes, stop_returns}

abbrev peer : PeerInfo
peer = record { id = codes "a"; address = codes "10.0.0.1" }

abbrev ping : Message
ping = record { command = codes "ping"; payload = 1 ∷ [] }

abbrev node_1 : Node ℕ
node_1 = register_handler ℕ (codes "ping") 7 (new_node ℕ)

abbrev node_2 : Node ℕ
node_2 = broadcast ℕ ping (add_peer ℕ peer node_1)

abbrev node_3 : Node ℕ
node_3 = record node_2 { running = true; worker = locking }

abbrev node_4 : Node ℕ
node_4 = let n = test_running ℕ node_3 in take_item ℕ n.queue n

message_handled : (call_handler ℕ (peer, ping) (some 7) node_4).calls ≡ (7, (peer, ping)) ∷ []
unfolding call_handler take_item test_running broadcast add_peer register_handler items_for assign
message_handled = refl

handler_found : node_4.worker ≡ calling (peer, ping) (some 7)
unfolding take_item test_running broadcast add_peer register_handler items_for assign find bytes_eq
handler_found = refl

-- The node waits, and is then stopped.
abbrev waiting_node : Node ℕ
waiting_node = record (new_node ℕ) { running = true; worker = waiting }

abbrev stopped_node : Node ℕ
stopped_node = record waiting_node { running = false; phase = flagged }

waiting_reached : Reachable ℕ waiting_node
unfolding start joinable test_running take_item
waiting_reached =
    after _ _
      (after _ _
        (after _ _ created
          (starts (new_node ℕ) (record (new_node ℕ) { running = true; worker = locking }) refl))
        (tests (record (new_node ℕ) { running = true; worker = locking }) refl))
      (takes (record (new_node ℕ) { running = true; worker = tested }) refl)

stopped_reached : Reachable ℕ stopped_node
unfolding stop_flag
stopped_reached = after waiting_node stopped_node waiting_reached (flags waiting_node)

no_lost_wakeup_example :
    (stopped_node.queue ≡ []) × (stopped_node.running ≡ false → stopped_node.phase ≡ flagged)
no_lost_wakeup_example = no_lost_wakeup stopped_node stopped_reached refl

stop_returns_example : Finishes stopped_node
stop_returns_example = stop_returns stopped_node stopped_reached (inl refl)

-- The node has taken the first of two pings for its peer, and is about to call the handler for it.
abbrev busy_node : Node ℕ
busy_node = record node_2 {
  queue = (peer, ping) ∷ [];
  running = true;
  worker = calling (peer, ping) (some 7);
}

busy_reached : Reachable ℕ busy_node
unfolding register_handler add_peer broadcast items_for start joinable test_running take_item assign
    find bytes_eq notify holds_mutex
busy_reached =
    after _ _
      (after _ _
        (after _ _
          (after _ _
            (after _ _
              (after _ _ (after _ _ created (registers (codes "ping") 7 (new_node ℕ) refl))
                (adds peer node_1 refl))
              (broadcasts ping (add_peer ℕ peer node_1) refl))
            (broadcasts ping node_2 refl))
          (starts (broadcast ℕ ping node_2)
            (record (broadcast ℕ ping node_2) { running = true; worker = locking }) refl))
        (tests (record (broadcast ℕ ping node_2) { running = true; worker = locking }) refl))
      (takes (record (broadcast ℕ ping node_2) { running = true; worker = tested }) refl)

handled_in_order_example :
    (pushed ℕ busy_reached ≡ items ℕ (removed ℕ busy_reached) ++ (peer, ping) ∷ [])
    × ([] ++ pending ℕ busy_node.worker ≡ handled ℕ (removed ℕ busy_reached))
unfolding broadcast add_peer register_handler
handled_in_order_example = handled_in_order busy_node busy_reached

pushed_twice : pushed ℕ busy_reached ≡ (peer, ping) ∷ (peer, ping) ∷ []
unfolding pushed pushes busy_reached items_for add_peer register_handler broadcast assign
pushed_twice = refl
