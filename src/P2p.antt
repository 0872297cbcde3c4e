-- ===== src/P2p.antt =====
-- layer2-services/net/p2p.cpp: the node, its queue and its worker thread. What the threads do is a
-- sequence of steps; a step that takes the mutex waits until the worker does not hold it. A handler is a
-- value of a type that is a parameter, and the calls of handlers are recorded. `Start` is one step, and the
-- memory order of the atomic flag is that of its default, sequential consistency.
pub mod Invariant
pub mod Wakeups
pub mod Stopping
pub mod Order
mod Tests
use drachma_block_chain.Common.{
  ℕ, List, [], ◌∷◌, ◌++◌, map, Bool, true, false, if◌then◌else◌, Option, none, some, ◌≡◌,
}
use drachma_block_chain.Common.Maps.{Map, find, has, assign, bytes_key}

pub record Message : Type 0 where
  pub command : List ℕ
  pub payload : List ℕ

pub record PeerInfo : Type 0 where
  pub id : List ℕ
  pub address : List ℕ

abbrev pub Item : Type 0
Item = PeerInfo × Message

-- How far a call of `Stop` is, if there is one: before it, between the exchange of the flag and the
-- locked block, and between that block and the return of `join`.
pub data Phase : Type 0 where
  idle flagged cleared : Phase

module _ (Handler : Type 0) where
  -- Where the worker thread is: there is none, it asks for the mutex, it has it and has seen `m_running`,
  -- it waits for a notification, it is about to use the handler that it looked up, it has returned.
  pub data Worker : Type 0 where
    absent locking tested waiting ended : Worker
    calling : Item → Option Handler → Worker

  pub record Node : Type 0 where
    pub peers : Map (List ℕ) PeerInfo
    pub handlers : Map (List ℕ) Handler
    pub queue : List Item
    pub running : Bool
    pub worker : Worker
    pub phase : Phase
    pub calls : List (Handler × Item)

  abbrev pub new_node : Node
  new_node = record {
    peers = [];
    handlers = [];
    queue = [];
    running = false;
    worker = absent;
    phase = idle;
    calls = [];
  }

  -- Whether the worker holds the mutex.
  unfoldable pub holds_mutex : Worker → Bool
  holds_mutex tested = true
  holds_mutex absent = false
  holds_mutex locking = false
  holds_mutex waiting = false
  holds_mutex ended = false
  holds_mutex (calling item handler) = false

  -- `m_cv.notify_all()`
  unfoldable pub notify : Worker → Worker
  notify waiting = locking
  notify absent = absent
  notify locking = locking
  notify tested = tested
  notify ended = ended
  notify (calling item handler) = calling item handler

  unfoldable pub joinable : Worker → Bool
  joinable absent = false
  joinable locking = true
  joinable tested = true
  joinable waiting = true
  joinable ended = true
  joinable (calling item handler) = true

  -- `RegisterHandler`
  unfoldable pub register_handler : List ℕ → Handler → Node → Node
  register_handler cmd h node = record node { handlers = assign bytes_key cmd h node.handlers }

  -- `AddPeer`
  unfoldable pub add_peer : PeerInfo → Node → Node
  add_peer peer node = record node { peers = assign bytes_key peer.id peer node.peers }

  -- `HasPeer`
  unfoldable pub has_peer : List ℕ → Node → Bool
  has_peer id node = has bytes_key id node.peers

  -- `Broadcast`
  unfoldable pub items_for : Message → Map (List ℕ) PeerInfo → List Item
  items_for msg [] = []
  items_for msg ((id, peer) ∷ peers) = (peer, msg) ∷ items_for msg peers

  unfoldable pub broadcast : Message → Node → Node
  broadcast msg node = record node {
    queue = node.queue ++ items_for msg node.peers;
    worker = notify node.worker;
  }

  -- `SendTo`
  unfoldable pub push_to : Option PeerInfo → Message → Node → Node
  push_to none msg node = node
  push_to (some peer) msg node = record node {
    queue = node.queue ++ (peer, msg) ∷ [];
    worker = notify node.worker;
  }

  unfoldable pub send_to : List ℕ → Message → Node → Node
  send_to peer_id msg node = push_to (find bytes_key peer_id node.peers) msg node

  -- `Start`: `none` is `std::terminate`, for a thread that is assigned over one that can be joined.
  unfoldable pub start : Node → Option Node
  start node =
      if node.running
      then some node
      else if joinable node.worker
      then none
      else some (record node { running = true; worker = locking })

  -- `Stop`, in three parts: the exchange, the locked block, and the return of `join`.
  unfoldable pub stop_flag : Node → Node
  stop_flag node = if node.running then record node { running = false; phase = flagged } else node

  unfoldable pub stop_clear : Node → Node
  stop_clear node = record node { queue = []; worker = notify node.worker; phase = cleared }

  unfoldable pub stop_join : Node → Node
  stop_join node = record node { worker = absent; phase = idle }

  -- `Process`: with the mutex, the test of `m_running`.
  unfoldable pub test_running : Node → Node
  test_running node = record node { worker = if node.running then tested else ended }

  -- The body of its loop, up to the release of the mutex.
  unfoldable pub take_item : List Item → Node → Node
  take_item [] node = record node { worker = waiting }
  take_item (item ∷ rest) node = record node {
    queue = rest;
    worker = calling item (find bytes_key item.1.command node.handlers);
  }

  -- The call of the handler, if one was found.
  unfoldable pub call_handler : Item → Option Handler → Node → Node
  call_handler item none node = record node { worker = locking }
  call_handler item (some h) node = record node {
    worker = locking;
    calls = node.calls ++ (h, item) ∷ [];
  }

  -- What any thread may do next.
  pub data Step : Node → Node → Type 0 where
    registers :
        (cmd : List ℕ) (h : Handler) (n : Node)
        → holds_mutex n.worker ≡ false
        → Step n (register_handler cmd h n)
    adds : (peer : PeerInfo) (n : Node) → holds_mutex n.worker ≡ false → Step n (add_peer peer n)
    broadcasts :
        (msg : Message) (n : Node) → holds_mutex n.worker ≡ false → Step n (broadcast msg n)
    sends :
        (id : List ℕ) (msg : Message) (n : Node)
        → holds_mutex n.worker ≡ false
        → Step n (send_to id msg n)
    starts : (n n' : Node) → start n ≡ some n' → Step n n'
    flags : (n : Node) → Step n (stop_flag n)
    clears : (n : Node) → n.phase ≡ flagged → holds_mutex n.worker ≡ false → Step n (stop_clear n)
    joins : (n : Node) → n.phase ≡ cleared → n.worker ≡ ended → Step n (stop_join n)
    tests : (n : Node) → n.worker ≡ locking → Step n (test_running n)
    takes : (n : Node) → n.worker ≡ tested → Step n (take_item n.queue n)
    calls :
        (n : Node) (item : Item) (h : Option Handler)
        → n.worker ≡ calling item h
        → Step n (call_handler item h n)
    wakes : (n : Node) → n.worker ≡ waiting → Step n (record n { worker = locking })

  pub data Reachable : Node → Type 0 where
    created : Reachable new_node
    after : (n n' : Node) → Reachable n → Step n n' → Reachable n'
