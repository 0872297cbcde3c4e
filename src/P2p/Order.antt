-- ===== src/P2p/Order.antt =====
-- The queue of layer2-services/net/p2p.cpp: what becomes of the items that are pushed.
pub mod Steps
use drachma_block_chain.Common.{
  ℕ, List, [], ◌∷◌, ◌++◌, append-nil, append_assoc, Bool, true, false, Option, none, some, ◌≡◌,
  refl, sym, ap, ◌∙◌, if_cases, inl, inr, if◌then◌else◌,
}
use mathlib.Core.Path.{subst}
use drachma_block_chain.Common.Maps.{Map, find, bytes_key}
use drachma_block_chain.P2p.Invariant.{started, not_joinable}
use drachma_block_chain.P2p.{
  Item, Message, PeerInfo, Worker, absent, locking, tested, waiting, ended, calling, Node, flagged,
  items_for, notify, joinable, register_handler, add_peer, broadcast, push_to, send_to, start,
  stop_flag, stop_clear, stop_join, test_running, take_item, call_handler, Step, registers, adds,
  broadcasts, sends, starts, flags, clears, joins, tests, takes, calls, wakes, Reachable, created,
  after,
}
use drachma_block_chain.P2p.Order.Steps.{
  Fate, taken, dropped, item_of, items, pushes, removes, call_of, handled, pending, Step-Keeps,
}

module _ (Handler : Type 0) where
  -- What a run from the start has pushed, and what has left the queue.
  unfoldable pub pushed : {n : Node Handler} → Reachable Handler n → List Item
  pushed created = []
  pushed (after n n' r s) = pushed r ++ pushes Handler s

  unfoldable pub removed : {n : Node Handler} → Reachable Handler n → List (Fate Handler)
  removed created = []
  removed (after n n' r s) = removed r ++ removes Handler s

module _ {Handler : Type 0} where
  items-append :
      (fs gs : List (Fate Handler))
      → items Handler (fs ++ gs) ≡ items Handler fs ++ items Handler gs
  unfolding items
  items-append [] gs = refl
  items-append (f ∷ fs) gs = ap (λ q. item_of Handler f ∷ q) (items-append fs gs)

  handled-append :
      (fs gs : List (Fate Handler))
      → handled Handler (fs ++ gs) ≡ handled Handler fs ++ handled Handler gs
  unfolding handled
  handled-append [] gs = refl
  handled-append (taken item h ∷ fs) gs =
      ap (λ q. call_of Handler item h ++ q) (handled-append fs gs)
      ∙ sym (append_assoc (call_of Handler item h) (handled Handler fs) (handled Handler gs))
  handled-append (dropped item ∷ fs) gs = handled-append fs gs

  -- In every state that the threads can reach, the items that were pushed are, in the order in which they
  -- were pushed, those that left the queue and then those that are in it; and the calls of handlers, with
  -- the one that the worker is about to make, are those of the items that were taken and not dropped by
  -- Stop, in that order and each once, with the handler that was registered for the command when the item
  -- was taken.
  pub handled_in_order :
      (n : Node Handler) (r : Reachable Handler n)
      → (pushed Handler r ≡ items Handler (removed Handler r) ++ n.queue)
        × (n.calls ++ pending Handler n.worker ≡ handled Handler (removed Handler r))
  unfolding pushed removed items handled pending
  handled_in_order n created = (refl, refl)
  handled_in_order n (after m k r s) =
      let (q, c) = handled_in_order m r in
      let (q', c') = Step-Keeps s in
      let gone = removed Handler r in
      let leaving = removes Handler s in
      (
        ap (λ xs. xs ++ pushes Handler s) q
            ∙ append_assoc (items Handler gone) m.queue (pushes Handler s)
            ∙ ap (λ xs. items Handler gone ++ xs) q'
            ∙ sym (append_assoc (items Handler gone) (items Handler leaving) n.queue)
            ∙ ap (λ xs. xs ++ n.queue) (sym (items-append gone leaving)),
        c' ∙ ap (λ xs. xs ++ handled Handler leaving) c ∙ sym (handled-append gone leaving),
      )
