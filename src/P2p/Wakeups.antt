-- ===== src/P2p/Wakeups.antt =====
-- `Process` of layer2-services/net/p2p.cpp against the operations that notify it.
use drachma_block_chain.Common.{[], Bool, true, false, ◌≡◌, refl, inl, inr, ◌⊎◌}
use drachma_block_chain.P2p.{Worker, waiting, Phase, idle, flagged, cleared, Node, Reachable}
use drachma_block_chain.P2p.Invariant.{fits, EmptyWhen, Reachable-IsSound}

module _ {Handler : Type 0} where
  waits :
      (r : Bool) (p : Phase) (w : Worker Handler)
      → w ≡ waiting
      → fits r p w ≡ true
      → ((r ≡ true) × (p ≡ idle)) ⊎ ((r ≡ false) × (p ≡ flagged))
  unfolding fits
  waits true idle w e h = inl (refl, refl)
  waits true flagged w e h = absurd (cc)
  waits true cleared w e h = absurd (cc)
  waits false flagged w e h = inr (refl, refl)
  waits false idle w e h = absurd (cc (rw e at h))
  waits false cleared w e h = absurd (cc (rw e at h))

  -- No notification is lost: in every state that the threads can reach, a worker that waits has nothing
  -- in its queue, and if m_running is false, the call of Stop that reset it has yet to take the mutex
  -- and notify.
  pub no_lost_wakeup :
      (n : Node Handler)
      → Reachable Handler n
      → n.worker ≡ waiting
      → (n.queue ≡ []) × (n.running ≡ false → n.phase ≡ flagged)
  no_lost_wakeup n r e =
      let (fit, empty) = Reachable-IsSound r in
      (
        unfold EmptyWhen in rw e at empty,
        elim (waits n.running n.phase n.worker e fit) [
          | inl (on, at_rest) ↦ λ off. absurd (cc)
          | inr (off, flag) ↦ λ off'. flag
        ],
      )
