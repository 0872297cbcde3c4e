-- ===== src/P2p/Stopping.antt =====
-- A call of `Stop` of layer2-services/net/p2p.cpp comes to its end.
use drachma_block_chain.Common.{
  List, [], ◌∷◌, Bool, true, false, if◌then◌else◌, Option, none, some, ◌≡◌, refl, ◌∙◌, ◌⊎◌, inl,
  inr,
}
use drachma_block_chain.P2p.{
  Item, Worker, absent, locking, tested, waiting, ended, calling, idle, flagged, cleared, Node,
  holds_mutex, stop_clear, stop_join, test_running, take_item, call_handler, Step, clears, joins,
  tests, takes, calls, Reachable,
}
use drachma_block_chain.P2p.Invariant.{fits, IsSound, Step-IsSound, Reachable-IsSound, join_fits}

module _ {Handler : Type 0} where
  -- The steps of the worker and of a call of `Stop` after the exchange of the flag, without those of other
  -- threads, and without a wake-up for which nobody has notified.
  pub data OwnStep : Node Handler → Node Handler → Type 0 where
    stop_clears :
        (n : Node Handler)
        → n.phase ≡ flagged
        → holds_mutex Handler n.worker ≡ false
        → OwnStep n (stop_clear Handler n)
    stop_joins :
        (n : Node Handler) → n.phase ≡ cleared → n.worker ≡ ended → OwnStep n (stop_join Handler n)
    worker_tests : (n : Node Handler) → n.worker ≡ locking → OwnStep n (test_running Handler n)
    worker_takes : (n : Node Handler) → n.worker ≡ tested → OwnStep n (take_item Handler n.queue n)
    worker_calls :
        (n : Node Handler) (item : Item) (h : Option Handler)
        → n.worker ≡ calling item h
        → OwnStep n (call_handler Handler item h n)

  OwnStep-Step : {n m : Node Handler} → OwnStep n m → Step Handler n m
  OwnStep-Step (stop_clears n p free) = clears n p free
  OwnStep-Step (stop_joins n p e) = joins n p e
  OwnStep-Step (worker_tests n e) = tests n e
  OwnStep-Step (worker_takes n e) = takes n e
  OwnStep-Step (worker_calls n item h e) = calls n item h e

  infixr 5 ◌then◌
  pub data Steps : Node Handler → Node Handler → Type 0 where
    done : {n : Node Handler} → Steps n n
    ◌then◌ : {n m k : Node Handler} → OwnStep n m → Steps m k → Steps n k

  -- Such steps lead to a state in which the worker is gone and no call of `Stop` is left.
  abbrev pub Finishes : Node Handler → Type 0
  Finishes n =
      (n' : Node Handler) × Steps n n'
      × (n'.phase ≡ idle)
      × (n'.worker ≡ absent)
      × (n'.running ≡ false)

  by_step : {n m : Node Handler} → OwnStep n m → Finishes m → Finishes n
  by_step s (n', steps, p, w, off) = (n', s then steps, p, w, off)

  ended-Finishes :
      (n : Node Handler) → n.running ≡ false → n.phase ≡ cleared → n.worker ≡ ended → Finishes n
  unfolding stop_join
  ended-Finishes n off p e = (stop_join Handler n, stop_joins n p e then done, refl, refl, off)

  locking-Finishes :
      (n : Node Handler) → n.running ≡ false → n.phase ≡ cleared → n.worker ≡ locking → Finishes n
  unfolding test_running
  locking-Finishes n off p e =
      by_step (worker_tests n e) (ended-Finishes (test_running Handler n) off p (rw off))

  calling-Finishes :
      (n : Node Handler) (item : Item) (o : Option Handler)
      → n.running ≡ false
      → n.phase ≡ cleared
      → n.worker ≡ calling item o
      → Finishes n
  unfolding call_handler
  calling-Finishes n item none off p e =
      by_step (worker_calls n item none e)
        (locking-Finishes (call_handler Handler item none n) off p refl)
  calling-Finishes n item (some h) off p e =
      by_step (worker_calls n item (some h) e)
        (locking-Finishes (call_handler Handler item (some h) n) off p refl)

  unfit :
      (n : Node Handler) (r : Bool)
      → (fits {Handler = Handler} r cleared absent ≡ false)
        × (fits {Handler = Handler} r cleared tested ≡ false)
        × (fits {Handler = Handler} r cleared waiting ≡ false)
  unfolding fits
  unfit n true = (refl, refl, refl)
  unfit n false = (refl, refl, refl)

  cleared-Finishes :
      (n : Node Handler) (w : Worker Handler)
      → n.worker ≡ w
      → n.phase ≡ cleared
      → fits n.running cleared w ≡ true
      → Finishes n
  cleared-Finishes n locking e p h = locking-Finishes n (join_fits n.running locking h) p e
  cleared-Finishes n ended e p h = ended-Finishes n (join_fits n.running ended h) p e
  cleared-Finishes n (calling item o) e p h =
      calling-Finishes n item o (join_fits n.running (calling item o) h) p e
  cleared-Finishes n absent e p h = absurd (cc (unfit n n.running).0)
  cleared-Finishes n tested e p h = absurd (cc (unfit n n.running).1)
  cleared-Finishes n waiting e p h = absurd (cc (unfit n n.running).2)

  -- With the mutex free, Stop goes on.
  free-Finishes :
      (n : Node Handler)
      → IsSound n
      → n.phase ≡ flagged
      → holds_mutex Handler n.worker ≡ false
      → Finishes n
  free-Finishes n sound p free =
      let s = stop_clears n p free in
      by_step s (after_clear n (Step-IsSound (OwnStep-Step s) sound))
    where
      after_clear :
          (n : Node Handler) → IsSound (stop_clear Handler n) → Finishes (stop_clear Handler n)
      after_clear n sound =
          unfold stop_clear in
          cleared-Finishes (stop_clear Handler n) (stop_clear Handler n).worker refl refl sound.0

  taken_free :
      (queue : List Item) (n : Node Handler)
      → (holds_mutex Handler (take_item Handler queue n).worker ≡ false)
        × ((take_item Handler queue n).phase ≡ n.phase)
  unfolding take_item holds_mutex
  taken_free [] n = (refl, refl)
  taken_free (item ∷ rest) n = (refl, refl)

  flagged-Finishes :
      (n : Node Handler) (w : Worker Handler)
      → n.worker ≡ w
      → IsSound n
      → n.phase ≡ flagged
      → Finishes n
  flagged-Finishes n tested e sound p =
      let s = worker_takes n e in
      let (free, same) = taken_free n.queue n in
      by_step s (
        free-Finishes (take_item Handler n.queue n) (Step-IsSound (OwnStep-Step s) sound) (same ∙ p)
          free)
  flagged-Finishes n absent e sound p = free-Finishes n sound p (unfold holds_mutex in rw e)
  flagged-Finishes n locking e sound p = free-Finishes n sound p (unfold holds_mutex in rw e)
  flagged-Finishes n waiting e sound p = free-Finishes n sound p (unfold holds_mutex in rw e)
  flagged-Finishes n ended e sound p = free-Finishes n sound p (unfold holds_mutex in rw e)
  flagged-Finishes n (calling item o) e sound p =
      free-Finishes n sound p (unfold holds_mutex in rw e)

  -- Stop can always return: from every state that the threads can reach in which a call of Stop has reset
  -- m_running, the worker's own steps and those of Stop alone lead to its return, with the worker gone and
  -- m_running false. No spurious wake-up is among them: a worker that waits goes on because Stop notifies
  -- it. A handler that is called has to return.
  pub stop_returns :
      (n : Node Handler)
      → Reachable Handler n
      → (n.phase ≡ flagged) ⊎ (n.phase ≡ cleared)
      → Finishes n
  stop_returns n r (inl p) = flagged-Finishes n n.worker refl (Reachable-IsSound r) p
  stop_returns n r (inr p) = cleared-Finishes n n.worker refl p (rw p at (Reachable-IsSound r).0)
