-- ===== src/P2p/Invariant.antt =====
-- Where the worker and a call of `Stop` of layer2-services/net/p2p.cpp can be at the same time: an
-- invariant of every step.
use drachma_block_chain.Common.{
  List, [], ◌∷◌, ◌++◌, Bool, true, false, if◌then◌else◌, Option, none, some, ◌≡◌, refl, Bool-cases,
  inl, inr, ◌⊎◌,
}
use mathlib.Core.Path.{subst}
use mathlib.Core.Option.{some-injective}
use drachma_block_chain.Common.Maps.{find, bytes_key}
use drachma_block_chain.P2p.{
  Item, Message, PeerInfo, Worker, absent, locking, tested, waiting, ended, calling, Phase, idle,
  flagged, cleared, Node, items_for, holds_mutex, notify, joinable, register_handler, add_peer,
  broadcast, push_to, send_to, start, stop_flag, stop_clear, stop_join, test_running, take_item,
  call_handler, Step, registers, adds, broadcasts, sends, starts, flags, clears, joins, tests,
  takes, calls, wakes, Reachable, created, after,
}

abbrev no_item : Item
no_item = (record { id = []; address = [] }, record { command = []; payload = [] })

module _ {Handler : Type 0} where
  -- Where the worker can be, by the flag and by how far `Stop` is.
  unfoldable pub fits : Bool → Phase → Worker Handler → Bool
  fits true idle locking = true
  fits true idle tested = true
  fits true idle waiting = true
  fits true idle (calling item h) = true
  fits false idle absent = true
  fits false flagged absent = false
  fits false flagged w = true
  fits false cleared locking = true
  fits false cleared ended = true
  fits false cleared (calling item h) = true
  fits _ _ _ = false

  unfoldable pub EmptyWhen : Worker Handler → List Item → Type 0
  EmptyWhen waiting queue = queue ≡ []
  EmptyWhen _ queue = Unit {0}

  abbrev pub IsSound : Node Handler → Type 0
  IsSound n = (fits n.running n.phase n.worker ≡ true) × EmptyWhen n.worker n.queue

  notify-fits :
      (r : Bool) (p : Phase) (w : Worker Handler)
      → fits r p w ≡ true
      → fits r p (notify Handler w) ≡ true
  unfolding fits notify
  notify-fits true idle waiting h = refl
  notify-fits true flagged waiting h = absurd (cc)
  notify-fits true cleared waiting h = absurd (cc)
  notify-fits false idle waiting h = absurd (cc)
  notify-fits false flagged waiting h = refl
  notify-fits false cleared waiting h = refl
  notify-fits r p absent h = h
  notify-fits r p locking h = h
  notify-fits r p tested h = h
  notify-fits r p ended h = h
  notify-fits r p (calling item handler) h = h

  notified : (w : Worker Handler) (queue : List Item) → EmptyWhen (notify Handler w) queue
  unfolding EmptyWhen notify
  notified waiting queue = tt
  notified absent queue = tt
  notified locking queue = tt
  notified tested queue = tt
  notified ended queue = tt
  notified (calling item handler) queue = tt

  push_to-IsSound :
      (o : Option PeerInfo) (msg : Message) (n : Node Handler)
      → IsSound n
      → IsSound (push_to Handler o msg n)
  unfolding push_to
  push_to-IsSound none msg n h = h
  push_to-IsSound (some peer) msg n h =
      (notify-fits n.running n.phase n.worker h.0, notified n.worker (n.queue ++ (peer, msg) ∷ []))

  -- The flag is taken back: what fitted before it fits a call of `Stop`.
  flag_fits : (p : Phase) (w : Worker Handler) → fits true p w ≡ true → fits false flagged w ≡ true
  unfolding fits
  flag_fits idle absent h = absurd (cc)
  flag_fits idle locking h = refl
  flag_fits idle tested h = refl
  flag_fits idle waiting h = refl
  flag_fits idle ended h = absurd (cc)
  flag_fits idle (calling item handler) h = refl
  flag_fits flagged w h = absurd (cc)
  flag_fits cleared w h = absurd (cc)

  clear_fits :
      (r : Bool) (w : Worker Handler)
      → fits r flagged w ≡ true
      → holds_mutex Handler w ≡ false
      → fits r cleared (notify Handler w) ≡ true
  unfolding fits notify holds_mutex
  clear_fits true w h free = absurd (cc)
  clear_fits false absent h free = absurd (cc)
  clear_fits false locking h free = refl
  clear_fits false tested h free = absurd (cc)
  clear_fits false waiting h free = refl
  clear_fits false ended h free = refl
  clear_fits false (calling item handler) h free = refl

  pub not_joinable : (w : Worker Handler) → joinable Handler w ≡ false → w ≡ absent
  unfolding joinable
  not_joinable absent j = refl
  not_joinable locking j = absurd (cc)
  not_joinable tested j = absurd (cc)
  not_joinable waiting j = absurd (cc)
  not_joinable ended j = absurd (cc)
  not_joinable (calling item handler) j = absurd (cc)

  absent_fits :
      (r : Bool) (p : Phase) (w : Worker Handler) → w ≡ absent → fits r p w ≡ true → p ≡ idle
  unfolding fits
  absent_fits r idle w e h = refl
  absent_fits true flagged w e h = absurd (cc)
  absent_fits true cleared w e h = absurd (cc)
  absent_fits false flagged w e h = absurd (cc (rw e at h))
  absent_fits false cleared w e h = absurd (cc (rw e at h))

  pub started :
      (r j : Bool) (n on n' : Node Handler)
      → (if r then some n else if j then none else some on) ≡ some n'
      → (n ≡ n') ⊎ ((r ≡ false) × (j ≡ false) × (on ≡ n'))
  started true j n on n' e = inl (some-injective n n' e)
  started false true n on n' e = absurd (cc)
  started false false n on n' e = inr (refl, refl, some-injective on n' e)

  start-IsSound : (n n' : Node Handler) → start Handler n ≡ some n' → IsSound n → IsSound n'
  unfolding start
  start-IsSound n n' e h =
      elim (started n.running (joinable Handler n.worker) n
        (record n { running = true; worker = locking }) n' e) [
          | inl same ↦ subst IsSound same h
          | inr (off, gone, on) ↦ subst IsSound on (
            rw (absent_fits n.running n.phase n.worker (not_joinable n.worker gone) h.0)
                (unfold fits in refl),
            unfold EmptyWhen in tt,
          )
        ]

  flag-IsSound : (n : Node Handler) → IsSound n → IsSound (stop_flag Handler n)
  unfolding stop_flag
  flag-IsSound n h = elim (Bool-cases n.running) [
    | inl on ↦ rw on (flag_fits n.phase n.worker (rw on at h.0), h.1)
    | inr off ↦ rw off (rw off at h.0, h.1)
  ]

  tested_fits :
      (r : Bool) (p : Phase) (w : Worker Handler)
      → w ≡ locking
      → fits r p w ≡ true
      → fits r p (if r then tested else ended) ≡ true
  unfolding fits
  tested_fits true idle w e h = refl
  tested_fits true flagged w e h = absurd (cc)
  tested_fits true cleared w e h = absurd (cc)
  tested_fits false idle w e h = absurd (cc (rw e at h))
  tested_fits false flagged w e h = refl
  tested_fits false cleared w e h = refl

  -- After the test of the flag the worker waits, or calls a handler, and goes for the mutex again.
  taken_fits :
      (r : Bool) (p : Phase) (item : Item) (o : Option Handler)
      → fits r p tested ≡ true
      → (fits r p waiting ≡ true) × (fits r p (calling item o) ≡ true)
  unfolding fits
  taken_fits true idle item o h = (refl, refl)
  taken_fits true flagged item o h = absurd (cc)
  taken_fits true cleared item o h = absurd (cc)
  taken_fits false idle item o h = absurd (cc)
  taken_fits false flagged item o h = (refl, refl)
  taken_fits false cleared item o h = absurd (cc)

  called_fits :
      (r : Bool) (p : Phase) (item : Item) (o : Option Handler)
      → fits r p (calling item o) ≡ true
      → fits r p locking ≡ true
  unfolding fits
  called_fits true idle item o h = refl
  called_fits true flagged item o h = h
  called_fits true cleared item o h = h
  called_fits false idle item o h = h
  called_fits false flagged item o h = refl
  called_fits false cleared item o h = refl

  tested_empty : (r : Bool) (n : Node Handler) → EmptyWhen (if r then tested else ended) n.queue
  unfolding EmptyWhen
  tested_empty true n = tt
  tested_empty false n = tt

  take_item-IsSound :
      (queue : List Item) (n : Node Handler)
      → n.queue ≡ queue
      → fits n.running n.phase tested ≡ true
      → IsSound (take_item Handler queue n)
  unfolding take_item EmptyWhen
  take_item-IsSound [] n e h = ((taken_fits n.running n.phase no_item none h).0, e)
  take_item-IsSound (item ∷ rest) n e h = ((taken_fits n.running n.phase item _ h).1, tt)

  call_handler-IsSound :
      (item : Item) (o : Option Handler) (n : Node Handler)
      → fits n.running n.phase (calling item o) ≡ true
      → IsSound (call_handler Handler item o n)
  unfolding call_handler EmptyWhen
  call_handler-IsSound item none n h = (called_fits n.running n.phase item none h, tt)
  call_handler-IsSound item (some handler) n h =
      (called_fits n.running n.phase item (some handler) h, tt)

  pub join_fits : (r : Bool) (w : Worker Handler) → fits r cleared w ≡ true → r ≡ false
  unfolding fits
  join_fits true w h = absurd (cc)
  join_fits false w h = refl

  pub Step-IsSound : {n n' : Node Handler} → Step Handler n n' → IsSound n → IsSound n'
  Step-IsSound (registers cmd h n free) s = unfold register_handler in s
  Step-IsSound (adds peer n free) s = unfold add_peer in s
  Step-IsSound (broadcasts msg n free) s =
      unfold broadcast in
      (
        notify-fits n.running n.phase n.worker s.0,
        notified n.worker (n.queue ++ items_for Handler msg n.peers),
      )
  Step-IsSound (sends id msg n free) s =
      unfold send_to in push_to-IsSound (find bytes_key id n.peers) msg n s
  Step-IsSound (starts n n' e) s = start-IsSound n n' e s
  Step-IsSound (flags n) s = flag-IsSound n s
  Step-IsSound (clears n flag free) s =
      unfold stop_clear in
      (clear_fits n.running n.worker (rw flag at s.0) free, notified n.worker [])
  Step-IsSound (joins n done e) s =
      unfold stop_join in
      (
        rw (join_fits n.running n.worker (rw done at s.0)) (unfold fits in refl),
        unfold EmptyWhen in tt,
      )
  Step-IsSound (tests n e) s =
      unfold test_running in
      (tested_fits n.running n.phase n.worker e s.0, tested_empty n.running n)
  Step-IsSound (takes n e) s = take_item-IsSound n.queue n refl (rw e at s.0)
  Step-IsSound (calls n item h e) s = call_handler-IsSound item h n (rw e at s.0)
  Step-IsSound (wakes n e) s =
      (unfold notify in notify-fits n.running n.phase waiting (rw e at s.0), unfold EmptyWhen in tt)

  pub Reachable-IsSound : {n : Node Handler} → Reachable Handler n → IsSound n
  Reachable-IsSound created = (unfold fits in refl, unfold EmptyWhen in tt)
  Reachable-IsSound (after n n' r s) = Step-IsSound s (Reachable-IsSound r)
