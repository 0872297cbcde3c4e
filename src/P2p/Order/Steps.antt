-- ===== src/P2p/Order/Steps.antt =====
-- The queue of layer2-services/net/p2p.cpp: what each step pushes, removes and calls.
use drachma_block_chain.Common.{
  ℕ, List, [], ◌∷◌, ◌++◌, append-nil, Bool, true, false, Option, none, some, ◌≡◌, refl, sym, ap,
  ◌∙◌, if_cases, inl, inr, if◌then◌else◌,
}
use mathlib.Core.Path.{subst}
use drachma_block_chain.Common.Maps.{Map, find, bytes_key}
use drachma_block_chain.P2p.Invariant.{started, not_joinable}
use drachma_block_chain.P2p.{
  Item, Message, PeerInfo, Worker, absent, locking, tested, waiting, ended, calling, Node, flagged,
  items_for, notify, joinable, register_handler, add_peer, broadcast, push_to, send_to, start,
  stop_flag, stop_clear, stop_join, test_running, take_item, call_handler, Step, registers, adds,
  broadcasts, sends, starts, flags, clears, joins, tests, takes, calls, wakes,
}

module _ (Handler : Type 0) where
  -- How an item leaves the queue: with what is registered for its command, or because the node stops.
  pub data Fate : Type 0 where
    taken : Item → Option Handler → Fate
    dropped : Item → Fate

  unfoldable pub item_of : Fate → Item
  item_of (taken item h) = item
  item_of (dropped item) = item

  unfoldable pub items : List Fate → List Item
  items [] = []
  items (f ∷ fs) = item_of f ∷ items fs

  unfoldable pub to_peer : Option PeerInfo → Message → List Item
  to_peer none msg = []
  to_peer (some peer) msg = (peer, msg) ∷ []

  -- What a step pushes on the queue, and what it removes.
  unfoldable pub pushes : {n n' : Node Handler} → Step Handler n n' → List Item
  pushes (broadcasts msg n free) = items_for Handler msg n.peers
  pushes (sends id msg n free) = to_peer (find bytes_key id n.peers) msg
  pushes _ = []

  unfoldable pub first_taken : Map (List ℕ) Handler → List Item → List Fate
  first_taken handlers [] = []
  first_taken handlers (item ∷ rest) = taken item (find bytes_key item.1.command handlers) ∷ []

  unfoldable pub all_dropped : List Item → List Fate
  all_dropped [] = []
  all_dropped (item ∷ rest) = dropped item ∷ all_dropped rest

  unfoldable pub removes : {n n' : Node Handler} → Step Handler n n' → List Fate
  removes (takes n e) = first_taken n.handlers n.queue
  removes (clears n flag free) = all_dropped n.queue
  removes _ = []

  -- The calls of handlers for items that were taken, and the call that the worker is about to make.
  unfoldable pub call_of : Item → Option Handler → List (Handler × Item)
  call_of item none = []
  call_of item (some h) = (h, item) ∷ []

  unfoldable pub handled : List Fate → List (Handler × Item)
  handled [] = []
  handled (taken item h ∷ fs) = call_of item h ++ handled fs
  handled (dropped item ∷ fs) = handled fs

  unfoldable pub pending : Worker Handler → List (Handler × Item)
  pending (calling item h) = call_of item h
  pending _ = []

  items-all_dropped : (queue : List Item) → items (all_dropped queue) ≡ queue
  unfolding items item_of all_dropped
  items-all_dropped [] = refl
  items-all_dropped (item ∷ rest) = ap (λ q. item ∷ q) (items-all_dropped rest)

  handled-all_dropped : (queue : List Item) → handled (all_dropped queue) ≡ []
  unfolding handled all_dropped
  handled-all_dropped [] = refl
  handled-all_dropped (item ∷ rest) = handled-all_dropped rest

module _ {Handler : Type 0} where
  abbrev pub Keeps : {n n' : Node Handler} → Step Handler n n' → Type 0
  Keeps {n} {n'} s =
      (n.queue ++ pushes Handler s ≡ items Handler (removes Handler s) ++ n'.queue)
      × (n'.calls ++ pending Handler n'.worker
          ≡ (n.calls ++ pending Handler n.worker) ++ handled Handler (removes Handler s))

  -- A step that pushes items, or none, and neither takes nor drops one.
  queued :
      (n n' : Node Handler) (new : List Item)
      → n'.queue ≡ n.queue ++ new
      → n'.calls ≡ n.calls
      → pending Handler n'.worker ≡ pending Handler n.worker
      → (n.queue ++ new ≡ n'.queue)
        × (n'.calls ++ pending Handler n'.worker ≡ (n.calls ++ pending Handler n.worker) ++ [])
  queued n n' new q c p = (
    sym q,
    ap (λ cs. cs ++ pending Handler n'.worker) c
        ∙ ap (λ ps. n.calls ++ ps) p
        ∙ sym (append-nil (n.calls ++ pending Handler n.worker)),
  )

  pending-notify : (w : Worker Handler) → pending Handler (notify Handler w) ≡ pending Handler w
  unfolding pending notify
  pending-notify absent = refl
  pending-notify locking = refl
  pending-notify tested = refl
  pending-notify waiting = refl
  pending-notify ended = refl
  pending-notify (calling item h) = refl

  push_to-queued :
      (found : Option PeerInfo) (msg : Message) (n : Node Handler)
      → let n' = push_to Handler found msg n in
        (n.queue ++ to_peer Handler found msg ≡ n'.queue)
        × (n'.calls ++ pending Handler n'.worker ≡ (n.calls ++ pending Handler n.worker) ++ [])
  unfolding push_to to_peer
  push_to-queued none msg n = queued n n [] (sym (append-nil n.queue)) refl refl
  push_to-queued (some peer) msg n =
      queued n (push_to Handler (some peer) msg n) ((peer, msg) ∷ []) refl refl
        (pending-notify n.worker)

  abbrev Unmoved : Node Handler → Node Handler → Type 0
  Unmoved n n' =
      (n.queue ++ [] ≡ n'.queue)
      × (n'.calls ++ pending Handler n'.worker ≡ (n.calls ++ pending Handler n.worker) ++ [])

  still : (n : Node Handler) → Unmoved n n
  still n = queued n n [] (sym (append-nil n.queue)) refl refl

  start-queued : (n n' : Node Handler) → start Handler n ≡ some n' → Unmoved n n'
  unfolding start pending
  start-queued n n' e =
      elim (started n.running (joinable Handler n.worker) n
        (record n { running = true; worker = locking }) n' e) [
          | inl same ↦ subst (Unmoved n) same (still n)
          | inr (off, gone, on) ↦ subst (Unmoved n) on (
              queued n (record n { running = true; worker = locking }) [] (sym (append-nil n.queue))
                refl (sym (ap (pending Handler) (not_joinable n.worker gone))))
        ]

  flag-queued : (n : Node Handler) → Unmoved n (stop_flag Handler n)
  unfolding stop_flag
  flag-queued n =
      if_cases (Unmoved n) n.running _ _
        (queued n (record n { running = false; phase = flagged }) [] (sym (append-nil n.queue)) refl
          refl)
        (still n)

  take-Keeps :
      (queue : List Item) (n : Node Handler)
      → n.queue ≡ queue
      → n.worker ≡ tested
      → let n' = take_item Handler queue n in
        let gone = first_taken Handler n.handlers queue in
        (queue ++ [] ≡ items Handler gone ++ n'.queue)
        × (n'.calls ++ pending Handler n'.worker
            ≡ (n.calls ++ pending Handler n.worker) ++ handled Handler gone)
  unfolding take_item first_taken items item_of handled pending call_of
  take-Keeps [] n e t = (
    sym e,
    sym (append-nil (n.calls ++ []))
        ∙ ap (λ p. (n.calls ++ p) ++ []) (sym (ap (pending Handler) t)),
  )
  take-Keeps (item ∷ rest) n e t =
      let call = call_of Handler item (find bytes_key item.1.command n.handlers) in
      (
        ap (λ q. item ∷ q) (append-nil rest),
        ap (λ c. n.calls ++ c) (sym (append-nil call))
            ∙ ap (λ q. q ++ (call ++ [])) (sym (append-nil n.calls))
            ∙ ap (λ p. (n.calls ++ p) ++ (call ++ [])) (sym (ap (pending Handler) t)),
      )

  call-Keeps :
      (item : Item) (h : Option Handler) (n : Node Handler)
      → n.worker ≡ calling item h
      → let n' = call_handler Handler item h n in
        (n.queue ++ [] ≡ n'.queue)
        × (n'.calls ++ pending Handler n'.worker ≡ (n.calls ++ pending Handler n.worker) ++ [])
  unfolding call_handler pending call_of
  call-Keeps item none n e = (
    append-nil n.queue,
    sym (append-nil (n.calls ++ []))
        ∙ ap (λ p. (n.calls ++ p) ++ []) (sym (ap (pending Handler) e)),
  )
  call-Keeps item (some h) n e =
      (append-nil n.queue, ap (λ p. (n.calls ++ p) ++ []) (sym (ap (pending Handler) e)))

  none_pending : (r : Bool) → pending Handler (if r then tested else ended) ≡ []
  unfolding pending
  none_pending true = refl
  none_pending false = refl

  pub Step-Keeps : {n n' : Node Handler} (s : Step Handler n n') → Keeps s
  unfolding pushes removes items handled register_handler add_peer broadcast send_to stop_clear
      stop_join test_running pending
  Step-Keeps (registers cmd h n free) =
      queued n (register_handler Handler cmd h n) [] (sym (append-nil n.queue)) refl refl
  Step-Keeps (adds peer n free) =
      queued n (add_peer Handler peer n) [] (sym (append-nil n.queue)) refl refl
  Step-Keeps (broadcasts msg n free) =
      queued n (broadcast Handler msg n) (items_for Handler msg n.peers) refl refl
        (pending-notify n.worker)
  Step-Keeps (sends id msg n free) = push_to-queued (find bytes_key id n.peers) msg n
  Step-Keeps (starts n n' e) = start-queued n n' e
  Step-Keeps (flags n) = flag-queued n
  Step-Keeps (clears n flag free) = (
    ap (λ q. q ++ []) (sym (items-all_dropped Handler n.queue)),
    ap (λ p. n.calls ++ p) (pending-notify n.worker)
        ∙ sym (append-nil (n.calls ++ pending Handler n.worker))
        ∙ ap (λ h. (n.calls ++ pending Handler n.worker) ++ h)
            (sym (handled-all_dropped Handler n.queue)),
  )
  Step-Keeps (joins n done e) =
      queued n (stop_join Handler n) [] (sym (append-nil n.queue)) refl
        (sym (ap (pending Handler) e))
  Step-Keeps (tests n e) =
      queued n (test_running Handler n) [] (sym (append-nil n.queue)) refl
        (none_pending n.running ∙ sym (ap (pending Handler) e))
  Step-Keeps (takes n e) = take-Keeps n.queue n refl e
  Step-Keeps (calls n item h e) = call-Keeps item h n e
  Step-Keeps (wakes n e) =
      queued n (record n { worker = locking }) [] (sym (append-nil n.queue)) refl
        (sym (ap (pending Handler) e))
