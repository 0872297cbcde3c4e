-- ===== src/Mempool/History.antt =====
-- The pools that the operations of layer2-services/mempool/mempool.cpp lead to.
use Prim.Native.Nat.{max}
use drachma_block_chain.Common.{
  ℕ, ◌≤◌, ◌≡◌, refl, sym, ap, ◌∙◌, arith, List, [], ◌∷◌, ◌++◌, length, All, Bool, true, false, leb,
  le→leb, if◌then◌else◌, Bool-cases, inl, inr, bytes_eq,
}
use mathlib.Core.Path.{subst}
use drachma_block_chain.Common.Maps.{bytes_key, has, erase}
use drachma_block_chain.Common.Maps.Distinct.{emplace_new}
use drachma_block_chain.Common.Maps.Erase.{has-erase, has-append}
use drachma_block_chain.Tx.{Transaction}
use drachma_block_chain.Crypto.{OpenSsl}
use drachma_block_chain.Block.{transaction_hash}
use drachma_block_chain.Mempool.{
  FeePolicy, MempoolEntry, Mempool, is_fee_acceptable, evict_oldest, add_entry, exists, accept,
  remove,
}
use drachma_block_chain.Mempool.Invariant.{IsTidy, IsFiled, IsUnique, queued, evict_oldest_lem}
use drachma_block_chain.Mempool.Steps.{
  IsPool, room, room-IsRoom, accept-IsPool, remove-IsPool, empty-IsPool,
}

-- The pools that calls lead to from an empty one.
pub data Reach (ssl : OpenSsl) (policy : FeePolicy) : Mempool → Type 0 where
  empty :
      {p : Mempool} → p ≡ record { policy = policy; entries = []; order = [] } → Reach ssl policy p
  accepts :
      {p p' : Mempool} (tx : Transaction) (fee now : ℕ)
      → Reach ssl policy p
      → p' ≡ (accept ssl p tx fee now).1
      → Reach ssl policy p'
  removes :
      {p p' : Mempool} (hashes : List (List ℕ))
      → Reach ssl policy p
      → p' ≡ remove hashes p
      → Reach ssl policy p'

module _ (ssl : OpenSsl) (policy : FeePolicy) where
  Reach-IsPool : {p : Mempool} → Reach ssl policy p → IsPool ssl policy p
  Reach-IsPool (empty e) = subst (IsPool ssl policy) (sym e) (empty-IsPool ssl policy)
  Reach-IsPool (accepts tx fee now r e) =
      subst (IsPool ssl policy) (sym e) (accept-IsPool ssl policy _ tx fee now (Reach-IsPool r))
  Reach-IsPool (removes hashes r e) =
      subst (IsPool ssl policy) (sym e) (remove-IsPool ssl policy hashes _ (Reach-IsPool r))

  -- In every pool that calls lead to, the order lists exactly the hashes that have an entry, each once;
  -- there are at most `MaxEntries` entries, or one where that is 0; and each entry stands under the hash
  -- of its transaction, which the fee policy let in.
  pub reachable_pool :
      (p : Mempool)
      → Reach ssl policy p
      → ((k : List ℕ) → exists p k ≡ queued k p.order)
        × IsUnique p.order
        × (length p.entries ≤ max 1 policy.max_entries)
        × All (IsFiled ssl policy) p.entries
  unfolding exists
  reachable_pool p r =
      let v = Reach-IsPool r in (v.tidy.agree, v.tidy.unique, v.bounded, v.tidy.filed)

  -- What an answer of `true` says of the pool that is left.
  accept-true :
      (p : Mempool) (tx : Transaction) (fee now : ℕ)
      → (accept ssl p tx fee now).0 ≡ true
      → (has bytes_key (transaction_hash ssl tx) p.entries ≡ false)
        × ((accept ssl p tx fee now).1
            ≡ add_entry p (transaction_hash ssl tx) (record { tx = tx; fee = fee; added = now }))
  unfolding accept
  accept-true p tx fee now done =
      elim (Bool-cases (has bytes_key (transaction_hash ssl tx) p.entries)) [
        | inl old ↦ absurd (cc (rw old at done))
        | inr new ↦ elim (Bool-cases (is_fee_acceptable p.policy tx fee)) [
          | inl fine ↦ (new, rw new (rw fine refl))
          | inr bad ↦ absurd (cc (rw bad at (rw new at done)))
        ]
      ]

  room_full :
      (p : Mempool) (oldest : List ℕ) (younger : List (List ℕ))
      → IsPool ssl policy p
      → p.order ≡ oldest ∷ younger
      → policy.max_entries ≤ length p.entries
      → room ssl policy p ≡ (erase bytes_key oldest p.entries, younger)
  room_full p oldest younger v first full =
      rw
        (ap (λ q. leb q.max_entries (length p.entries)) v.same_policy
          ∙ le→leb policy.max_entries (length p.entries) full)
        (ap (evict_oldest p.entries) first
          ∙ (evict_oldest_lem ssl policy p.entries oldest younger
              (subst (IsTidy ssl policy p.entries) first v.tidy)).1)

  -- A transaction that is let into a full pool that calls lead to takes the place of the oldest one: its
  -- hash goes behind the others, the first hash of the order is gone, and no other transaction comes or
  -- goes.
  pub accept_evicts_oldest :
      (p : Mempool) (tx : Transaction) (fee now : ℕ) (oldest : List ℕ) (younger : List (List ℕ))
      → Reach ssl policy p
      → p.order ≡ oldest ∷ younger
      → policy.max_entries ≤ length p.entries
      → (accept ssl p tx fee now).0 ≡ true
      → ((accept ssl p tx fee now).1.order ≡ younger ++ transaction_hash ssl tx ∷ [])
        × ((k : List ℕ)
            → exists (accept ssl p tx fee now).1 k ≡ (
                if bytes_eq (transaction_hash ssl tx) k
                then true
                else if bytes_eq oldest k
                then false
                else exists p k))
  accept_evicts_oldest p tx fee now oldest younger r first full done =
      let hash = transaction_hash ssl tx in
      let entry : MempoolEntry = record { tx = tx; fee = fee; added = now } in
      let v = Reach-IsPool r in
      let (new, left) = accept-true p tx fee now done in
      let made = room_full p oldest younger v first full in
      let absent = (room-IsRoom ssl policy p v).fewer hash new in
      (
        ap (λ q. q.order) left ∙ unfold add_entry in ap (λ q. q.1 ++ hash ∷ []) made,
        λ k.
            ap (λ q. exists q k) left
            ∙ unfold add_entry exists in
              (ap (has bytes_key k) (emplace_new bytes_key hash entry (room ssl policy p).0 absent)
                ∙ has-append bytes_key k hash entry (room ssl policy p).0
                ∙ ap (λ q. if has bytes_key k q.0 then true else bytes_eq hash k) made
                ∙ ap (λ b. if b then true else bytes_eq hash k)
                    (has-erase bytes_key oldest k p.entries)
                ∙ swap (bytes_eq hash k) (bytes_eq oldest k) (has bytes_key k p.entries)),
      )
    where
      swap :
          (new old b : Bool)
          → (if (if old then false else b) then true else new)
            ≡ (if new then true else if old then false else b)
      swap new old b = ground arith
