-- ===== src/Mempool/Steps.antt =====
-- Every operation of layer2-services/mempool/mempool.cpp keeps the pool well formed.
use Prim.Native.Nat.{max}
use drachma_block_chain.Common.{
  ℕ, ◌+◌, ◌≤◌, ◌≡◌, refl, sym, ap, ◌∙◌, arith, List, [], ◌∷◌, ◌++◌, length, length-append, All,
  Bool, true, false, leb, if◌then◌else◌, Bool-cases, inl, inr, bytes_eq, bytes_eq_refl,
}
use mathlib.Core.Path.{subst}
use drachma_block_chain.Common.Maps.{bytes_key, has, erase}
use drachma_block_chain.Common.Maps.Distinct.{IsDistinct, emplace_new}
use drachma_block_chain.Common.Maps.Erase.{has-erase, length-erase, erase-IsDistinct, All-erase}
use drachma_block_chain.Tx.{Transaction}
use drachma_block_chain.Crypto.{OpenSsl}
use drachma_block_chain.Block.{transaction_hash}
use drachma_block_chain.Mempool.{
  FeePolicy, MempoolEntry, Mempool, is_fee_acceptable, evict_oldest, add_entry, accept, erase_each,
  remove,
}
use drachma_block_chain.Mempool.Invariant.{
  Entries, IsTidy, IsFiled, queued, queued-rebuild, rebuild-IsUnique, evict_oldest_lem,
  erase-IsTidy, append-IsTidy,
}

module _ (ssl : OpenSsl) (policy : FeePolicy) where
  pub record IsPool (p : Mempool) : Type 0 where
    pub same_policy : p.policy ≡ policy
    pub tidy : IsTidy ssl policy p.entries p.order
    pub bounded : length p.entries ≤ max 1 policy.max_entries

  -- What `Accept` goes on with once there is room.
  abbrev pub room : Mempool → Entries × List (List ℕ)
  room p =
      if leb p.policy.max_entries (length p.entries)
      then evict_oldest p.entries p.order
      else (p.entries, p.order)

  pub record IsRoom (p : Mempool) (r : Entries × List (List ℕ)) : Type 0 where
    pub tidy : IsTidy ssl policy r.0 r.1
    pub space : length r.0 + 1 ≤ max 1 policy.max_entries
    pub fewer : (k : List ℕ) → has bytes_key k p.entries ≡ false → has bytes_key k r.0 ≡ false

  entries_without_order : (entries : Entries) → IsTidy ssl policy entries [] → length entries ≡ 0
  entries_without_order [] t = omega arith
  entries_without_order ((k, v) ∷ m) t = absurd (clash (t.agree k))
    where
      clash : has bytes_key k ((k, v) ∷ m) ≡ queued k [] → ⊥
      clash e = unfold has queued in cc (rw (bytes_eq_refl k) at e)

  evicted :
      (p : Mempool) (entries : Entries) (order : List (List ℕ))
      → p.entries ≡ entries
      → IsTidy ssl policy entries order
      → length entries ≤ max 1 policy.max_entries
      → IsRoom p (evict_oldest entries order)
  evicted p entries [] e t b =
      unfold evict_oldest in
      record {
        tidy = t;
        space = omega (arith, entries_without_order entries t);
        fewer = λ k h. subst (λ m. has bytes_key k m ≡ false) e h;
      }
  evicted p entries (h ∷ hs) e t b =
      let (there, same) = evict_oldest_lem ssl policy entries h hs t in
      subst (IsRoom p) (sym same) (record {
        tidy = erase-IsTidy ssl policy entries h hs t;
        space = omega (arith, length-erase bytes_key h entries t.distinct there);
        fewer = λ k n.
            has-erase bytes_key h k entries
            ∙ without k (subst (λ m. has bytes_key k m ≡ false) e n);
      })
    where
      without :
          (k : List ℕ)
          → has bytes_key k entries ≡ false
          → (if bytes_eq h k then false else has bytes_key k entries) ≡ false
      without k n = ground (arith, n)

  pub room-IsRoom : (p : Mempool) → IsPool p → IsRoom p (room p)
  room-IsRoom p v = elim (Bool-cases (leb p.policy.max_entries (length p.entries))) [
    | inl full ↦ rw full (evicted p p.entries p.order refl v.tidy v.bounded)
    | inr free ↦ rw free (record {
      tidy = v.tidy;
      space =
          free_space (length p.entries) p.policy.max_entries free
            (ap (λ q. q.max_entries) v.same_policy);
      fewer = λ k n. n;
    })
  ]
    where
      free_space :
          (n m : ℕ) → leb m n ≡ false → m ≡ policy.max_entries → n + 1 ≤ max 1 policy.max_entries
      free_space n m h e = ground arith

  add_entry-IsPool :
      (p : Mempool) (tx : Transaction) (entry : MempoolEntry)
      → IsPool p
      → has bytes_key (transaction_hash ssl tx) p.entries ≡ false
      → IsFiled ssl policy (transaction_hash ssl tx, entry)
      → IsPool (add_entry p (transaction_hash ssl tx) entry)
  unfolding add_entry
  add_entry-IsPool p tx entry v new f =
      let hash = transaction_hash ssl tx in
      let r = room-IsRoom p v in
      let absent = r.fewer hash new in
      let put = emplace_new bytes_key hash entry (room p).0 absent in
      record {
        same_policy = v.same_policy;
        tidy =
            subst (λ m. IsTidy ssl policy m ((room p).1 ++ hash ∷ [])) (sym put)
              (append-IsTidy ssl policy (room p).0 (room p).1 tx entry r.tidy absent f);
        bounded =
            omega (arith, ap length put, length-append (room p).0 ((hash, entry) ∷ []), r.space);
      }

  pub accept-IsPool :
      (p : Mempool) (tx : Transaction) (fee now : ℕ) → IsPool p → IsPool (accept ssl p tx fee now).1
  unfolding accept
  accept-IsPool p tx fee now v =
      elim (Bool-cases (has bytes_key (transaction_hash ssl tx) p.entries)) [
        | inl old ↦ rw old v
        | inr new ↦ rw new (elim (Bool-cases (is_fee_acceptable p.policy tx fee)) [
          | inl fine ↦ rw fine (
              add_entry-IsPool p tx (record { tx = tx; fee = fee; added = now }) v new
                (refl, subst (λ q. is_fee_acceptable q tx fee ≡ true) v.same_policy fine))
          | inr bad ↦ rw bad v
        ])
      ]

  -- Erasing some hashes leaves distinct, filed entries, and no more than there were.
  record IsLeft (before after : Entries) : Type 0 where
    distinct : IsDistinct bytes_key after
    filed : All (IsFiled ssl policy) after
    size : length after ≤ length before
    within : (k : List ℕ) → has bytes_key k after ≡ true → has bytes_key k before ≡ true

  erase_each-IsLeft :
      (hashes : List (List ℕ)) (entries : Entries)
      → IsDistinct bytes_key entries
      → All (IsFiled ssl policy) entries
      → IsLeft entries (erase_each hashes entries)
  unfolding erase_each
  erase_each-IsLeft [] entries d f = record {
    distinct = d;
    filed = f;
    size = omega arith;
    within = λ k h. h;
  }
  erase_each-IsLeft (h ∷ hs) entries d f = elim (Bool-cases (has bytes_key h entries)) [
    | inr absent ↦ rw absent (erase_each-IsLeft hs entries d f)
    | inl there ↦ rw there (
        let rest =
          erase_each-IsLeft hs (erase bytes_key h entries) (erase-IsDistinct bytes_key h entries d)
            (All-erase bytes_key (IsFiled ssl policy) h entries f) in
        record {
          distinct = rest.distinct;
          filed = rest.filed;
          size = omega (arith, rest.size, length-erase bytes_key h entries d there);
          within = λ k e. still k (sym (has-erase bytes_key h k entries) ∙ rest.within k e);
        })
  ]
    where
      still :
          (k : List ℕ)
          → (if bytes_eq h k then false else has bytes_key k entries) ≡ true
          → has bytes_key k entries ≡ true
      still k e = ground arith

  pub remove-IsPool : (hashes : List (List ℕ)) (p : Mempool) → IsPool p → IsPool (remove hashes p)
  unfolding remove
  remove-IsPool hashes p v =
      let left = erase_each hashes p.entries in
      let l = erase_each-IsLeft hashes p.entries v.tidy.distinct v.tidy.filed in
      record {
        same_policy = v.same_policy;
        tidy = record {
          distinct = l.distinct;
          unique = rebuild-IsUnique left p.order v.tidy.unique;
          agree = λ k.
              both (has bytes_key k left) (has bytes_key k p.entries) (l.within k)
              ∙ ap (λ b. if b then has bytes_key k left else false) (v.tidy.agree k)
              ∙ sym (queued-rebuild k left p.order);
          filed = l.filed;
        };
        bounded = omega (arith, l.size, v.bounded);
      }
    where
      both : (a b : Bool) → (a ≡ true → b ≡ true) → a ≡ (if b then a else false)
      both true b f = rw (f refl) refl
      both false true f = refl
      both false false f = refl

  pub empty-IsPool : IsPool (record { policy = policy; entries = []; order = [] })
  unfolding has queued
  empty-IsPool = record {
    same_policy = refl;
    tidy = record { distinct = tt; unique = tt; agree = λ k. refl; filed = tt };
    bounded = omega arith;
  }
