-- ===== src/Mempool/Invariant.antt =====
-- What holds of every pool of layer2-services/mempool/mempool.cpp: the order lists exactly the hashes of
-- the entries, the size is bounded, and every entry was let in by the fee policy under its own hash.
use drachma_block_chain.Common.{
  ℕ, ◌≡◌, refl, sym, ap, ◌∙◌, arith, List, [], ◌∷◌, ◌++◌, All, All-append, Bool, true, false,
  if◌then◌else◌, Bool-cases, inl, inr, bytes_eq, bytes_eq_iff, bytes_eq_refl,
}
use mathlib.Core.Path.{subst}
use drachma_block_chain.Common.Maps.{Map, bytes_key, has, erase}
use drachma_block_chain.Common.Maps.Distinct.{IsDistinct}
use drachma_block_chain.Common.Maps.Erase.{
  has-append, append-IsDistinct, has-erase, erase-IsDistinct, All-erase,
}
use drachma_block_chain.Tx.{Transaction}
use drachma_block_chain.Crypto.{OpenSsl}
use drachma_block_chain.Block.{transaction_hash}
use drachma_block_chain.Mempool.{FeePolicy, MempoolEntry, is_fee_acceptable, evict_oldest, rebuild}

abbrev pub Entries : Type 0
Entries = Map (List ℕ) MempoolEntry

-- Whether a hash stands in the order.
unfoldable pub queued : List ℕ → List (List ℕ) → Bool
queued k [] = false
queued k (h ∷ hs) = if bytes_eq h k then true else queued k hs

abbrev pub IsUnique : List (List ℕ) → Type 0
IsUnique [] = Unit
IsUnique (h ∷ hs) = (queued h hs ≡ false) × IsUnique hs

queued-append :
    (k h : List ℕ) (hs : List (List ℕ))
    → queued k (hs ++ h ∷ []) ≡ (if queued k hs then true else bytes_eq h k)
unfolding queued
queued-append k h [] = ground arith
queued-append k h (i ∷ hs) = ground (arith, queued-append k h hs)

append-IsUnique :
    (h : List ℕ) (hs : List (List ℕ)) → queued h hs ≡ false → IsUnique hs → IsUnique (hs ++ h ∷ [])
append-IsUnique h [] n u = (unfold queued in refl, tt)
append-IsUnique h (i ∷ hs) n u = (first n, append-IsUnique h hs (rest n) u.1)
  where
    rest : queued h (i ∷ hs) ≡ false → queued h hs ≡ false
    rest n = unfold queued in ground arith

    first : queued h (i ∷ hs) ≡ false → queued i (hs ++ h ∷ []) ≡ false
    first n =
        queued-append i h hs
        ∙ unfold queued in ground (arith, u.0, bytes_eq_iff i h, bytes_eq_iff h i)

pub queued-rebuild :
    (k : List ℕ) (entries : Entries) (hs : List (List ℕ))
    → queued k (rebuild entries hs) ≡ (if queued k hs then has bytes_key k entries else false)
unfolding queued rebuild
queued-rebuild k entries [] = refl
queued-rebuild k entries (h ∷ hs) = ground (arith, queued-rebuild k entries hs, bytes_eq_iff h k)

pub rebuild-IsUnique :
    (entries : Entries) (hs : List (List ℕ)) → IsUnique hs → IsUnique (rebuild entries hs)
unfolding rebuild
rebuild-IsUnique entries [] u = tt
rebuild-IsUnique entries (h ∷ hs) u = elim (Bool-cases (has bytes_key h entries)) [
  | inl e ↦
      rw e (queued-rebuild h entries hs ∙ ground (arith, u.0), rebuild-IsUnique entries hs u.1)
  | inr e ↦ rw e (rebuild-IsUnique entries hs u.1)
]

module _ (ssl : OpenSsl) (policy : FeePolicy) where
  -- The entry stands under the hash of its transaction, which pays its fee.
  abbrev pub IsFiled : List ℕ × MempoolEntry → Type 0
  IsFiled (hash, entry) =
      (hash ≡ transaction_hash ssl entry.tx) × (is_fee_acceptable policy entry.tx entry.fee ≡ true)

  pub record IsTidy (entries : Entries) (order : List (List ℕ)) : Type 0 where
    pub distinct : IsDistinct bytes_key entries
    pub unique : IsUnique order
    pub agree : (k : List ℕ) → has bytes_key k entries ≡ queued k order
    pub filed : All IsFiled entries

  -- The oldest hash of a tidy pool has an entry, and it is the one that is evicted.
  pub evict_oldest_lem :
      (entries : Entries) (h : List ℕ) (hs : List (List ℕ))
      → IsTidy entries (h ∷ hs)
      → (has bytes_key h entries ≡ true)
        × (evict_oldest entries (h ∷ hs) ≡ (erase bytes_key h entries, hs))
  unfolding evict_oldest
  evict_oldest_lem entries h hs t =
      let there : has bytes_key h entries ≡ true =
        t.agree h ∙ unfold queued in rw (bytes_eq_refl h) refl in
      (there, rw there refl)

  pub erase-IsTidy :
      (entries : Entries) (h : List ℕ) (hs : List (List ℕ))
      → IsTidy entries (h ∷ hs)
      → IsTidy (erase bytes_key h entries) hs
  erase-IsTidy entries h hs t = record {
    distinct = erase-IsDistinct bytes_key h entries t.distinct;
    unique = t.unique.1;
    agree = λ k. has-erase bytes_key h k entries ∙ tail k (t.agree k);
    filed = All-erase bytes_key IsFiled h entries t.filed;
  }
    where
      tail :
          (k : List ℕ)
          → has bytes_key k entries ≡ queued k (h ∷ hs)
          → (if bytes_eq h k then false else has bytes_key k entries) ≡ queued k hs
      tail k a = elim (Bool-cases (bytes_eq h k)) [
        | inl e ↦
            let same : h ≡ k = (bytes_eq_iff h k).0 e in
            rw e (sym (subst (λ x. queued x hs ≡ false) same t.unique.0))
        | inr e ↦ rw e (a ∙ unfold queued in rw e refl)
      ]

  pub append-IsTidy :
      (entries : Entries) (order : List (List ℕ)) (tx : Transaction) (entry : MempoolEntry)
      → IsTidy entries order
      → has bytes_key (transaction_hash ssl tx) entries ≡ false
      → IsFiled (transaction_hash ssl tx, entry)
      → IsTidy
          (entries ++ (transaction_hash ssl tx, entry) ∷ [])
          (order ++ transaction_hash ssl tx ∷ [])
  append-IsTidy entries order tx entry t new f =
      let hash = transaction_hash ssl tx in
      record {
        distinct = append-IsDistinct bytes_key hash entry entries new t.distinct;
        unique = append-IsUnique hash order (sym (t.agree hash) ∙ new) t.unique;
        agree = λ k.
            has-append bytes_key k hash entry entries
            ∙ ap (λ b. if b then true else bytes_eq hash k) (t.agree k)
            ∙ sym (queued-append k hash order);
        filed = All-append IsFiled entries _ t.filed (f, tt);
      }
