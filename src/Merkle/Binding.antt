-- ===== src/Merkle/Binding.antt =====
-- What the merkle root of layer1-core/merkle/merkle.cpp commits to. A collision is two texts of one hash.
use drachma_block_chain.Common.{
  ℕ, zero, suc, ◌+◌, ◌%◌, ◌≤◌, ◌<◌, ◌≡◌, ◌≢◌, refl, sym, ap, ◌∙◌, arith, List, [], ◌∷◌, ◌++◌,
  length, map, length-map, All, Bool-cases, inl, inr, ◌⊎◌, bytes_eq, bytes_eq_iff, ok-injective,
  codes, ◌==◌, ==_iff, ltb, ltb→lt, ltb→le,
}
use mathlib.Core.Path.{ap₂}
use mathlib.Core.List.{head-eq_of_cons-eq, tail-eq_of_cons-eq}
use drachma_block_chain.Tx.{Transaction, serialize, deserialize_transaction}
use drachma_block_chain.Tx.RoundTrip.{IsTransaction, deserialize-serialize}
use drachma_block_chain.Block.{transaction_hash}
use drachma_block_chain.Crypto.{OpenSsl, tagged_hash, sha256}
use drachma_block_chain.Merkle.{
  push_last, hash_pair, pair_layer, next_layer, root_of, reduce, compute_merkle_root,
}
use drachma_block_chain.Merkle.Laws.{
  length-push_last, length-next_layer, root-next, next_layer_even, next_layer_odd,
}

-- Two texts with one tagged hash.
abbrev pub Collision : OpenSsl → List ℕ → Type 0
Collision ssl tag =
    (a : List ℕ) × ((b : List ℕ) × (a ≢ b) × (tagged_hash ssl tag a ≡ tagged_hash ssl tag b))

abbrev pub IsDigest : List ℕ → Type 0
IsDigest h = length h ≡ 32

append_split : (a b c d : List ℕ) → length a ≡ length c → a ++ b ≡ c ++ d → (a ≡ c) × (b ≡ d)
append_split [] b [] d n e = (refl, e)
append_split [] b (y ∷ c) d n e = absurd (omega (arith, n))
append_split (x ∷ a) b [] d n e = absurd (omega (arith, n))
append_split (x ∷ a) b (y ∷ c) d n e =
    let (p, q) = append_split a b c d (omega (arith, n)) (tail-eq_of_cons-eq e) in
    (ap₂ (λ h t. h ∷ t) (head-eq_of_cons-eq e) p, q)

-- A hash that two texts share.
same_texts_or :
    (ssl : OpenSsl) (tag a b : List ℕ)
    → tagged_hash ssl tag a ≡ tagged_hash ssl tag b
    → (a ≡ b) ⊎ Collision ssl tag
same_texts_or ssl tag a b e = elim (Bool-cases (bytes_eq a b)) [
  | inl same ↦ inl ((bytes_eq_iff a b).0 same)
  | inr differ ↦ inr (a, (b, (λ eq. cc ((bytes_eq_iff a b).1 eq, differ)), e))
]

push_last-injective :
    (xs ys : List (List ℕ)) → length xs ≡ length ys → push_last xs ≡ push_last ys → xs ≡ ys
unfolding push_last
push_last-injective [] [] n e = refl
push_last-injective [] (y ∷ ys) n e = absurd (omega (arith, n))
push_last-injective (x ∷ xs) [] n e = absurd (omega (arith, n))
push_last-injective (x ∷ []) (y ∷ []) n e = ap (λ h. h ∷ []) (head-eq_of_cons-eq e)
push_last-injective (x ∷ []) (y ∷ z ∷ ys) n e = absurd (omega (arith, n))
push_last-injective (x ∷ w ∷ xs) (y ∷ []) n e = absurd (omega (arith, n))
push_last-injective (x ∷ w ∷ xs) (y ∷ z ∷ ys) n e =
    ap₂ (λ h t. h ∷ t) (head-eq_of_cons-eq e)
      (push_last-injective (w ∷ xs) (z ∷ ys) (omega (arith, n)) (tail-eq_of_cons-eq e))

push_last-All : (xs : List (List ℕ)) → All IsDigest xs → All IsDigest (push_last xs)
unfolding push_last
push_last-All [] h = tt
push_last-All (x ∷ []) h = (h.0, (h.0, tt))
push_last-All (x ∷ y ∷ xs) h = (h.0, push_last-All (y ∷ xs) h.1)

module _ (ssl : OpenSsl) where
  pair_binds :
      (xs ys : List (List ℕ))
      → length xs ≡ length ys
      → length xs % 2 ≡ 0
      → All IsDigest xs
      → All IsDigest ys
      → pair_layer ssl xs ≡ pair_layer ssl ys
      → (xs ≡ ys) ⊎ Collision ssl (codes "MERKLE")
  unfolding pair_layer
  pair_binds [] [] n even h g e = inl refl
  pair_binds [] (y ∷ ys) n even h g e = absurd (omega (arith, n))
  pair_binds (a ∷ []) ys n even h g e = absurd (omega (arith, even))
  pair_binds (a ∷ b ∷ xs) [] n even h g e = absurd (omega (arith, n))
  pair_binds (a ∷ b ∷ xs) (c ∷ []) n even h g e = absurd (omega (arith, n))
  pair_binds (a ∷ b ∷ xs) (c ∷ d ∷ ys) n even (ha, (hb, h)) (gc, (gd, g)) e =
      let rest =
        pair_binds xs ys (omega (arith, n)) (omega (arith, even)) h g (tail-eq_of_cons-eq e) in
      both rest (
        same_texts_or ssl (codes "MERKLE") (a ++ b) (c ++ d)
          (unfold hash_pair in head-eq_of_cons-eq e))
    where
      both :
          (xs ≡ ys) ⊎ Collision ssl (codes "MERKLE")
          → (a ++ b ≡ c ++ d) ⊎ Collision ssl (codes "MERKLE")
          → (a ∷ b ∷ xs ≡ c ∷ d ∷ ys) ⊎ Collision ssl (codes "MERKLE")
      both (inr found) t = inr found
      both (inl r) (inr found) = inr found
      both (inl r) (inl t) =
          let (p, q) = append_split a b c d (ha ∙ sym gc) t in
          inl (ap₂ (λ x zs. x ∷ zs) p (ap₂ (λ x zs. x ∷ zs) q r))

  next_binds :
      (xs ys : List (List ℕ))
      → length xs ≡ length ys
      → 0 < length xs
      → All IsDigest xs
      → All IsDigest ys
      → next_layer ssl xs ≡ next_layer ssl ys
      → (xs ≡ ys) ⊎ Collision ssl (codes "MERKLE")
  next_binds xs ys n some' h g e = elim (Bool-cases (length xs % 2 == 0)) [
    | inl even ↦
        let ev : length xs % 2 ≡ 0 = (==_iff (length xs % 2) 0).0 even in
        pair_binds xs ys n ev h g
          (sym (next_layer_even ssl xs ev) ∙ e ∙ next_layer_even ssl ys (omega (arith, ev, n)))
    | inr odd ↦
        let od : length xs % 2 ≡ 1 = ground (arith, odd) in
        let l = length-push_last xs some' in
        let m = length-push_last ys (omega (arith, n, some')) in
        unpush (
          pair_binds (push_last xs) (push_last ys) (omega (arith, n, l, m)) (omega (arith, od, l))
            (push_last-All xs h) (push_last-All ys g)
            (sym (next_layer_odd ssl xs od) ∙ e ∙ next_layer_odd ssl ys (omega (arith, od, n))))
  ]
    where
      unpush :
          (push_last xs ≡ push_last ys) ⊎ Collision ssl (codes "MERKLE")
          → (xs ≡ ys) ⊎ Collision ssl (codes "MERKLE")
      unpush (inl p) = inl (push_last-injective xs ys n p)
      unpush (inr found) = inr found

  module _ (digest : (c : ssl.Context) → length (ssl.sha256_final c) ≡ 32) where
    pair-All : (xs : List (List ℕ)) → All IsDigest (pair_layer ssl xs)
    unfolding pair_layer hash_pair tagged_hash sha256
    pair-All [] = tt
    pair-All (a ∷ []) = tt
    pair-All (a ∷ b ∷ rest) = (digest _, pair-All rest)

    next-All : (xs : List (List ℕ)) → All IsDigest (next_layer ssl xs)
    unfolding next_layer
    next-All xs = pair-All _

    single :
        (xs ys : List (List ℕ))
        → length xs ≤ 1
        → length xs ≡ length ys
        → 0 < length xs
        → root_of ssl xs ≡ root_of ssl ys
        → xs ≡ ys
    unfolding root_of reduce
    single [] ys few n some' e = absurd (omega (arith, some'))
    single (x ∷ w ∷ xs) ys few n some' e = absurd (omega (arith, few))
    single (x ∷ []) [] few n some' e = absurd (omega (arith, n))
    single (x ∷ []) (y ∷ z ∷ ys) few n some' e = absurd (omega (arith, n))
    single (x ∷ []) (y ∷ []) few n some' e = ap (λ h. h ∷ []) e

    root_binds_within :
        (fuel : ℕ) (xs ys : List (List ℕ))
        → length xs ≤ fuel + 1
        → length xs ≡ length ys
        → 0 < length xs
        → All IsDigest xs
        → All IsDigest ys
        → root_of ssl xs ≡ root_of ssl ys
        → (xs ≡ ys) ⊎ Collision ssl (codes "MERKLE")
    root_binds_within zero xs ys few n some' h g e =
        inl (single xs ys (omega (arith, few)) n some' e)
    root_binds_within (suc fuel) xs ys few n some' h g e = elim (Bool-cases (ltb 1 (length xs))) [
      | inr done ↦ inl (single xs ys (ltb→le 1 (length xs) done) n some' e)
      | inl more ↦
          let m = ltb→lt 1 (length xs) more in
          let k = length-next_layer ssl xs some' in
          let l = length-next_layer ssl ys (omega (arith, n, some')) in
          let rest =
            root_binds_within fuel (next_layer ssl xs) (next_layer ssl ys)
              (omega (arith, few, k, m)) (omega (arith, n, k, l)) (omega (arith, k, m))
              (next-All xs) (next-All ys)
              (sym (root-next ssl xs m) ∙ e ∙ root-next ssl ys (omega (arith, n, m))) in
          elim rest [ inl p ↦ next_binds xs ys n some' h g p | inr found ↦ inr found ]
    ]

    hash-All : (txs : List Transaction) → All IsDigest (map (transaction_hash ssl) txs)
    unfolding transaction_hash tagged_hash sha256
    hash-All [] = tt
    hash-All (tx ∷ txs) = (digest _, hash-All txs)

    serialize-injective :
        (tx ux : Transaction)
        → IsTransaction tx
        → IsTransaction ux
        → serialize tx ≡ serialize ux
        → tx ≡ ux
    serialize-injective tx ux v w e = ok-injective (
        sym (deserialize-serialize tx v)
        ∙ ap deserialize_transaction e
        ∙ deserialize-serialize ux w)

    hashes_bind :
        (txs uxs : List Transaction)
        → All IsTransaction txs
        → All IsTransaction uxs
        → map (transaction_hash ssl) txs ≡ map (transaction_hash ssl) uxs
        → (txs ≡ uxs) ⊎ Collision ssl (codes "TX")
    hashes_bind [] [] v w e = inl refl
    hashes_bind [] (ux ∷ uxs) v w e = absurd (cc)
    hashes_bind (tx ∷ txs) [] v w e = absurd (cc)
    hashes_bind (tx ∷ txs) (ux ∷ uxs) (v, vs) (w, ws) e =
        both (hashes_bind txs uxs vs ws (tail-eq_of_cons-eq e)) (
          same_texts_or ssl (codes "TX") (serialize tx) (serialize ux)
            (unfold transaction_hash in head-eq_of_cons-eq e))
      where
        both :
            (txs ≡ uxs) ⊎ Collision ssl (codes "TX")
            → (serialize tx ≡ serialize ux) ⊎ Collision ssl (codes "TX")
            → (tx ∷ txs ≡ ux ∷ uxs) ⊎ Collision ssl (codes "TX")
        both (inr found) t = inr found
        both (inl r) (inr found) = inr found
        both (inl r) (inl t) = inl (ap₂ (λ x zs. x ∷ zs) (serialize-injective tx ux v w t) r)

    -- The merkle root commits to the transactions: two lists of as many transactions, whose fields are in
    -- range, have the same root only if they are the same, or if they give a collision of the tagged hash
    -- under the tag of the tree or under the tag of transactions. SHA-256 answers 32 bytes.
    pub merkle_root_binds :
        (txs uxs : List Transaction)
        → length txs ≡ length uxs
        → All IsTransaction txs
        → All IsTransaction uxs
        → compute_merkle_root ssl txs ≡ compute_merkle_root ssl uxs
        → (txs ≡ uxs) ⊎ (Collision ssl (codes "TX") ⊎ Collision ssl (codes "MERKLE"))
    unfolding compute_merkle_root
    merkle_root_binds [] [] n v w e = inl refl
    merkle_root_binds [] (ux ∷ uxs) n v w e = absurd (omega (arith, n))
    merkle_root_binds (tx ∷ txs) [] n v w e = absurd (omega (arith, n))
    merkle_root_binds (tx ∷ txs) (ux ∷ uxs) n v w e =
        let hash = transaction_hash ssl in
        let l = length-map hash (tx ∷ txs) in
        let m = length-map hash (ux ∷ uxs) in
        elim (root_binds_within (length txs) (map hash (tx ∷ txs)) (map hash (ux ∷ uxs))
          (omega (arith, l)) (omega (arith, l, m, n)) (omega (arith, l)) (hash-All (tx ∷ txs))
          (hash-All (ux ∷ uxs)) e) [
            | inr found ↦ inr (inr found)
            | inl same ↦ elim (hashes_bind (tx ∷ txs) (ux ∷ uxs) v w same) [
              | inl equal ↦ inl equal
              | inr found ↦ inr (inl found)
            ]
          ]
