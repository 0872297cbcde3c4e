-- ===== src/Crosschain/Laws.antt =====
-- What layer2-services/crosschain/validation/proof_validator.cpp and bridge/bridge_manager.cpp check,
-- and what becomes of the tips and the messages.
use drachma_block_chain.Common.{
  ℕ, ◌≡◌, ◌≢◌, ◌↔◌, refl, sym, ap, ◌∙◌, List, [], ◌∷◌, Bool, true, false, Option, none, some,
  Bool-cases, inl, inr, All, bytes_eq, bytes_eq_iff, replicate,
}
use drachma_block_chain.Common.Maps.{Map, find, assign, bytes_key, find-assign, find-assign_other}
use drachma_block_chain.Crypto.{OpenSsl, sha256d}
use drachma_block_chain.Crosschain.{
  HeaderProof, Bridge, walk, validate_chain, newest, verify_and_store, store_if, store_at,
}

module _ (ssl : OpenSsl) where
  -- Every header hashes to the tip.
  abbrev pub IsTip : List ℕ → HeaderProof → Type 0
  IsTip tip p = sha256d ssl p.header ≡ tip

  walk_iff :
      (prev : List ℕ) (ps : List HeaderProof) (tip : List ℕ)
      → (walk ssl prev ps tip ≡ true) ↔ ((prev ≡ tip) × All (IsTip tip) ps)
  unfolding walk
  walk_iff prev [] tip = let (a, b) = bytes_eq_iff prev tip in ((λ h. (a h, tt)), (λ h. b h.0))
  walk_iff prev (p ∷ ps) tip =
      let hash = sha256d ssl p.header in
      let (there, back) = walk_iff hash ps tip in
      let (same, same') = bytes_eq_iff hash prev in
      elim (Bool-cases (bytes_eq hash prev)) [
        | inl e ↦
            rw e (
              (λ h. let (a, b) = there h in (sym (same e) ∙ a, (a, b))),
              (λ h. back (h.1.0, h.1.1)),
            )
        | inr n ↦ rw n ((λ h. cc), (λ h. absurd (cc (n, same' (h.1.0 ∙ sym h.0)))))
      ]

  -- A proof passes exactly when it is not empty and each of its headers hashes to the tip that is
  -- expected: no header refers to another one.
  pub validate_chain_iff :
      (ps : List HeaderProof) (tip : List ℕ)
      → (validate_chain ssl ps tip ≡ true) ↔ ((ps ≢ []) × All (IsTip tip) ps)
  unfolding validate_chain
  validate_chain_iff [] tip = ((λ h. cc), (λ h. absurd (h.0 refl)))
  validate_chain_iff (p ∷ ps) tip =
      let (there, back) = walk_iff (sha256d ssl p.header) ps tip in
      ((λ h. ((λ e. cc), there h)), (λ h. back h.1))

  newest_tip :
      (start : List ℕ) (ps : List HeaderProof) (tip : List ℕ)
      → start ≡ tip
      → All (IsTip tip) ps
      → newest ssl start ps ≡ tip
  unfolding newest
  newest_tip start [] tip e h = e
  newest_tip start (p ∷ ps) tip e h = newest_tip (sha256d ssl p.header) ps tip h.0 h.1

  newest_valid :
      (ps : List HeaderProof) (tip zero_tip : List ℕ)
      → validate_chain ssl ps tip ≡ true
      → newest ssl zero_tip ps ≡ tip
  unfolding newest
  newest_valid [] tip z v = absurd (((validate_chain_iff [] tip).0 v).0 refl)
  newest_valid (p ∷ ps) tip z v =
      let (n, h) = (validate_chain_iff (p ∷ ps) tip).0 v in
      newest_tip (sha256d ssl p.header) ps tip h.0 h.1

  same_tips :
      (m : Map (List ℕ) (List ℕ)) (name other tip : List ℕ)
      → find bytes_key name m ≡ some tip
      → find bytes_key other (assign bytes_key name tip m) ≡ find bytes_key other m
  same_tips m name other tip e = elim (Bool-cases (bytes_eq name other)) [
    | inl h ↦
        let s : name ≡ other = (bytes_eq_iff name other).0 h in
        rw (← s) (find-assign bytes_key name tip m ∙ sym e)
    | inr h ↦ find-assign_other bytes_key name other tip m h
  ]

  tips_if :
      (bridge : Bridge) (name : List ℕ) (ps : List HeaderProof) (tip : List ℕ) (b : Bool)
      (other : List ℕ)
      → find bytes_key name bridge.chain_tips ≡ some tip
      → validate_chain ssl ps tip ≡ b
      → find bytes_key other (store_if ssl bridge name ps b).1.chain_tips
        ≡ find bytes_key other bridge.chain_tips
  unfolding store_if
  tips_if bridge name ps tip false other e v = refl
  tips_if bridge name ps tip true other e v =
      ap (λ t. find bytes_key other (assign bytes_key name t bridge.chain_tips))
        (newest_valid ps tip (replicate 32 0) v)
      ∙ same_tips bridge.chain_tips name other tip e

  tips_at :
      (bridge : Bridge) (name : List ℕ) (ps : List HeaderProof) (o : Option (List ℕ))
      (other : List ℕ)
      → find bytes_key name bridge.chain_tips ≡ o
      → find bytes_key other (store_at ssl bridge name ps o).1.chain_tips
        ≡ find bytes_key other bridge.chain_tips
  unfolding store_at
  tips_at bridge name ps none other e = refl
  tips_at bridge name ps (some tip) other e =
      tips_if bridge name ps tip (validate_chain ssl ps tip) other e refl

  -- After `VerifyAndStore` the tip of every chain is what it was, whatever the proof and the answer.
  pub verify_and_store_keeps_tips :
      (bridge : Bridge) (name : List ℕ) (ps : List HeaderProof) (other : List ℕ)
      → find bytes_key other (verify_and_store ssl bridge name ps).1.chain_tips
        ≡ find bytes_key other bridge.chain_tips
  unfolding verify_and_store
  verify_and_store_keeps_tips bridge name ps other =
      tips_at bridge name ps (find bytes_key name bridge.chain_tips) other refl
