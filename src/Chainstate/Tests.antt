-- ===== src/Chainstate/Tests.antt =====
-- The theorems of layer1-core/chainstate/coins.cpp at a concrete set.
use drachma_block_chain.Common.{
  ℕ, ◌≡◌, ap, refl, ◌↔◌, ◌&&◌, [], ◌∷◌, Bool, true, some, replicate, corrupt_utxo_set, ok, err,
  ◌==◌, bytes_eq, arith, bytes_eq_iff, ==_iff, &&_iff,
}
use drachma_block_chain.Common.Maps.{KeyEq, has, erase}
use drachma_block_chain.Tx.{OutPoint, TxOut}
use drachma_block_chain.Chainstate.{load, load_utxos, persist, spend_utxo}
use drachma_block_chain.Common.Bytes.{le_value}
use drachma_block_chain.Common.Streams.{read_bytes, read_number}
use drachma_block_chain.Chainstate.RoundTrip.{load-persist}

-- `OutPointEq`
abbrev same_outpoint : OutPoint → OutPoint → Bool
same_outpoint a b = a.index == b.index && bytes_eq a.hash b.hash

same_outpoint_iff : (a b : OutPoint) → (same_outpoint a b ≡ true) ↔ (a ≡ b)
same_outpoint_iff a b = (there, back)
  where
    there : same_outpoint a b ≡ true → a ≡ b
    there h =
        let (i, k) = (&&_iff (a.index == b.index) (bytes_eq a.hash b.hash)).0 h in
        let p = (==_iff a.index b.index).0 i in let q = (bytes_eq_iff a.hash b.hash).0 k in cc

    back : a ≡ b → same_outpoint a b ≡ true
    back e = (&&_iff (a.index == b.index) (bytes_eq a.hash b.hash)).1 (
      (==_iff a.index b.index).1 (ap (λ o. o.index) e),
      (bytes_eq_iff a.hash b.hash).1 (ap (λ o. o.hash) e),
    )

abbrev outpoint_key : KeyEq OutPoint
outpoint_key = record { same = same_outpoint; same_iff = same_outpoint_iff }

abbrev out_of : ℕ → OutPoint
out_of n = record { hash = n ∷ []; index = 0 }

abbrev coin_of : ℕ → TxOut
coin_of n = record { value = n; script_pub_key = [] }

spends : spend_utxo outpoint_key ((out_of 1, coin_of 5) ∷ []) (out_of 1) ≡ ok []
unfolding spend_utxo has erase bytes_eq
spends = refl

load-persist_example :
    load outpoint_key
      (some (persist ((record { hash = replicate 32 9; index = 2 }, coin_of 5) ∷ [])))
    ≡ ok ((record { hash = replicate 32 9; index = 2 }, coin_of 5) ∷ [])
unfolding has
load-persist_example =
    load-persist outpoint_key ((record { hash = replicate 32 9; index = 2 }, coin_of 5) ∷ [])
      (omega arith) ((refl, omega arith, omega arith, omega arith), tt) (refl, tt)

-- A file that ends within an entry.
load_cut_off : load outpoint_key (some (1 ∷ 0 ∷ 0 ∷ 0 ∷ 9 ∷ [])) ≡ err corrupt_utxo_set
unfolding load load_utxos read_bytes read_number le_value
load_cut_off = refl
