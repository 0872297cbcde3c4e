-- ===== src/BlockStore/Contract.antt =====
-- What layer1-core/storage/blockstore.cpp promises: the files and the index stand for a map from heights
-- to blocks, through any sequence of writes and restarts.
use drachma_block_chain.Common.{
  ℕ, ◌≡◌, refl, sym, ◌∙◌, ◌⊎◌, inl, inr, arith, List, [], ◌∷◌, ◌++◌, length, true, ◌==◌, ==_iff,
  Bool-cases, Option, none, some, Result, ok, err, unknown_height, ok-injective,
}
use mathlib.Core.Path.{subst}
use native.Mathlib.Nat.{mod-eq_of_lt}
use drachma_block_chain.Common.Bytes.{IsU32, IsU64, le_bytes}
use drachma_block_chain.Common.Maps.{Map, find, assign, find-assign, find-assign_other}
use drachma_block_chain.Common.Maps.Distinct.{IsDistinct, assign-IsDistinct}
use drachma_block_chain.Tx.{size32}
use drachma_block_chain.Block.{Block}
use drachma_block_chain.BlockStore.{
  BlockStore, height_key, block_buffer, flush_index, write_block, read_at, read_block, load_index,
  open_store,
}
use drachma_block_chain.BlockStore.Records.{IsBlock, parse_block-block_buffer}
use drachma_block_chain.BlockStore.Reads.{
  IsIndex, read_at-append, read_at-end, load_index-flush_index,
}

-- The abstract store: what stands at each height.
abbrev pub Blocks : Type 0
Blocks = Map ℕ Block

abbrev pub answer : Option Block → Result Block
answer none = err unknown_height
answer (some block) = ok block

-- An offset of the index against a block of the abstract store.
abbrev Matches : List ℕ → Option ℕ → Option Block → Type 0
Matches file none none = Unit
Matches file (some pos) (some block) = read_at file (some pos) ≡ ok block
Matches file none (some block) = ⊥
Matches file (some pos) none = ⊥

record Represents (store : BlockStore) (blocks : Blocks) : Type 0 where
  matches : (h : ℕ) → Matches store.file (find height_key h store.index) (find height_key h blocks)
  in_range : IsIndex store.index
  distinct : IsDistinct height_key store.index
  small : IsU32 (length store.index)
  saved :
      (store.index_file ≡ some (flush_index store.index))
      ⊎ ((store.index ≡ []) × (store.index_file ≡ none))

-- The stores that writes and restarts lead to, with the blocks written so far: the last one at each
-- height. Blocks and heights fit their fields, and neither the file nor the index outgrows its counter.
pub data Run (tell : List ℕ → ℕ) : BlockStore → Blocks → Type 0 where
  create : (junk : ℕ → ℕ × ℕ) {s : BlockStore} → s ≡ open_store junk [] none → Run tell s []
  write :
      {s s' : BlockStore} {m m' : Blocks} (h : ℕ) (b : Block)
      → Run tell s m
      → IsU32 h
      → IsBlock b
      → IsU32 (length (block_buffer b))
      → IsU64 (length s.file)
      → IsU32 (length s'.index)
      → write_block tell true s h b ≡ ok s'
      → m' ≡ assign height_key h b m
      → Run tell s' m'
  reopen :
      (junk : ℕ → ℕ × ℕ) {s s' : BlockStore} {m : Blocks}
      → Run tell s m
      → s' ≡ open_store junk s.file s.index_file
      → Run tell s' m

Matches-answer :
    (file : List ℕ) (at : Option ℕ) (block : Option Block)
    → Matches file at block
    → read_at file at ≡ answer block
Matches-answer file none none h = unfold read_at in refl
Matches-answer file (some pos) (some block) h = h
Matches-answer file none (some block) h = absurd h
Matches-answer file (some pos) none h = absurd h

Matches-append :
    (file more : List ℕ) (at : Option ℕ) (block : Option Block)
    → Matches file at block
    → Matches (file ++ more) at block
Matches-append file more none none h = h
Matches-append file more (some pos) (some block) h = read_at-append file more (some pos) block h
Matches-append file more none (some block) h = absurd h
Matches-append file more (some pos) none h = absurd h

assign-IsIndex :
    (h pos : ℕ) (m : Map ℕ ℕ)
    → IsU32 h
    → IsU64 pos
    → IsIndex m
    → IsIndex (assign height_key h pos m)
unfolding assign
assign-IsIndex h pos [] a b v = ((a, b), tt)
assign-IsIndex h pos ((i, p) ∷ m) a b v = elim (Bool-cases (i == h)) [
  | inl hit ↦ rw hit ((v.0.0, b), v.1)
  | inr miss ↦ rw miss (v.0, assign-IsIndex h pos m a b v.1)
]

module _ (tell : List ℕ → ℕ) (at_end : (file : List ℕ) → tell file ≡ length file) where
  -- The store that a write leaves.
  written : BlockStore → ℕ → Block → BlockStore
  written s h b =
      let index = assign height_key h (length s.file) s.index in
      record {
        file = s.file ++ (le_bytes 4 (size32 (block_buffer b)) ++ block_buffer b);
        index = index;
        index_file = some (flush_index index);
      }

  write_block_lem :
      (s : BlockStore) (h : ℕ) (b : Block)
      → IsU64 (length s.file)
      → write_block tell true s h b ≡ ok (written s h b)
  unfolding write_block written
  write_block_lem s h b small = rw (at_end s.file, mod-eq_of_lt small) refl

  write-matches :
      (s : BlockStore) (m : Blocks) (h : ℕ) (b : Block) (i : ℕ)
      → Represents s m
      → IsBlock b
      → IsU32 (length (block_buffer b))
      → Matches
          (written s h b).file
          (find height_key i (written s h b).index)
          (find height_key i (assign height_key h b m))
  unfolding written
  write-matches s m h b i r v small = elim (Bool-cases (h == i)) [
    | inl hit ↦
        let e : h ≡ i = (==_iff h i).0 hit in
        rw (← e, find-assign height_key h (length s.file) s.index, find-assign height_key h b m)
          (read_at-end s.file (block_buffer b) small ∙ parse_block-block_buffer b v)
    | inr miss ↦
        rw
          (
            find-assign_other height_key h i (length s.file) s.index miss,
            find-assign_other height_key h i b m miss,
          )
          (Matches-append s.file _ (find height_key i s.index) (find height_key i m) (r.matches i))
  ]

  write-Represents :
      (s : BlockStore) (m : Blocks) (h : ℕ) (b : Block)
      → Represents s m
      → IsU32 h
      → IsBlock b
      → IsU32 (length (block_buffer b))
      → IsU64 (length s.file)
      → IsU32 (length (written s h b).index)
      → Represents (written s h b) (assign height_key h b m)
  unfolding written
  write-Represents s m h b r a v small fits count = record {
    matches = λ i. write-matches s m h b i r v small;
    in_range = assign-IsIndex h (length s.file) s.index a fits r.in_range;
    distinct = assign-IsDistinct height_key h (length s.file) s.index r.distinct;
    small = count;
    saved = inl refl;
  }

  loaded :
      (junk : ℕ → ℕ × ℕ) (s : BlockStore) (m : Blocks)
      → Represents s m
      → load_index junk s.index_file ≡ s.index
  loaded junk s m r = elim r.saved [
    | inl e ↦ rw e (load_index-flush_index junk s.index r.small r.in_range r.distinct)
    | inr (empty, e) ↦ rw (e, empty) (unfold load_index in refl)
  ]

  reopen-Represents :
      (junk : ℕ → ℕ × ℕ) (s : BlockStore) (m : Blocks)
      → Represents s m
      → Represents (open_store junk s.file s.index_file) m
  unfolding open_store
  reopen-Represents junk s m r =
      subst
        (λ index. Represents (record { file = s.file; index = index; index_file = s.index_file }) m)
        (sym (loaded junk s m r))
        (record {
          matches = r.matches;
          in_range = r.in_range;
          distinct = r.distinct;
          small = r.small;
          saved = r.saved;
        })

  empty-Represents : (junk : ℕ → ℕ × ℕ) → Represents (open_store junk [] none) []
  unfolding open_store load_index find
  empty-Represents junk = record {
    matches = λ h. tt;
    in_range = tt;
    distinct = tt;
    small = omega arith;
    saved = inr (refl, refl);
  }

  Run-Represents : {s : BlockStore} {m : Blocks} → Run tell s m → Represents s m
  Run-Represents (create junk e) = subst (λ t. Represents t []) (sym e) (empty-Represents junk)
  Run-Represents {s} {m} (reopen junk r e) =
      subst (λ t. Represents t m) (sym e) (reopen-Represents junk _ m (Run-Represents r))
  Run-Represents {s} (write {s = s₀} {m = m₀} h b r a v small fits count e e') =
      let same : written s₀ h b ≡ s = ok-injective (sym (write_block_lem s₀ h b fits) ∙ e) in
      subst (λ t. Represents s t) (sym e')
        (subst (λ t. Represents t (assign height_key h b m₀)) same
          (write-Represents s₀ m₀ h b (Run-Represents r) a v small fits
            (subst (λ t. IsU32 (length t.index)) (sym same) count)))

  -- Through any sequence of writes that return and restarts, from an empty store on, `ReadBlock` answers,
  -- at every height, the block that was written there last, and throws exactly where none was. The blocks
  -- are well formed, the heights, the sizes and the number of entries fit their fields, and a stream that
  -- is opened to append stands at the end of the file.
  pub read_block_refines :
      (s : BlockStore) (blocks : Blocks) (h : ℕ)
      → Run tell s blocks
      → read_block s h ≡ answer (find height_key h blocks)
  unfolding read_block
  read_block_refines s blocks h r = Matches-answer s.file _ _ ((Run-Represents r).matches h)
