-- ===== src/Common/Maps/Distinct.antt =====
-- Maps in which no key stands twice, as every `std::unordered_map` is, and the loops that fill a map
-- from a list of entries.
use drachma_block_chain.Common.{
  ◌≡◌, refl, sym, ap, ◌∙◌, [], ◌∷◌, ◌++◌, append-nil, append_assoc, true, false, Bool-cases, inl,
  inr,
}
use mathlib.Core.Path.{subst}
use drachma_block_chain.Common.Maps.{KeyEq, Map, has, assign, emplace, same_refl, same-false_flip}

module _ {K V : Type 0} (eq : KeyEq K) where
  abbrev pub IsDistinct : Map K V → Type 0
  IsDistinct [] = Unit
  IsDistinct ((k, v) ∷ m) = (has eq k m ≡ false) × IsDistinct m

  -- The loops `for (..) m.emplace(k, v)` and `for (..) m[k] = v`.
  unfoldable pub emplace_all : Map K V → Map K V → Map K V
  emplace_all [] m = m
  emplace_all ((k, v) ∷ entries) m = emplace_all entries (emplace eq k v m)

  unfoldable pub assign_all : Map K V → Map K V → Map K V
  assign_all [] m = m
  assign_all ((k, v) ∷ entries) m = assign_all entries (assign eq k v m)

  -- A key that comes later is not among the earlier ones.
  later_key :
      (m : Map K V) (k : K) (v : V) (rest : Map K V)
      → IsDistinct (m ++ (k, v) ∷ rest)
      → has eq k m ≡ false
  unfolding has
  later_key [] k v rest d = refl
  later_key ((h, w) ∷ m) k v rest d = elim (Bool-cases (eq.same h k)) [
    | inl hit ↦ absurd (cc (d.0, passes_on m hit))
    | inr miss ↦ rw miss (later_key m k v rest d.1)
  ]
    where
      passes_on : (m : Map K V) → eq.same h k ≡ true → has eq h (m ++ (k, v) ∷ rest) ≡ true
      passes_on [] hit = rw (ap (λ x. eq.same k x) ((eq.same_iff h k).0 hit) ∙ same_refl eq k) refl
      passes_on ((i, u) ∷ m) hit = elim (Bool-cases (eq.same i h)) [
        | inl e ↦ rw e refl
        | inr e ↦ rw e (passes_on m hit)
      ]

  pub emplace_new :
      (k : K) (v : V) (m : Map K V) → has eq k m ≡ false → emplace eq k v m ≡ m ++ (k, v) ∷ []
  unfolding emplace
  emplace_new k v m h = rw h refl

  assign_new :
      (k : K) (v : V) (m : Map K V) → has eq k m ≡ false → assign eq k v m ≡ m ++ (k, v) ∷ []
  unfolding assign has
  assign_new k v [] h = refl
  assign_new k v ((i, w) ∷ m) h = elim (Bool-cases (eq.same i k)) [
    | inl hit ↦ absurd (cc (rw hit at h))
    | inr miss ↦ rw miss (ap (λ t. (i, w) ∷ t) (assign_new k v m (rw miss at h)))
  ]

  -- Where no key stands twice, entries that are put into a map come after those that are there.
  pub emplace_all_lem :
      (entries m : Map K V) → IsDistinct (m ++ entries) → emplace_all entries m ≡ m ++ entries
  unfolding emplace_all
  emplace_all_lem [] m d = sym (append-nil m)
  emplace_all_lem ((k, v) ∷ entries) m d =
      let regroup = append_assoc m ((k, v) ∷ []) entries in
      ap (emplace_all entries) (emplace_new k v m (later_key m k v entries d))
      ∙ emplace_all_lem entries (m ++ (k, v) ∷ []) (subst IsDistinct (sym regroup) d)
      ∙ regroup

  pub assign_all_lem :
      (entries m : Map K V) → IsDistinct (m ++ entries) → assign_all entries m ≡ m ++ entries
  unfolding assign_all
  assign_all_lem [] m d = sym (append-nil m)
  assign_all_lem ((k, v) ∷ entries) m d =
      let regroup = append_assoc m ((k, v) ∷ []) entries in
      ap (assign_all entries) (assign_new k v m (later_key m k v entries d))
      ∙ assign_all_lem entries (m ++ (k, v) ∷ []) (subst IsDistinct (sym regroup) d)
      ∙ regroup

  has-assign_other :
      (h k : K) (v : V) (m : Map K V)
      → eq.same k h ≡ false
      → has eq h m ≡ false
      → has eq h (assign eq k v m) ≡ false
  unfolding has assign
  has-assign_other h k v [] n e = rw n refl
  has-assign_other h k v ((i, w) ∷ m) n e = elim (Bool-cases (eq.same i k)) [
    | inl hit ↦ rw hit (elim (Bool-cases (eq.same i h)) [
      | inl p ↦ absurd (cc (rw p at e))
      | inr p ↦ rw p (rw p at e)
    ])
    | inr miss ↦ rw miss (elim (Bool-cases (eq.same i h)) [
      | inl p ↦ absurd (cc (rw p at e))
      | inr p ↦ rw p (has-assign_other h k v m n (rw p at e))
    ])
  ]

  pub assign-IsDistinct :
      (k : K) (v : V) (m : Map K V) → IsDistinct m → IsDistinct (assign eq k v m)
  unfolding assign
  assign-IsDistinct k v [] d = (unfold has in refl, tt)
  assign-IsDistinct k v ((i, w) ∷ m) d = elim (Bool-cases (eq.same i k)) [
    | inl hit ↦ rw hit d
    | inr miss ↦
        rw miss
          (has-assign_other i k v m (same-false_flip eq i k miss) d.0, assign-IsDistinct k v m d.1)
  ]
