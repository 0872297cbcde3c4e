-- ===== src/Common/Maps.antt =====
-- `std::unordered_map` as an association list. The order of the list is the order in which the map is
-- gone through, which the source leaves open. Keys are compared by a Boolean test.
pub mod Distinct
pub mod Erase
use drachma_block_chain.Common.{
  arith, ℕ, ◌≡◌, refl, ap, ◌∙◌, ◌↔◌, List, [], ◌∷◌, ◌++◌, Bool, true, false, Option, none, some,
  Bool-cases, inl, inr, if◌then◌else◌, bytes_eq, bytes_eq_iff,
}

-- A key type with its equality test.
pub record KeyEq (K : Type 0) : Type 0 where
  pub same : K → K → Bool
  pub same_iff : (a b : K) → (same a b ≡ true) ↔ (a ≡ b)

abbrev pub Map : Type 0 → Type 0 → Type 0
Map K V = List (K × V)

module _ {K : Type 0} (eq : KeyEq K) where
  pub same_refl : (k : K) → eq.same k k ≡ true
  same_refl k = (eq.same_iff k k).1 refl

  same-false : (h k l : K) → eq.same h k ≡ true → eq.same k l ≡ false → eq.same h l ≡ false
  same-false h k l p q = let e : h ≡ k = (eq.same_iff h k).0 p in ap (λ x. eq.same x l) e ∙ q

  pub same-false_flip : (i k : K) → eq.same i k ≡ false → eq.same k i ≡ false
  same-false_flip i k miss = ground (arith, eq.same_iff i k, eq.same_iff k i)

module _ {K V : Type 0} (eq : KeyEq K) where
  -- `find`
  unfoldable pub find : K → Map K V → Option V
  find k [] = none
  find k ((h, v) ∷ m) = if eq.same h k then some v else find k m

  -- `count` and `find(..) != end()`
  unfoldable pub has : K → Map K V → Bool
  has k [] = false
  has k ((h, v) ∷ m) = if eq.same h k then true else has k m

  -- `m[k] = v`
  unfoldable pub assign : K → V → Map K V → Map K V
  assign k v [] = (k, v) ∷ []
  assign k v ((h, w) ∷ m) =
      let rest = assign k v m in if eq.same h k then (h, v) ∷ m else (h, w) ∷ rest

  -- `emplace`: an entry that is there stays.
  unfoldable pub emplace : K → V → Map K V → Map K V
  emplace k v m = if has k m then m else m ++ (k, v) ∷ []

  unfoldable pub erase : K → Map K V → Map K V
  erase k [] = []
  erase k ((h, w) ∷ m) = let rest = erase k m in if eq.same h k then rest else (h, w) ∷ rest

  pub find-assign : (k : K) (v : V) (m : Map K V) → find k (assign k v m) ≡ some v
  unfolding find assign
  find-assign k v [] = rw (same_refl eq k) refl
  find-assign k v ((h, w) ∷ m) = elim (Bool-cases (eq.same h k)) [
    | inl yes' ↦ rw yes' (rw yes' refl)
    | inr no' ↦ rw no' (rw no' (find-assign k v m))
  ]

  pub find-assign_other :
      (k l : K) (v : V) (m : Map K V) → eq.same k l ≡ false → find l (assign k v m) ≡ find l m
  unfolding find assign
  find-assign_other k l v [] h = rw h refl
  find-assign_other k l v ((i, w) ∷ m) h = elim (Bool-cases (eq.same i k)) [
    | inl yes' ↦ rw yes' (rw (same-false eq i k l yes' h) refl)
    | inr no' ↦ rw no' (ap (λ o. if eq.same i l then some w else o) (find-assign_other k l v m h))
  ]

  pub find-erase : (k : K) (m : Map K V) → find k (erase k m) ≡ none
  unfolding find erase
  find-erase k [] = refl
  find-erase k ((h, w) ∷ m) = elim (Bool-cases (eq.same h k)) [
    | inl yes' ↦ rw yes' (find-erase k m)
    | inr no' ↦ rw no' (rw no' (find-erase k m))
  ]

  pub find-erase_other :
      (k l : K) (m : Map K V) → eq.same k l ≡ false → find l (erase k m) ≡ find l m
  unfolding find erase
  find-erase_other k l [] h = refl
  find-erase_other k l ((i, w) ∷ m) h = elim (Bool-cases (eq.same i k)) [
    | inl yes' ↦ rw yes' (rw (same-false eq i k l yes' h) (find-erase_other k l m h))
    | inr no' ↦ rw no' (ap (λ o. if eq.same i l then some w else o) (find-erase_other k l m h))
  ]

  abbrev pub is_there : Option V → Bool
  is_there none = false
  is_there (some v) = true

  pub has-find : (k : K) (m : Map K V) → has k m ≡ is_there (find k m)
  unfolding find has
  has-find k [] = refl
  has-find k ((h, v) ∷ m) = elim (Bool-cases (eq.same h k)) [
    | inl yes' ↦ rw yes' refl
    | inr no' ↦ rw no' (has-find k m)
  ]

-- `std::array` and `std::string` keys.
abbrev pub bytes_key : KeyEq (List ℕ)
bytes_key = record { same = bytes_eq; same_iff = bytes_eq_iff }
