-- ===== src/Config/Text.antt =====
-- `Trim` and `std::getline` as common/config/config.cpp uses them.
use drachma_block_chain.Common.{
  ℕ, ◌≡◌, refl, ap, ◌∙◌, List, [], ◌∷◌, ◌++◌, All, Bool, true, false, ◌==◌, ◌&&◌, if◌then◌else◌,
  Bool-cases, inl, inr,
}
use drachma_block_chain.Config.{
  is_space, is_empty, drop_spaces, cut_spaces, trim, before_line, get_lines,
}

abbrev pub IsSpaces : List ℕ → Type 0
IsSpaces pad = All (λ c. is_space c ≡ true) pad

-- A text that has no space at its front, or at its end.
abbrev pub HasCleanFront : List ℕ → Type 0
HasCleanFront [] = Unit {0}
HasCleanFront (c ∷ cs) = is_space c ≡ false

abbrev pub HasCleanEnd : List ℕ → Type 0
HasCleanEnd s = cut_spaces s ≡ s

pub drop_spaces_front : (pad s : List ℕ) → IsSpaces pad → drop_spaces (pad ++ s) ≡ drop_spaces s
unfolding drop_spaces
drop_spaces_front [] s h = refl
drop_spaces_front (c ∷ pad) s h = rw h.0 (drop_spaces_front pad s h.1)

pub drop_spaces_clean : (s : List ℕ) → HasCleanFront s → drop_spaces s ≡ s
unfolding drop_spaces
drop_spaces_clean [] h = refl
drop_spaces_clean (c ∷ cs) h = rw h

cut_spaces_pad : (pad : List ℕ) → IsSpaces pad → cut_spaces pad ≡ []
unfolding cut_spaces is_empty
cut_spaces_pad [] h = refl
cut_spaces_pad (c ∷ pad) h = rw (h.0, cut_spaces_pad pad h.1)

pub cut_spaces_end : (s pad : List ℕ) → IsSpaces pad → cut_spaces (s ++ pad) ≡ cut_spaces s
unfolding cut_spaces
cut_spaces_end [] pad h = cut_spaces_pad pad h
cut_spaces_end (c ∷ cs) pad h = rw (cut_spaces_end cs pad h)

and_not_empty :
    (d : Bool) (s : List ℕ) (c : ℕ) (rest : List ℕ) → (d && is_empty (s ++ c ∷ rest)) ≡ false
unfolding is_empty
and_not_empty true [] c rest = refl
and_not_empty true (x ∷ s) c rest = refl
and_not_empty false s c rest = refl

-- What stands before a character that is no space is kept.
pub cut_spaces_before :
    (s : List ℕ) (c : ℕ) (rest : List ℕ)
    → is_space c ≡ false
    → cut_spaces (s ++ c ∷ rest) ≡ s ++ c ∷ cut_spaces rest
unfolding cut_spaces
cut_spaces_before [] c rest h = rw h
cut_spaces_before (d ∷ s) c rest h =
    rw (cut_spaces_before s c rest h) (rw (and_not_empty (is_space d) s c (cut_spaces rest)))

cut_spaces_twice : (s : List ℕ) → cut_spaces (cut_spaces s) ≡ cut_spaces s
unfolding cut_spaces is_empty
cut_spaces_twice [] = refl
cut_spaces_twice (c ∷ cs) = elim (Bool-cases (is_space c && is_empty (cut_spaces cs))) [
  | inl yes' ↦ rw yes'
  | inr no' ↦ rw no' (rw (cut_spaces_twice cs, no'))
]

skip_space :
    (c : ℕ) (rest : List ℕ)
    → is_space c ≡ true
    → drop_spaces (if is_empty rest then [] else c ∷ rest) ≡ drop_spaces rest
unfolding drop_spaces is_empty
skip_space c [] h = refl
skip_space c (d ∷ rest) h = rw h

drop-cut_spaces : (s : List ℕ) → drop_spaces (cut_spaces s) ≡ cut_spaces (drop_spaces s)
unfolding drop_spaces cut_spaces
drop-cut_spaces [] = refl
drop-cut_spaces (c ∷ cs) = elim (Bool-cases (is_space c)) [
  | inl yes' ↦ rw yes' (skip_space c (cut_spaces cs) yes' ∙ drop-cut_spaces cs)
  | inr no' ↦ rw no' (rw no')
]

all_dropped : (pad : List ℕ) → IsSpaces pad → drop_spaces pad ≡ []
unfolding drop_spaces
all_dropped [] h = refl
all_dropped (c ∷ pad) h = rw h.0 (all_dropped pad h.1)

-- A text in spaces is trimmed to the text, also when the spaces at the end are gone already.
pub trim_padded :
    (pad s pad' : List ℕ)
    → IsSpaces pad
    → IsSpaces pad'
    → HasCleanFront s
    → HasCleanEnd s
    → trim (pad ++ (s ++ pad')) ≡ s
unfolding trim
trim_padded pad [] pad' h h' front end =
    ap cut_spaces (drop_spaces_front pad pad' h ∙ all_dropped pad' h') ∙ cut_spaces_pad [] tt
trim_padded pad (c ∷ cs) pad' h h' front end =
    ap cut_spaces
      (drop_spaces_front pad (c ∷ (cs ++ pad')) h ∙ drop_spaces_clean (c ∷ (cs ++ pad')) front)
    ∙ cut_spaces_end (c ∷ cs) pad' h'
    ∙ end

pub trim-cut_spaces : (s : List ℕ) → trim (cut_spaces s) ≡ trim s
unfolding trim
trim-cut_spaces s = ap cut_spaces (drop-cut_spaces s) ∙ cut_spaces_twice (drop_spaces s)

-- A line without a newline, and those behind it.
pub get_lines_cons :
    (line rest : List ℕ)
    → All (λ c. (c == 10) ≡ false) line
    → get_lines (line ++ 10 ∷ rest) ≡ line ∷ get_lines rest
unfolding get_lines before_line
get_lines_cons [] rest h = refl
get_lines_cons (c ∷ line) rest h = rw (h.0, get_lines_cons line rest h.1)
