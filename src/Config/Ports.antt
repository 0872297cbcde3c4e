-- ===== src/Config/Ports.antt =====
-- `ToPort` of common/config/config.cpp.
use drachma_block_chain.Common.{
  ℕ, ◌+◌, ◌-◌, ◌*◌, ◌^◌, ◌≤◌, ◌<◌, ◌≡◌, sym, ap, ◌∙◌, arith, List, [], ◌∷◌, ◌++◌, map, length, All,
  true, false, ltb, ◌==◌, ◌||◌, if◌then◌else◌, Option, none, some,
}
use drachma_block_chain.Common.Int.{ℤ, pos, negsuc}
use drachma_block_chain.Config.{
  is_space, is_digit, scan_digits, scan_number, signed, scan_sign, stoi, port_of, to_port,
}
use drachma_block_chain.Config.Text.{IsSpaces, drop_spaces_front, drop_spaces_clean}
use native.Mathlib.Nat.{pow-suc}

-- The number that decimal digits stand for, and the digits as characters.
abbrev pub decimal_value : List ℕ → ℕ
decimal_value [] = 0
decimal_value (d ∷ ds) = d * 10 ^ length ds + decimal_value ds

abbrev pub shown : List ℕ → List ℕ
shown ds = map (λ d. 48 + d) ds

abbrev pub AreDigits : List ℕ → Type 0
AreDigits ds = All (λ d. d < 10) ds

-- A text that starts with no digit.
abbrev pub EndsNumber : List ℕ → Type 0
EndsNumber [] = Unit {0}
EndsNumber (c ∷ cs) = is_digit c ≡ false

shown_digit : (d : ℕ) → d < 10 → is_digit (48 + d) ≡ true
unfolding is_digit
shown_digit d h = ground arith

scan_step :
    (value c : ℕ) (cs : List ℕ)
    → is_digit c ≡ true
    → scan_digits value (c ∷ cs) ≡ scan_digits (value * 10 + (c - 48)) cs
unfolding scan_digits
scan_step value c cs h = rw h

spread : (v d p r : ℕ) → (v * 10 + (48 + d - 48)) * p + r ≡ v * (p * 10) + (d * p + r)
spread v d p r = ap (λ (n : ℕ). (v * 10 + n) * p + r) (back d) ∙ grind arith
  where
    back : (d : ℕ) → 48 + d - 48 ≡ d
    back d = omega arith

scan_digits-shown :
    (value : ℕ) (ds rest : List ℕ)
    → AreDigits ds
    → EndsNumber rest
    → scan_digits value (shown ds ++ rest) ≡ value * 10 ^ length ds + decimal_value ds
unfolding scan_digits
scan_digits-shown value [] [] h e = omega arith
scan_digits-shown value [] (c ∷ rest) h e = rw e (omega arith)
scan_digits-shown value (d ∷ ds) rest h e =
    scan_step value (48 + d) (shown ds ++ rest) (shown_digit d h.0)
    ∙ scan_digits-shown (value * 10 + (48 + d - 48)) ds rest h.1 e
    ∙ spread value d (10 ^ length ds) (decimal_value ds)
    ∙ ap (λ (n : ℕ). value * n + (d * 10 ^ length ds + decimal_value ds))
        (sym (pow-suc 10 (length ds)))

-- The fallback, where a value is no port.
abbrev pub port_or : ℕ → ℕ → ℕ
port_or value fallback = if value == 0 || ltb 65535 value then fallback else value

port_of-signed : (v fallback : ℕ) → port_of (signed false v) fallback ≡ port_or v fallback
unfolding signed port_of
port_of-signed v fallback = ground arith

digit_front :
    (d : ℕ)
    → d < 10
    → (is_space (48 + d) ≡ false) × ((48 + d == 45) ≡ false) × ((48 + d == 43) ≡ false)
unfolding is_space
digit_front d h = (ground arith, ground arith, ground arith)

scan_sign_digit :
    (c : ℕ) (cs : List ℕ)
    → is_digit c ≡ true
    → (c == 45) ≡ false
    → (c == 43) ≡ false
    → scan_sign (c ∷ cs) ≡ signed false (scan_digits 0 (c ∷ cs))
unfolding scan_sign scan_number
scan_sign_digit c cs h minus plus =
    rw (scan_sign, minus, plus, scan_number, h) (ap (λ m. signed m (scan_digits 0 (c ∷ cs))) minus)

-- ToPort on decimal digits, with spaces before them and any text after them that starts with no digit: it
-- answers the number, or the fallback where the number is 0 or above 65535, however many digits it has.
pub to_port-shown :
    (pad ds rest : List ℕ) (fallback : ℕ)
    → 0 < length ds
    → IsSpaces pad
    → AreDigits ds
    → EndsNumber rest
    → to_port (pad ++ (shown ds ++ rest)) fallback ≡ port_or (decimal_value ds) fallback
unfolding to_port stoi
to_port-shown pad [] rest fallback some_digit p h e = absurd (omega arith)
to_port-shown pad (d ∷ ds) rest fallback some_digit p h e =
    let (space, minus, plus) = digit_front d h.0 in
    let text = shown (d ∷ ds) ++ rest in
    let front = drop_spaces_front pad text p ∙ drop_spaces_clean text space in
    let value = scan_digits-shown 0 (d ∷ ds) rest h e ∙ whole (decimal_value (d ∷ ds)) in
    ap (λ t. port_of (scan_sign t) fallback) front
    ∙ ap (λ v. port_of v fallback)
        (scan_sign_digit (48 + d) (shown ds ++ rest) (shown_digit d h.0) minus plus)
    ∙ ap (λ v. port_of (signed false v) fallback) value
    ∙ port_of-signed (decimal_value (d ∷ ds)) fallback
  where
    whole : (n : ℕ) → 0 * 10 ^ length (d ∷ ds) + n ≡ n
    whole n = omega arith

-- Whatever the text is, ToPort answers a port, given a fallback that is one.
pub to_port_bounds :
    (s : List ℕ) (fallback : ℕ)
    → 0 < fallback
    → fallback ≤ 65535
    → (0 < to_port s fallback) × (to_port s fallback ≤ 65535)
unfolding to_port
to_port_bounds s fallback lo hi = kept (stoi s)
  where
    kept : (v : Option ℤ) → (0 < port_of v fallback) × (port_of v fallback ≤ 65535)
    kept none = unfold port_of in (lo, hi)
    kept (some (negsuc v)) = unfold port_of in (lo, hi)
    kept (some (pos v)) = unfold port_of in ground arith
