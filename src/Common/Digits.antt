-- ===== src/Common/Digits.antt =====
-- Numbers as texts: how `QString::arg` and a stream print them.
use Prim.Native.Nat.{ℕ, zero, suc, ◌+◌, ◌/◌, ◌%◌}
use mathlib.Core.List.{List, [], ◌∷◌, ◌++◌}
use drachma_block_chain.Common.{ltb, if◌then◌else◌}

unfoldable pub digit_char : ℕ → ℕ
digit_char d = if ltb d 10 then 48 + d else 87 + d

-- The digits of a number to a base, from the last one on; a digit for each round.
unfoldable pub digits : ℕ → ℕ → ℕ → List ℕ
digits base zero n = []
digits base (suc fuel) n =
    let front = digits base fuel (n / base) in
    if ltb n base then digit_char n ∷ [] else front ++ digit_char (n % base) ∷ []

unfoldable pub decimal : ℕ → List ℕ
decimal n = digits 10 (n + 1) n

unfoldable pub hexadecimal : ℕ → List ℕ
hexadecimal n = digits 16 (n + 1) n
