-- ===== src/Desktop.antt =====
-- layer3-app/qt/main.cpp: what the desktop application keeps and does below its widgets. A slot runs to its
-- end before the next one, in the one thread of the event loop; the signals that an operation emits are
-- part of its answer. A text is the list of its characters.
pub mod Wallet
pub mod Node
pub mod Mining
pub mod Window
use drachma_block_chain.Common.{
  ℕ, suc, zero, ◌+◌, ◌/◌, ◌%◌, List, [], ◌∷◌, ◌++◌, ltb, if◌then◌else◌, Bool,
}
use drachma_block_chain.Common.Digits.{decimal}
use drachma_block_chain.Common.Int.{ℤ, pos, negsuc}

unfoldable pub decimal_ℤ : ℤ → List ℕ
decimal_ℤ (pos n) = decimal n
decimal_ℤ (negsuc n) = 45 ∷ decimal (n + 1)

-- The numbers of type `double`: what the code does with them.
pub record Doubles : Type 1 where
  pub Double : Type 0
  -- A literal, as its digits and the number of those behind the point
  pub literal : ℕ → ℕ → Double
  pub from_int : ℤ → Double
  pub plus : Double → Double → Double
  pub times : Double → Double → Double
  pub less : Double → Double → Bool
  -- `static_cast<qint64>`
  pub truncate : Double → ℤ
