-- ===== src/Crosschain.antt =====
-- layer2-services/crosschain: the proof validator, the bridge and the relayer that hands on to it, and
-- the messages. The bytes of a `uint32_t` are those of a little-endian host.
pub mod Laws
mod Tests
use drachma_block_chain.Common.{
  ℕ, List, [], ◌∷◌, ◌++◌, replicate, Bool, true, false, not, ◌&&◌, Option, none, some, bytes_eq,
  if◌then◌else◌,
}
use drachma_block_chain.Common.Bytes.{le_bytes}
use drachma_block_chain.Common.Maps.{Map, find, assign, bytes_key}
use drachma_block_chain.Tx.{size32}
use drachma_block_chain.Crypto.{OpenSsl, sha256, sha256d}

pub record HeaderProof : Type 0 where
  pub header : List ℕ
  pub height : ℕ

pub record CrossChainMessage : Type 0 where
  pub version : ℕ
  pub source : List ℕ
  pub destination : List ℕ
  pub payload : List ℕ

-- `writeStr`
unfoldable pub write_str : List ℕ → List ℕ → List ℕ
write_str out s = (out ++ le_bytes 4 (size32 s)) ++ s

-- `CrossChainMessage::Serialize`
unfoldable pub serialize_message : CrossChainMessage → List ℕ
serialize_message m =
    write_str (write_str (write_str (le_bytes 4 m.version) m.source) m.destination) m.payload

-- A `BridgeManager`.
pub record Bridge : Type 0 where
  pub chain_tips : Map (List ℕ) (List ℕ)
  pub messages : Map (List ℕ) (List CrossChainMessage)

module _ (ssl : OpenSsl) where
  -- The loop of `ValidateChain` after its first round.
  unfoldable pub walk : List ℕ → List HeaderProof → List ℕ → Bool
  walk prev [] tip = bytes_eq prev tip
  walk prev (p ∷ ps) tip =
      let hash = sha256d ssl p.header in
      let rest = walk hash ps tip in if not (bytes_eq hash prev) then false else rest

  -- `ValidateChain`
  unfoldable pub validate_chain : List HeaderProof → List ℕ → Bool
  validate_chain [] tip = false
  validate_chain (p ∷ ps) tip = walk (sha256d ssl p.header) ps tip

  -- The double hash of `proofs.back()`, and the zero tip of an empty list.
  unfoldable pub newest : List ℕ → List HeaderProof → List ℕ
  newest tip [] = tip
  newest tip (p ∷ ps) = newest (sha256d ssl p.header) ps

  -- `VerifyAndStore` below its two tests: whether the proofs are valid, and the tip that is found.
  unfoldable pub store_if : Bridge → List ℕ → List HeaderProof → Bool → Bool × Bridge
  store_if bridge name proofs false = (false, bridge)
  store_if bridge name proofs true = (
    true,
    record {
      chain_tips = assign bytes_key name (newest (replicate 32 0) proofs) bridge.chain_tips;
      messages = bridge.messages;
    },
  )

  unfoldable pub store_at : Bridge → List ℕ → List HeaderProof → Option (List ℕ) → Bool × Bridge
  store_at bridge name proofs none = (false, bridge)
  store_at bridge name proofs (some tip) = store_if bridge name proofs (validate_chain proofs tip)

  -- `VerifyAndStore`, which `Relayer::SubmitProof` calls: the answer and the bridge that is left.
  unfoldable pub verify_and_store : Bridge → List ℕ → List HeaderProof → Bool × Bridge
  verify_and_store bridge name proofs =
      store_at bridge name proofs (find bytes_key name bridge.chain_tips)

  -- `CrossChainMessage::Hash`
  unfoldable pub message_hash : CrossChainMessage → List ℕ
  message_hash m = sha256 ssl (serialize_message m)

-- `RegisterChain`
unfoldable pub register_chain : Bridge → List ℕ → List ℕ → Bridge
register_chain bridge name genesis = record {
  chain_tips = assign bytes_key name genesis bridge.chain_tips;
  messages = bridge.messages;
}

-- `PendingFor`
unfoldable pub pending_for : Bridge → List ℕ → List CrossChainMessage
pending_for bridge chain = elim (find bytes_key chain bridge.messages) [ none ↦ [] | some ms ↦ ms ]

-- `RelayMessage`, which `Relayer::Forward` calls.
unfoldable pub relay_message : Bridge → List ℕ → CrossChainMessage → Bridge
relay_message bridge dest m = record {
  chain_tips = bridge.chain_tips;
  messages = assign bytes_key dest (pending_for bridge dest ++ m ∷ []) bridge.messages;
}
