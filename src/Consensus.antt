-- ===== src/Consensus.antt =====
-- layer1-core/consensus: the parameters and the money supply, and the activation of deployments.
pub mod Params
pub mod Supply
pub mod VersionBits
mod Tests
