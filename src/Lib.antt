-- ===== src/Lib.antt =====
-- The core of the DRACHMA block chain: transactions, signatures, blocks, the merkle tree, the
-- consensus parameters, proof of work, the acceptance of blocks, the activation of deployments, the
-- genesis block, the cross-chain bridge and the mempool, and around it what is kept in files, the
-- wallet's keys, the node's worker thread, the RPC server, the CPU and CUDA miners, the configuration,
-- the log and the desktop application. A block comes in as a header and transactions; `ValidateBlock`
-- tests its work (Pow), its transactions against the outputs that a callback knows (Validation, which
-- verifies signatures through Block and Crypto over the bytes that Tx writes) and its merkle root
-- (Merkle). The parameters of a network (Consensus) bound the money and the targets.
--
-- - Common: shared names, tests, lists, results with an error, laws of bits, little-endian numbers, signed
--   integers, association lists (Common.Maps) and file streams that are read (Common.Streams).
-- - Tx: layer1-core/tx/transaction.cpp. `Serialize` is serialize, `DeserializeTransaction` is
--   deserialize_transaction; a reader returns its value and the bytes that are left.
-- - Crypto: layer1-core/crypto and layer1-core/pow/sha256d.cpp. OpenSSL is the record OpenSsl of parameters:
--   the streaming SHA-256 and the arithmetic of secp256k1. Crypto.Sample is a stand-in for the tests.
--   Crypto.Signatures takes the laws of the group as hypotheses.
-- - Block: layer1-core/block and layer1-core/script/interpreter.cpp (`VerifyScript` is verify_script).
-- - Merkle: layer1-core/merkle/merkle.cpp. The loop runs on fuel, one for each hash, which is enough.
-- - Consensus: layer1-core/consensus/params.cpp, and versioning/versionbits.cpp in Consensus.VersionBits.
-- - Pow: layer1-core/pow/difficulty.cpp. Targets are natural numbers, as cpp_int is unbounded; the loop that
--   counts the bytes of a target runs on fuel, one round for each byte, which is enough.
-- - Validation: layer1-core/validation/validation.cpp. A `bool` function answers pass, reject (`return false`)
--   or throws; the set of outpoints seen is a list that is only searched and added to. Validation.Ledger
--   describes valid blocks without the state of the loops; Validation.Equivalence compares the two.
-- - Genesis: layer1-core/consensus/genesis.cpp. The nonce loop has 2^32 - 1 rounds, as in the source; what a
--   shift by a negative number does is the parameter `shift_negative`. Genesis.Tool: testnet/genesis.cpp.
-- - Chainstate: layer1-core/chainstate/coins.cpp. A file is the list of its bytes.
-- - BlockStore: layer1-core/storage/blockstore.cpp. `tell` is what `tellp` answers on a stream that was opened
--   to append, `junk` what the variables hold that a failed read leaves uninitialised.
-- - TxIndex: layer2-services/index/txindex.cpp. The loop of `Load` has a round for each byte and one more,
--   which is enough, as each round takes 36 bytes or ends.
-- - KeyStore: layer2-services/wallet/keystore/keystore.cpp. The key derivation and the cipher of OpenSSL are
--   the record Cipher of parameters, whose lengths are `int`; the loop of `LoadFromFile` has a round for each byte, which is enough, as
--   each takes 64.
-- - Mempool: layer2-services/policy and layer2-services/mempool; the time of an entry is an argument.
-- - Crosschain: layer2-services/crosschain; a map is an association list.
-- - P2p: layer2-services/net/p2p.cpp. The threads are the step relation Step; the worker holds the mutex
--   between its test of `m_running` and its wait or the look-up of a handler, and `Stop` is three steps. That
--   a called handler returns is a step that is always possible.
-- - Rpc: layer2-services/rpc/rpcserver.cpp. A handler is a function.
-- - Miner: miners/cpu/main.cpp. The loop over the nonces has 2^32 rounds of fuel, which is enough, as a nonce
--   has 32 bits.
-- - Gpu: miners/gpu-cuda/kernel.cu. A launch runs its threads in the order in which they exchange the flag;
--   what a thread read of the flag at its start is an argument.
-- - Desktop: layer3-app/qt/main.cpp. Desktop.Wallet is `WalletServiceClient`, Desktop.Node
--   `NodeProcessController`, Desktop.Mining `MiningManager`, Desktop.Window the slots of `MainWindow`, whose
--   dialogs answer by arguments; Desktop.Window.Delivery runs the connected slots under the wallet's mutex.
--   `double` is the record Doubles of parameters, `QSettings` the interface Settings.
-- - Config: common/config/config.cpp in its POSIX build. The file system and the environment are the record Host.
-- - Log: common/log/log.cpp. What is written is kept in the state; the clock is an argument.
--
-- Machine integers keep their bounds: the tests against overflow are those of the source, `% 2 ^ w` is
-- written out where the source wraps round, `to_int32` is a cast to `int` and `wrap64` the arithmetic of
-- `std::atomic<qint64>`, and lengths and values of a well-formed transaction are below 2 ^ 32 and 2 ^ 64.
-- Where signed arithmetic would overflow, which is undefined, the integers are unbounded; so are the height
-- and the interval of `GetBlockSubsidy`, whose cast to `int` matters only where its shift is undefined. A
-- signature is a list of bytes, of which the source's arrays are those of 64.
--
-- Not modelled: allocations that fail, mutexes where each operation runs under one lock, the hashers of the
-- maps, writes to a file that fail, the widgets and the drawing of the desktop application, the overflow of
-- an amount with its fee there, and the OpenCL kernel, which is not C++.
pub mod Common
pub mod Tx
pub mod Crypto
pub mod Block
pub mod Merkle
pub mod Consensus
pub mod Pow
pub mod Validation
pub mod Genesis
pub mod Chainstate
pub mod BlockStore
pub mod TxIndex
pub mod Mempool
pub mod KeyStore
pub mod Crosschain
pub mod P2p
pub mod Rpc
pub mod Miner
pub mod Gpu
pub mod Desktop
pub mod Config
pub mod Log
