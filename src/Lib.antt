-- ===== src/Lib.antt =====
-- MINDEES blockchain: a proof-of-stake ledger with slashing, finality votes, vesting and a
-- fork-choice rule, in Python files at the root of the repository.
--
-- The parts. core.py is the ledger: keys, transactions, the Merkle tree, blocks, and Blockchain,
-- whose _apply is a template method that works on copies and so rejects a block as a whole.
-- consensus.py overrides its hooks: proposers are drawn by stake, stake and unstake transactions
-- move units between liquid, staked and unbonding, evidence confiscates the stake of an offender,
-- and votes justify and finalize checkpoints. vesting.py gives the amount that a grant keeps locked.
-- mempool.py admits transactions and selects those of a block. network.py has the wire codec.
-- forkchoice.py keeps the tree of blocks over replays of the consensus chain. tokenomics.py builds
-- the genesis arguments. storage.py, node.py and p2p.py put a node together: the file of blocks, the
-- service over the tree and the mempool, and the mesh of peers.
--
-- The files.
--   Prelude, Dict, Result: Boolean tests, texts as lists of code points, lists, Python dictionaries
--     as association lists in insertion order, and exceptions as values. Result.Reason has a
--     constructor for each message of ValidationError; KeyError, ValueError and TypeError are kept
--     apart from it, since callers catch ValidationError only.
--   Json: the values that JSON gives. A transaction keeps the JSON type of its numbers, which
--     Transaction.is_valid tests.
--   Primitives: hashlib.sha256, json.dumps, json.loads and the ECDSA calls of the cryptography
--     package are not in the repository: they are the fields of an interface that every definition
--     takes as an instance argument. A theorem that needs more of them than their types names it
--     as a hypothesis.
--   Core: core.py. Encoding (the helpers and b58check), Signature (Wallet, verify_signature),
--     Transaction, Merkle (merkle_root), Block, Chain (Blockchain; Hooks are the methods that a
--     subclass overrides, Work the copies of balances, nonces and aux).
--   Consensus: consensus.py. State (the attributes), Genesis (__init__), Election, Evidence
--     (verify_equivocation, verify_vote_fault), Stake, Vote (_apply_vote), Slash (_apply_slash),
--     Rules (the hooks, submit_block), Build (sealing, transaction builders), Queries. Reach is the
--     relation between a chain and those that it grows into. Accounts is the specification of what
--     an address holds, and Refinement and Runs relate it to the chain. Finality is about what
--     _apply_vote justifies and finalizes: Records has the invariant, Votes, Justify, Transactions and
--     Chains the steps that it goes through, Accountable and Culprits the conflict of two chains. The
--     other modules there are proofs, named for what they prove.
--   Vesting, Mempool, Tokenomics, ForkChoice: the files of these names. Network.Codec: the functions
--     encode_* and decode_* of network.py. Network.Gossip: Node of network.py.
--   Storage: the file of blocks, as text mode reads it, and the genesis file of storage.py. Service:
--     NodeService of node.py; Rpc: its JSON-RPC server. Peers: P2PNode of p2p.py, with what it sends as
--     a list of messages; Peers.Inbox: a line from a socket.
--   Fuzz: fuzz.py, its rounds with what the generator draws as an argument, its assertions and its
--     defects; Fuzz.Persistence: the chain that it writes to disk and loads again.
--   Keystore: keystore.py, over an interface for the cipher. Driver: gh_chain.py. CommandLine: what
--     the commands of wallet.py, node.py, tokenomics.py and run_testnet.py compute.
--   Tests: toy primitives, a chain of two blocks, two chains that finalize conflicting blocks, two
--     faulty votes and a fuzzed chain over them, and the theorems at work there.
--
-- Choices. Amounts are natural numbers: every subtraction of the source follows a test that it does
-- not go below zero. Text is compared by code points, as Python does. Blocks are kept newest first.
-- Heights and nonces have no bound, as in Python; to_bytes(8) of a height is written with the
-- remainder, and so agrees with the source below 2^64.
--
-- Fuel. The Merkle loop takes the number of leaves, b58check the number that it writes, BlockTree's
-- walks the number of stored parents and the height of the starting block: each round shortens the
-- layer, divides the number or goes up one block.
--
-- Hashes. SHA-256 is a parameter, so two blocks may have one hash. Where the finality records need
-- that a checkpoint does not replace another, a run (FreshRun) says of each block that its hash is
-- none of the checkpoints before it.
--
-- Not modelled: files, sockets, threads, the parsers of the command lines, the launch scripts, the
-- self-tests, the scenarios of finality.py and the benchmark of fuzz.py; a wire field of a type that
-- the annotations exclude stops a decoder here (Result.ill_typed), where Python would carry the value
-- along.
pub mod Prelude
pub mod Dict
pub mod Result
pub mod Json
pub mod Primitives
pub mod Core
pub mod Network
pub mod Vesting
pub mod Consensus
pub mod Mempool
pub mod Tokenomics
pub mod ForkChoice
pub mod Storage
pub mod Service
pub mod Peers
pub mod Keystore
pub mod Rpc
pub mod Driver
pub mod CommandLine
pub mod Fuzz
mod Tests
