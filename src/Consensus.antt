-- ===== src/Consensus.antt =====
-- consensus.py: the proof-of-stake layer over the ledger of core.py.
pub mod Election
pub mod State
pub mod Evidence
pub mod Stake
pub mod Vote
pub mod Slash
pub mod Rules
pub mod Genesis
pub mod Build
pub mod Queries
pub mod Reach
pub mod Supply
pub mod Nonces
pub mod Replay
pub mod Confiscation
pub mod Quorum
pub mod Validators
pub mod Liveness
pub mod Accounts
pub mod Holdings
pub mod Maturing
pub mod Keyed
pub mod Refinement
pub mod Runs
pub mod Finality
pub mod History
pub mod Dispatch
pub mod Lock
pub mod Linked
pub mod Typed
pub mod Instant
pub mod Symmetry
