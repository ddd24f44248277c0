-- ===== src/Consensus/Finality.antt =====
-- The argument for the safety of the finality votes of consensus.py.
pub mod Records
pub mod Votes
pub mod Justify
pub mod Transactions
pub mod Chains
pub mod Accountable
pub mod Culprits
