-- ===== src/Core.antt =====
-- core.py: encodings, keys, transactions, blocks and the ledger.
pub mod Encoding
pub mod Signature
pub mod Transaction
pub mod Merkle
pub mod Block
pub mod Chain
