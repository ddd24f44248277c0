-- ===== src/Consensus/Supply.antt =====
-- Supply conservation: no transaction creates or destroys a unit.
pub mod Queues
pub mod Transactions
pub mod Blocks
pub mod Genesis
