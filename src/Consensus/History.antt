-- ===== src/Consensus/History.antt =====
-- What a chain never takes back: slashes, justified checkpoints, recorded votes, and the height of
-- the finalized checkpoint.
pub mod Growth
pub mod Reach
pub use Growth.*
pub use Reach.*
