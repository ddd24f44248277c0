-- ===== src/Tests.antt =====
-- The theorems at work on small concrete chains.
mod Toy
mod Blocks
mod Rules
mod Wire
mod Work
mod Node
mod Forks
mod Network
mod Finality
mod Fuzz
