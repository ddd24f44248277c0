-- ===== src/Network.antt =====
-- network.py: the wire codec and the gossiping node.
pub mod Codec
pub mod Gossip
pub mod Ingest
