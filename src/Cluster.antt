-- ===== src/Cluster.antt =====
-- The two controllers on one cluster.
pub mod EppPorts
pub mod Stays
pub mod Grants
pub mod Serving
pub mod SharedStage
