-- ===== src/Cluster.antt =====
-- internal/cluster: the test cluster that a run has. Here its garbage collector.
pub mod Collector
