-- ===== src/Proxy.antt =====
-- internal/proxy: the reverse proxy between the target and the API server. The children model how
-- a request is read (Request), and the faults it injects (Fault).
pub mod Request
pub mod Fault
