-- ===== src/Wire.antt =====
-- The harness's side of the core's socket protocol (test-harness/lib/cs_probe.py).
pub mod Frame
pub mod Client
pub mod Envelope
pub mod Request
