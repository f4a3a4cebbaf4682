-- ===== src/Probes.antt =====
-- The probe modules of test-harness/probes: what they all share, and the modules one by one.
pub mod Harness
pub mod Steps
pub mod Suite
pub mod Meaning
pub mod Batch63
pub mod Batch3
pub mod Batch4
pub mod Batch5
pub mod Batch6
pub mod Batch13
pub mod Batch14
pub mod Batch7
pub mod Batch8
pub mod Batch10
pub mod Batch16
pub mod Batch17
pub mod Batch18
pub mod Batch19
pub mod Batch20
pub mod Batch21
pub mod Batch22
pub mod Batch24
pub mod Batch25
pub mod Batch37
pub mod Batch38
pub mod Batch43
pub mod Batch44
pub mod LlmBatch4
pub mod LlmBatch6
pub mod LlmBatch18
