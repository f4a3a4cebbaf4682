-- ===== src/Tests.antt =====
-- The theorems at concrete inputs, and runs of the model.
mod Wire
mod Features
mod Github
mod Tools
mod Probes
mod Launch
mod Core
mod Python
mod Suite
mod Meaning
