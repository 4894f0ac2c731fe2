-- ===== src/Tests.antt =====
-- Runs of the model at concrete inputs, and the theorems at concrete inputs.
mod Networks
mod Loads
mod Blocks
mod Streams
mod Caches
mod Resyncs
mod Clouds
mod Scans
mod Watches
mod Metrics
mod Workflows
mod Heals
mod Routes
mod Tables
