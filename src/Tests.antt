-- ===== src/Tests.antt =====
-- Runs of the definitions at concrete inputs, and the theorems applied there.
mod FileSystem
mod Scheduler
mod Strings
mod Timeline
mod Paging
mod Files
mod Listing
