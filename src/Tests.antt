-- ===== src/Tests.antt =====
-- Runs of the development on a small node, wallet and library.
mod Demo
mod Wire
mod Chain
mod Loop
mod Task
mod Runs
mod Told
mod Asked
mod Signing
mod Summary
mod Building
mod Payment
mod Collecting
mod Keys
mod Batches
