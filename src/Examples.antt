-- ===== src/Examples.antt =====
-- Each theorem on the backend applied to a small database (no code of its own is modelled here).
mod Data
mod Claims
mod Batches
mod Sweeps
mod Logs
mod Rubrics
mod Flows
mod Calls
mod Attacks
mod Histories
mod Endings
mod Explorers
mod Conversations
mod Scores
mod Streams
mod Secrets
mod Details
mod Creations
