-- ===== src/Tests.antt =====
-- Runs of the model on concrete states, and the results applied to them.
mod Node
mod Election
mod Disk
mod Server
mod Skips
mod Remote
mod Client
