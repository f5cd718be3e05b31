-- ===== src/Tests.antt =====
-- The theorems at concrete inputs.
mod Protos
mod Threads
mod Services
mod Queues
mod Readings
mod Pools
mod Waiting
mod Sample
mod Requests
mod Servers
