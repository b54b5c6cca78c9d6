-- ===== src/Tests.antt =====
-- The components of uzi-nes-port run on small states.
mod Sample
mod Disk
mod Buffers
mod Blocks
mod Queues
mod Processes
mod Handling
mod Files
mod Video
mod Transfers
mod Lives
mod Mounting
