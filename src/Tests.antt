-- ===== src/Tests.antt =====
-- Runs of the modelled code on small inputs, with the theorems applied to them.
mod Books
mod Immediate
mod Threads
mod Queues
mod Shards
mod Frames
mod Feeds
mod Streams
mod Sockets
mod Servers
mod Bots
mod Programs
