-- ===== src/Examples.antt =====
-- The theorems applied to concrete inputs.
mod Data
mod Names
mod Storage
mod Serving
mod Network
mod Disk
mod Requests
mod Sockets
mod Threads
