-- ===== src/Tests.antt =====
-- Concrete parts and examples.
mod Parts
mod Code
mod Bincode
mod Numbers
mod Trees
mod Crypto
mod Files
mod Node
mod Histories
mod Faults
mod Peers
mod Bans
mod Accounts
mod Books
mod Phrases
mod Readers
mod Paths
mod Network
mod Hosts
